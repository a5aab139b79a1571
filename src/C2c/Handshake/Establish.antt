-- ===== src/C2c/Handshake/Establish.antt =====
-- PICA_client.c: two clients set up a channel. `c2n_alloc_c2c` makes each end; the rounds of the event
-- loop are those of one order of answers, in which no call of OpenSSL fails and `SSL_shutdown` answers 0
-- before it answers 1, and any rounds between them in which nothing is ready.
pub mod Rounds
pub mod Agreed
pub mod Complete
use pica_pica.Common.{
  map, ℕ, ◌-◌, ◌≤◌, ◌≡◌, refl, ap, sym, ◌∙◌, List, [], ◌∷◌, ◌++◌, suc, Bool, true, false, Option,
  none, some, ltb, length, arith, if◌then◌else◌, length-append, take_whole, length-drop,
  drop-length, take, drop,
}
use pica_pica.Proto.{connid, initrespok}
use pica_pica.Proto.C2c.{c2cconnreq}
use pica_pica.Node.Wbuf.{Wbuf, empty_wbuf, wbuf_push, first_alloc, make_room, put_msg, malloc}
use pica_pica.Msgproc.Defs.{
  processdatastream, stream_loop, round, msggetsize, getsize_loop, processmsg, dispatch,
}
use pica_pica.C2c.State.{
  Listener, C2cState, c2c_new, c2c_connecting, c2c_waitinganontls, c2c_connid,
  c2c_waitinganontlsshutdown, c2c_waitingtls, c2c_waitingrep, c2c_waitingc2cprotover, c2c_active,
  send_idle, recv_idle, direct_inactive, DirectConfig, cfg_disabled, cfg_connectonly,
  cfg_allowincoming, Chan, Code, pica_ok, is_ok, Callback, c2c_established_cb, c2c_writebuf_push,
}
use pica_pica.C2c.Direct.{allows_incoming, established, procmsg_c2cconnreq, procmsg_initresp_c2c}
use pica_pica.C2c.Table.{on_chan}
use pica_pica.C2c.Write.{SslAnswer, wrote, want_io, write_c2c, write_either, no_barrier, write_ssl}
use pica_pica.C2c.Handshake.{
  set_state, Cert, Trust, Conn, Answers, SslRet, ssl_one, ssl_zero, ssl_want_read, SslRead,
  read_bytes, read_again, connect_under_way, Ran, ran, crashed, ended, on_channel, c2c_start,
  verify_peer_cert_common, process_async_ssl_errors, check_async_connect_result,
  c2c_stage2_startanontls, c2c_stage3_connid, connid_tail, push_and_enter,
  c2c_stage4_shutdownanontls, c2c_stage5_starttls, c2c_verify_peer_cert, c2c_stage6_sendc2cconnreq,
}
use pica_pica.C2c.Handshake.Io.{
  write_channel, writer_of, put_writer, read_channel, read_ssl, read_messages, after_messages,
}
use pica_pica.C2c.Handshake.Process.{
  process_c2c, followed_by, process_state, conclude, timed, c2c_activate_timeout,
  process_connecting, process_waitinganontls, process_connid, shutdown_on_empty,
  process_anontlsshutdown, process_waitingtls, tls_established, process_waitingrep, process_active,
  write_active, fragment_on_empty, write_pending, read_active,
}

-- What a client has of its own when it makes a channel.
pub record Client : Type 0 where
  pub own_id : List ℕ
  pub config : DirectConfig
  pub listens : Option Listener
  pub noise : List ℕ

-- `c2n_alloc_c2c`, where both calls of `calloc` succeed.
abbrev pub new_chan : Client → Bool → Chan
new_chan me is_outgoing = record {
  state = c2c_new;
  outgoing = is_outgoing;
  wbuf = empty_wbuf;
  sendfilestate = send_idle;
  sendfile_size = 0;
  sendfile_pos = 0;
  sendfile_stream = none;
  recvfilestate = recv_idle;
  recvfile_size = 0;
  recvfile_pos = 0;
  recvfile_stream = none;
  disconnect_on_empty_write_buf = false;
  directc2c_state = direct_inactive;
  direct = none;
  switched_to_directc2c_read = false;
  directc2c_config = me.config;
  listener = me.listens;
  called = [];
  opened = [];
  closed_files = [];
  random = me.noise;
  mem = [];
  opens = [];
  connects = [];
  writes = [];
  reads = [];
}

unfoldable pub c2n_alloc_c2c : Client → List ℕ → Bool → ℕ → Conn
c2n_alloc_c2c me peer is_outgoing now = record {
  chan = new_chan me is_outgoing;
  acc_id = me.own_id;
  peer_id = peer;
  timestamp = now;
  want_write = false;
  peer_cert = none;
  read_buf = [];
  sslbytestowrite = 0;
  barrier_pos = 0;
  before_barrier_pos = 0;
  switched_to_directc2c_write = false;
  relay = [];
  direct_sent = [];
  notices = [];
  freed = false;
}

-- A round at a time, in which nothing is ready; the others change it.
abbrev pub quiet : ℕ → Answers
quiet time = record {
  readable = false;
  writable = false;
  direct_readable = false;
  direct_writable = false;
  connects = true;
  handshake = ssl_one;
  ssl_new = true;
  ssl_set_fd = true;
  next = ssl_want_read;
  cert = none;
  written = want_io;
  read = read_again;
  now = time;
}

abbrev pub connected_at : ℕ → Answers
connected_at time = record (quiet time) { writable = true }

abbrev pub heard_at : ℕ → Answers
heard_at time = record (quiet time) { readable = true }

abbrev pub wrote_at : ℕ → ℕ → Answers
wrote_at n time = record (quiet time) { writable = true; written = wrote n; next = ssl_zero }

abbrev pub secured_at : Cert → ℕ → Answers
secured_at x time = record (quiet time) { readable = true; cert = some x }

abbrev pub read_at : List ℕ → ℕ → Answers
read_at bytes time = record (quiet time) { readable = true; read = read_bytes bytes }

abbrev pub rounds : Trust → List Answers → Conn → Ran
rounds t [] c = ran pica_ok c
rounds t (a ∷ as') c =
    followed_by (process_c2c t a c) (λ ret c'. if is_ok ret then rounds t as' c' else ran ret c')

-- The times of the rounds in which nothing is ready, before each round in which something is.
abbrev pub Pauses : Type 0
Pauses = ℕ → List ℕ

abbrev pub paused : List ℕ → Answers → List Answers → List Answers
paused times a rest = map quiet times ++ (a ∷ rest)

-- From the call of `connect` to the end of the handshake of TLS.
abbrev pub secures : Pauses → ℕ → List Answers → List Answers
secures p time rest = paused (p 0) (connected_at time) (
    paused (p 1) (heard_at time)
      (paused (p 2) (wrote_at 58 time) (paused (p 3) (heard_at time) rest)))

abbrev pub caller_secured : Pauses → Cert → ℕ → List Answers
caller_secured p x time =
    secures p time (paused (p 4) (secured_at x time) (paused (p 5) (wrote_at 4 time) []))

abbrev pub callee_secured : Pauses → Cert → ℕ → List Answers
callee_secured p x time = secures p time (paused (p 4) (secured_at x time) [])

abbrev pub callee_answers : Pauses → List ℕ → ℕ → List Answers
callee_answers p bytes time = paused (p 5) (read_at bytes time) (paused (p 6) (wrote_at 4 time) [])

abbrev pub caller_hears : Pauses → List ℕ → ℕ → List Answers
caller_hears p bytes time = paused (p 6) (read_at bytes time) []

abbrev pub then_some : Ran → (Conn → Option (Conn × Conn)) → Option (Conn × Conn)
then_some (ran ret c) k = if is_ok ret then k c else none
then_some crashed k = none
then_some ended k = none

-- The caller and the callee. The nodes take the first message of each, of 58 bytes; what follows it
-- each end reads from the other.
unfoldable pub set_up :
    Trust → Trust → Cert → Cert → Conn → Conn → Pauses → Pauses → ℕ → Option (Conn × Conn)
set_up t u x y c d p q time = then_some (rounds t (caller_secured p x time) c) (λ c1.
    then_some (rounds u (callee_secured q y time) d) (λ d1.
      then_some (rounds u (callee_answers q (drop 58 c1.relay) time) d1) (λ d2.
        then_some (rounds t (caller_hears p (drop 58 d2.relay) time) c1) (λ c2. some (c2, d2)))))
