-- ===== src/C2c/Handshake/Establish/Rounds.antt =====
-- PICA_client.c: each round in which two clients set up a channel.
use pica_pica.Common.{
  not, ◌&&◌, ◌==◌, ℕ, ◌-◌, ◌≡◌, refl, List, [], ◌∷◌, ◌++◌, Bool, true, false, Option, none, some,
  ltb, length, arith, if◌then◌else◌, take,
}
use pica_pica.Proto.{connid}
use pica_pica.Proto.C2c.{c2cconnreq}
use pica_pica.Node.Wbuf.{Wbuf, empty_wbuf, wbuf_push, first_alloc, make_room, put_msg, malloc}
use pica_pica.C2c.State.{
  C2cState, c2c_connecting, c2c_waitinganontls, c2c_connid, c2c_waitinganontlsshutdown, c2c_new,
  c2c_active, c2c_waitingtls, c2c_waitingrep, c2c_waitingc2cprotover, pica_ok, is_ok, Callback,
  c2c_writebuf_push,
}
use pica_pica.C2c.Write.{write_c2c, write_either, no_barrier, write_ssl}
use pica_pica.C2c.Handshake.{
  Cert, Trust, Conn, Answers, ran, on_channel, verify_peer_cert_common, process_async_ssl_errors,
  check_async_connect_result, c2c_stage2_startanontls, c2c_stage3_connid, connid_tail,
  push_and_enter, c2c_stage4_shutdownanontls, c2c_stage5_starttls, c2c_verify_peer_cert,
  c2c_stage6_sendc2cconnreq,
}
use pica_pica.C2c.Handshake.Io.{write_channel, writer_of, put_writer}
use pica_pica.C2c.Handshake.Process.{
  process_c2c, process_state, conclude, timed, c2c_activate_timeout, process_connecting,
  process_waitinganontls, process_connid, shutdown_on_empty, process_anontlsshutdown,
  process_waitingtls, tls_established, process_waitingrep, process_active, read_active,
  is_direct_active,
}
use pica_pica.C2c.Handshake.Establish.{
  Client, c2n_alloc_c2c, quiet, connected_at, heard_at, wrote_at, secured_at, paused, rounds,
}

-- An end in a state, with an output buffer of 4096 bytes, what it has sent and what it has been told.
abbrev pub at_stage :
    Client → List ℕ → Bool → ℕ → C2cState → Wbuf → List ℕ → Option Cert → List Callback → Conn
at_stage me peer out made s w sent o told =
    let c = c2n_alloc_c2c me peer out made in
    record c {
      chan = record c.chan { state = s; wbuf = w; called = told };
      relay = sent;
      peer_cert = o;
    }

abbrev is_connid : C2cState → Bool
is_connid c2c_connid = true
is_connid _ = false

abbrev pub buffer : List ℕ → Wbuf
buffer bytes = record { allocated = true; buflen_w = 4096; bytes = bytes }

pub on_time :
    (t : Trust) (a : Answers) (c c' : Conn)
    → ltb c2c_activate_timeout (a.now - c'.timestamp) ≡ false
    → process_state t a c.chan.state c ≡ ran pica_ok c'
    → process_c2c t a c ≡ ran pica_ok c'
unfolding process_c2c conclude timed
on_time t a c c' l e = rw e (ground (arith, l))

pub connects_step :
    (t : Trust) (me : Client) (peer : List ℕ) (out : Bool) (made time : ℕ)
    → process_state t
        (connected_at time)
        c2c_connecting
        (at_stage me peer out made c2c_connecting empty_wbuf [] none [])
      ≡ ran pica_ok (at_stage me peer out made c2c_waitinganontls empty_wbuf [] none [])
unfolding process_state process_connecting check_async_connect_result c2c_stage2_startanontls
    process_async_ssl_errors c2n_alloc_c2c
connects_step t me peer out made time = refl

abbrev pub ids : Client → List ℕ → Bool → List ℕ
ids me peer out = if out then me.own_id ++ peer else peer ++ me.own_id

connid_pushed :
    (me : Client) (peer : List ℕ) (out : Bool) (made : ℕ) (tail : List ℕ)
    → length tail ≡ 56
    → on_channel
        (push_and_enter connid tail c2c_connid)
        (at_stage me peer out made c2c_waitinganontls empty_wbuf [] none [])
      ≡ ran pica_ok
          (at_stage me peer out made c2c_connid (buffer (connid ∷ connid ∷ tail)) [] none [])
unfolding push_and_enter c2c_writebuf_push wbuf_push first_alloc make_room put_msg malloc
    c2n_alloc_c2c
connid_pushed me peer out made tail h = rw (h, on_channel) refl

pub connid_step :
    (t : Trust) (me : Client) (peer : List ℕ) (out : Bool) (made time : ℕ)
    → length (ids me peer out) ≡ 56
    → process_state t
        (heard_at time)
        c2c_waitinganontls
        (at_stage me peer out made c2c_waitinganontls empty_wbuf [] none [])
      ≡ ran pica_ok (
          at_stage me peer out made c2c_connid
            (buffer (connid ∷ connid ∷ ids me peer out))
            []
            none
            [])
unfolding process_state process_waitinganontls c2c_stage3_connid connid_tail c2n_alloc_c2c
connid_step t me peer out made time h = connid_pushed me peer out made (ids me peer out) h

pub written_step :
    (t : Trust) (me : Client) (peer : List ℕ) (out : Bool) (made time : ℕ) (msg : List ℕ)
    → length msg ≡ 58
    → take 58 msg ≡ msg
    → process_state t
        (wrote_at 58 time)
        c2c_connid
        (at_stage me peer out made c2c_connid (buffer msg) [] none [])
      ≡ ran pica_ok (at_stage me peer out made c2c_waitinganontlsshutdown (buffer []) msg none [])
unfolding process_state process_connid write_channel writer_of put_writer write_c2c write_either
    no_barrier write_ssl shutdown_on_empty c2c_stage4_shutdownanontls c2n_alloc_c2c
written_step t me peer out made time msg h k = rw h (rw k refl)

pub shutdown_step :
    (t : Trust) (me : Client) (peer : List ℕ) (out : Bool) (made time : ℕ) (sent : List ℕ)
    → process_state t
        (heard_at time)
        c2c_waitinganontlsshutdown
        (at_stage me peer out made c2c_waitinganontlsshutdown (buffer []) sent none [])
      ≡ ran pica_ok (at_stage me peer out made c2c_waitingtls (buffer []) sent none [])
unfolding process_state process_anontlsshutdown c2c_stage5_starttls c2n_alloc_c2c
shutdown_step t me peer out made time sent = refl

abbrev pub request : List ℕ
request = c2cconnreq ∷ c2cconnreq ∷ 0 ∷ 1 ∷ []

pub secured_out_step :
    (t : Trust) (me : Client) (peer : List ℕ) (x : Cert) (made time : ℕ) (sent : List ℕ)
    → is_ok (verify_peer_cert_common t (some x) peer) ≡ true
    → process_state t
        (secured_at x time)
        c2c_waitingtls
        (at_stage me peer true made c2c_waitingtls (buffer []) sent none [])
      ≡ ran pica_ok (at_stage me peer true made c2c_waitingrep (buffer request) sent (some x) [])
unfolding process_state process_waitingtls tls_established c2c_verify_peer_cert
    c2c_stage6_sendc2cconnreq push_and_enter c2c_writebuf_push wbuf_push first_alloc make_room
    put_msg c2n_alloc_c2c
secured_out_step t me peer x made time sent v = rw v refl

pub secured_in_step :
    (t : Trust) (me : Client) (peer : List ℕ) (x : Cert) (made time : ℕ) (sent : List ℕ)
    → is_ok (verify_peer_cert_common t (some x) peer) ≡ true
    → process_state t
        (secured_at x time)
        c2c_waitingtls
        (at_stage me peer false made c2c_waitingtls (buffer []) sent none [])
      ≡ ran pica_ok
          (at_stage me peer false made c2c_waitingc2cprotover (buffer []) sent (some x) [])
unfolding process_state process_waitingtls tls_established c2c_verify_peer_cert c2n_alloc_c2c
secured_in_step t me peer x made time sent v = rw v refl

-- Times within 30 seconds from when a channel was made.
abbrev pub in_time : ℕ → ℕ → Bool
in_time made time = not (ltb c2c_activate_timeout (time - made))

unfoldable pub all_in_time : ℕ → List ℕ → Bool
all_in_time made [] = true
all_in_time made (time ∷ ts) = in_time made time && all_in_time made ts

-- An end that a round in which nothing is ready leaves as it is.
abbrev pub is_calm : Conn → Bool
is_calm c =
    not (is_direct_active c.chan.directc2c_state)
    && (if is_connid c.chan.state then ltb 0 (length c.chan.wbuf.bytes) else true)

calm-state :
    (t : Trust) (time : ℕ) (c : Conn) (s : C2cState)
    → is_direct_active c.chan.directc2c_state ≡ false
    → (if is_connid s then ltb 0 (length c.chan.wbuf.bytes) else true) ≡ true
    → process_state t (quiet time) s c ≡ ran pica_ok c
unfolding process_state process_connid shutdown_on_empty process_waitingrep process_active
    read_active
calm-state t time c c2c_new d h = refl
calm-state t time c c2c_connecting d h = refl
calm-state t time c c2c_waitinganontls d h = refl
calm-state t time c c2c_connid d h =
    let some_left : (length c.chan.wbuf.bytes == 0) ≡ false = ground arith in rw some_left refl
calm-state t time c c2c_waitinganontlsshutdown d h = refl
calm-state t time c c2c_waitingtls d h = refl
calm-state t time c c2c_waitingrep d h = refl
calm-state t time c c2c_waitingc2cprotover d h = refl
calm-state t time c c2c_active d h = rw d (rw d refl)

calm-round :
    (t : Trust) (time : ℕ) (c : Conn)
    → is_calm c ≡ true
    → in_time c.timestamp time ≡ true
    → process_c2c t (quiet time) c ≡ ran pica_ok c
calm-round t time c h l =
    on_time t (quiet time) c c (ground arith)
      (calm-state t time c c.chan.state (ground arith) (ground arith))

-- A round of an end, after any number of rounds in which nothing is ready.
pub rounds_step :
    (t : Trust) (times : List ℕ) (a : Answers) (as' : List Answers) (c c' : Conn)
    → is_calm c ≡ true
    → all_in_time c.timestamp times ≡ true
    → process_c2c t a c ≡ ran pica_ok c'
    → rounds t (paused times a as') c ≡ rounds t as' c'
unfolding all_in_time
rounds_step t [] a as' c c' h l e = rw e refl
rounds_step t (time ∷ ts) a as' c c' h l e =
    rw (calm-round t time c h (ground arith)) (rounds_step t ts a as' c c' h (ground arith) e)
