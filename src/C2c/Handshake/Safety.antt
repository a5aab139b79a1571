-- ===== src/C2c/Handshake/Safety.antt =====
-- PICA_client.c: that a channel is in a state in which messages are read only with a certificate that
-- was verified, through the calls that a round makes.
pub mod States
pub mod Calls
use pica_pica.Common.{
  ℕ, ◌-◌, ◌≤◌, ◌≡◌, refl, sym, ◌∙◌, ap, List, [], ◌∷◌, ◌++◌, Bool, true, false, ◌&&◌, ◌||◌, not,
  Option, none, some, ◌==◌, ltb, leb, if◌then◌else◌, length, take, arith, inl, inr, Bool-cases,
  leb→le,
}
use pica_pica.Node.Ids.{id_eq, id_eq_iff}
use pica_pica.Node.Wbuf.{wbuf_push}
use pica_pica.Msgproc.Defs.{processdatastream}
use pica_pica.Proto.{connid}
use pica_pica.Proto.C2c.{c2cconnreq}
use pica_pica.C2c.Direct.{c2cproto_ver_high, c2cproto_ver_low}
use pica_pica.C2c.State.{
  C2cState, c2c_new, c2c_connecting, c2c_waitinganontls, c2c_connid, c2c_waitinganontlsshutdown,
  c2c_waitingtls, c2c_waitingrep, c2c_waitingc2cprotover, c2c_active, Code, pica_ok, errserv, is_ok,
  Chan, Res, M, done, fault, c2c_writebuf_push,
}
use pica_pica.C2c.Files.{send_file_fragment, is_sending}
use pica_pica.C2c.Table.{c2c_messages}
use pica_pica.C2c.Write.{SslAnswer, Writer, Outcome, returned, exited, write_c2c}
use pica_pica.C2c.Handshake.{
  state_value, Cert, Trust, Conn, Answers, SslRet, ssl_one, ssl_zero, ssl_want_read, ssl_want_write,
  ssl_error, SslRead, read_bytes, read_again, read_error, Ran, ran, crashed, ended, on_channel,
  set_state, wants, connid_tail, process_async_ssl_errors, check_async_connect_result, enter,
  push_and_enter, long_enough, id_from_x509, verify_peer_cert_common, c2c_verify_peer_cert,
  c2c_stage2_startanontls, c2c_stage3_connid, c2c_stage4_shutdownanontls, c2c_stage5_starttls,
  c2c_stage6_sendc2cconnreq,
}
use pica_pica.C2c.Handshake.Io.{
  write_channel, after_messages, read_messages, read_ssl, read_channel, put_writer, writer_of,
  chanreadbufsize, may_read, has_direct,
}
use pica_pica.C2c.Handshake.Process.{
  followed_by, when_ready, process_connecting, process_waitinganontls, process_connid,
  process_anontlsshutdown, tls_established, process_waitingtls, process_waitingrep, write_active,
  either_ready, process_active, process_state, timed, conclude, process_c2c, shutdown_on_empty,
  fragment_on_empty, write_pending, read_active, is_direct_active, then_read, any_ready,
}

-- The states in which messages of the peer are read, and the active one.
abbrev pub is_trusted : C2cState → Bool
is_trusted s = leb 6 (state_value s)

abbrev pub verified : Trust → Conn → Bool
verified t c = is_ok (verify_peer_cert_common t c.peer_cert c.peer_id)

abbrev pub secure : Trust → Conn → Bool
secure t c = not (is_trusted c.chan.state) || verified t c

abbrev pub safe : Trust → Ran → Bool
safe t (ran ret c) = secure t c
safe t crashed = true
safe t ended = true

pub on_channel-safe :
    (t : Trust) (m : M Code) (c : Conn) → verified t c ≡ true → safe t (on_channel m c) ≡ true
on_channel-safe t m c h =
    elim (m c.chan)
      as (λ r.
        safe t (elim r [ done ret ch ↦ ran ret (record c { chan = ch }) | fault ↦ crashed ])
        ≡ true) [ done ret ch ↦ rw h (ground arith) | fault ↦ refl ]

pub followed-safe :
    (t : Trust) (r : Ran) (k : Code → Conn → Ran)
    → safe t r ≡ true
    → ((ret : Code) (c : Conn) → secure t c ≡ true → safe t (k ret c) ≡ true)
    → safe t (followed_by r k) ≡ true
followed-safe t (ran ret c) k h g = g ret c h
followed-safe t crashed k h g = refl
followed-safe t ended k h g = refl

pub if-safe :
    (t : Trust) (b : Bool) (r r' : Ran)
    → safe t r ≡ true
    → safe t r' ≡ true
    → safe t (if b then r else r') ≡ true
if-safe t true r r' h g = h
if-safe t false r r' h g = g

pub ready-safe :
    (t : Trust) (ready : Bool) (f : Conn → Ran) (c : Conn)
    → secure t c ≡ true
    → safe t (f c) ≡ true
    → safe t (when_ready ready f c) ≡ true
ready-safe t true f c h g = g
ready-safe t false f c h g = h

pub write_channel-safe :
    (t : Trust) (a : Answers) (c : Conn) → secure t c ≡ true → safe t (write_channel a c) ≡ true
unfolding write_channel put_writer
write_channel-safe t a c h =
    elim (write_c2c c.chan.state a.written (writer_of c))
      as (λ o.
        safe t (elim o [
          | returned ret w ↦ if w.closed then crashed else ran ret (put_writer w c)
          | exited ↦ ended
        ])
        ≡ true) [
          | returned ret w ↦ elim (Bool-cases w.closed) [ inl e ↦ rw e refl | inr e ↦ rw e h ]
          | exited ↦ refl
        ]

pub stage2-safe :
    (t : Trust) (a : Answers) (c : Conn)
    → secure t c ≡ true
    → safe t (c2c_stage2_startanontls a c) ≡ true
unfolding c2c_stage2_startanontls
stage2-safe t a c h = ground arith

pub push-safe :
    (t : Trust) (msgid : ℕ) (tail : List ℕ) (s : C2cState) (c : Conn)
    → secure t c ≡ true
    → (is_trusted s ≡ true → verified t c ≡ true)
    → safe t (on_channel (push_and_enter msgid tail s) c) ≡ true
unfolding push_and_enter c2c_writebuf_push
push-safe t msgid tail s c h g = elim (Bool-cases (is_trusted s)) [
  | inl e ↦ on_channel-safe t (push_and_enter msgid tail s) c (g e)
  | inr e ↦ ground arith
]

pub stage4-safe :
    (t : Trust) (a : Answers) (c : Conn)
    → secure t c ≡ true
    → safe t (c2c_stage4_shutdownanontls a c) ≡ true
unfolding c2c_stage4_shutdownanontls
stage4-safe t a c h = ground arith

pub stage5-safe :
    (t : Trust) (a : Answers) (c : Conn)
    → secure t c ≡ true
    → safe t (c2c_stage5_starttls a c) ≡ true
unfolding c2c_stage5_starttls
stage5-safe t a c h = ground arith

pub after_messages-safe :
    (t : Trust) (ok : ℕ) (rest : List ℕ) (r : Res (Unit {0})) (c : Conn)
    → verified t c ≡ true
    → safe t (after_messages ok rest r c) ≡ true
unfolding after_messages
after_messages-safe t ok rest (done x ch) c h = rw h (ground arith)
after_messages-safe t ok rest fault c h = refl

pub read_messages-safe :
    (t : Trust) (buf : List ℕ) (c : Conn)
    → verified t c ≡ true
    → safe t (read_messages t buf c) ≡ true
unfolding read_messages
read_messages-safe t buf c h =
    let (ok, rest, res) = processdatastream buf (done tt c.chan) (c2c_messages t.decide) in
    after_messages-safe t ok rest res c h

pub read_ssl-safe :
    (t : Trust) (r : SslRead) (c : Conn)
    → secure t c ≡ true
    → verified t c ≡ true
    → safe t (read_ssl t r c) ≡ true
unfolding read_ssl
read_ssl-safe t (read_bytes bytes) c h g =
    elim (Bool-cases (length (take (chanreadbufsize - length c.read_buf) bytes) == 0)) [
      | inl e ↦ rw e h
      | inr e ↦ rw e (
          read_messages-safe t (c.read_buf ++ take (chanreadbufsize - length c.read_buf) bytes) c g)
    ]
read_ssl-safe t read_again c h g = read_messages-safe t c.read_buf c g
read_ssl-safe t read_error c h g = h

pub may_read_trusted : (s : C2cState) → may_read s ≡ is_trusted s
may_read_trusted c2c_new = refl
may_read_trusted c2c_connecting = refl
may_read_trusted c2c_waitinganontls = refl
may_read_trusted c2c_connid = refl
may_read_trusted c2c_waitinganontlsshutdown = refl
may_read_trusted c2c_waitingtls = refl
may_read_trusted c2c_waitingrep = refl
may_read_trusted c2c_waitingc2cprotover = refl
may_read_trusted c2c_active = refl

pub read_channel-safe :
    (t : Trust) (a : Answers) (c : Conn) → secure t c ≡ true → safe t (read_channel t a c) ≡ true
unfolding read_channel
read_channel-safe t a c h = elim (Bool-cases (is_trusted c.chan.state)) [
  | inl e ↦
      rw (may_read_trusted c.chan.state ∙ e)
        (elim (Bool-cases (c.chan.switched_to_directc2c_read && not (has_direct c.chan.direct))) [
          | inl k ↦ rw k refl
          | inr k ↦ rw k (read_ssl-safe t a.read c h (ground arith))
        ])
  | inr e ↦ rw (may_read_trusted c.chan.state ∙ e) refl
]
