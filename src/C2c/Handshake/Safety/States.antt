-- ===== src/C2c/Handshake/Safety/States.antt =====
-- PICA_client.c: the certificate of a channel through the branches of `process_c2c`.
use pica_pica.Common.{
  ◌≡◌, refl, ap, [], ◌∷◌, Bool, true, false, ◌&&◌, not, ◌==◌, ltb, length, arith, inl, inr,
  Bool-cases,
}
use pica_pica.Proto.{connid}
use pica_pica.Proto.C2c.{c2cconnreq}
use pica_pica.C2c.Direct.{c2cproto_ver_high, c2cproto_ver_low}
use pica_pica.C2c.State.{
  C2cState, c2c_new, c2c_connecting, c2c_waitinganontls, c2c_connid, c2c_waitinganontlsshutdown,
  c2c_waitingtls, c2c_waitingrep, c2c_waitingc2cprotover, c2c_active, Code, pica_ok, is_ok,
}
use pica_pica.C2c.Files.{send_file_fragment, is_sending}
use pica_pica.C2c.Handshake.{
  Trust, Conn, Answers, SslRet, ssl_one, ssl_zero, ssl_want_read, ssl_want_write, ssl_error, Ran,
  ran, connid_tail, process_async_ssl_errors, check_async_connect_result, c2c_verify_peer_cert,
  c2c_stage3_connid, c2c_stage6_sendc2cconnreq,
}
use pica_pica.C2c.Handshake.Safety.{
  is_trusted, verified, secure, safe, on_channel-safe, followed-safe, if-safe, ready-safe,
  write_channel-safe, stage2-safe, push-safe, stage4-safe, stage5-safe, read_channel-safe,
}
use pica_pica.C2c.Handshake.Io.{write_channel, has_direct}
use pica_pica.C2c.Handshake.Process.{
  when_ready, process_connecting, process_waitinganontls, process_connid, process_anontlsshutdown,
  tls_established, process_waitingtls, process_waitingrep, write_active, either_ready,
  process_active, process_state, shutdown_on_empty, fragment_on_empty, write_pending, read_active,
  is_direct_active, then_read, any_ready,
}

pub connecting-safe :
    (t : Trust) (a : Answers) (c : Conn)
    → secure t c ≡ true
    → safe t (process_connecting a c) ≡ true
unfolding process_connecting
connecting-safe t a c h =
    if-safe t (is_ok (check_async_connect_result a.connects)) _ _ (stage2-safe t a c h) h

pub stage3-safe : (t : Trust) (c : Conn) → secure t c ≡ true → safe t (c2c_stage3_connid c) ≡ true
unfolding c2c_stage3_connid
stage3-safe t c h = push-safe t connid (connid_tail c) c2c_connid c h (λ e. cc)

pub waitinganontls-safe :
    (t : Trust) (r : SslRet) (c : Conn)
    → secure t c ≡ true
    → safe t (process_waitinganontls r c) ≡ true
unfolding process_waitinganontls process_async_ssl_errors
waitinganontls-safe t ssl_one c h = stage3-safe t c h
waitinganontls-safe t ssl_zero c h = h
waitinganontls-safe t ssl_want_read c h = h
waitinganontls-safe t ssl_want_write c h = h
waitinganontls-safe t ssl_error c h = h

pub shutdown_on_empty-safe :
    (t : Trust) (a : Answers) (ret : Code) (c : Conn)
    → secure t c ≡ true
    → safe t (shutdown_on_empty a ret c) ≡ true
unfolding shutdown_on_empty
shutdown_on_empty-safe t a ret c h =
    if-safe t (length c.chan.wbuf.bytes == 0) _ _ (stage4-safe t a c h) h

pub connid-safe :
    (t : Trust) (a : Answers) (c : Conn) → secure t c ≡ true → safe t (process_connid a c) ≡ true
unfolding process_connid
connid-safe t a c h =
    followed-safe t (when_ready a.writable (write_channel a) c) (shutdown_on_empty a)
      (ready-safe t a.writable (write_channel a) c h (write_channel-safe t a c h))
      (shutdown_on_empty-safe t a)

pub anontlsshutdown-safe :
    (t : Trust) (a : Answers) (r : SslRet) (c : Conn)
    → secure t c ≡ true
    → safe t (process_anontlsshutdown a r c) ≡ true
unfolding process_anontlsshutdown process_async_ssl_errors
anontlsshutdown-safe t a ssl_one c h = stage5-safe t a c h
anontlsshutdown-safe t a ssl_zero c h = h
anontlsshutdown-safe t a ssl_want_read c h = h
anontlsshutdown-safe t a ssl_want_write c h = h
anontlsshutdown-safe t a ssl_error c h = h

pub tls_established-safe :
    (t : Trust) (a : Answers) (c : Conn)
    → is_trusted c.chan.state ≡ false
    → safe t (tls_established t a c) ≡ true
unfolding tls_established c2c_verify_peer_cert c2c_stage6_sendc2cconnreq
tls_established-safe t a c h =
    let c' = record c { peer_cert = a.cert } in
    elim (Bool-cases (verified t c')) [
      | inl e ↦ rw e (
          if-safe t c.chan.outgoing _ _
            (push-safe t c2cconnreq (c2cproto_ver_high ∷ c2cproto_ver_low ∷ []) c2c_waitingrep c'
              (rw h refl) (λ k. e))
            e)
      | inr e ↦ rw e (rw h refl)
    ]

pub waitingtls-safe :
    (t : Trust) (a : Answers) (r : SslRet) (c : Conn)
    → is_trusted c.chan.state ≡ false
    → safe t (process_waitingtls t a r c) ≡ true
unfolding process_waitingtls
waitingtls-safe t a ssl_one c h = tls_established-safe t a c h
waitingtls-safe t a ssl_zero c h = rw h refl
waitingtls-safe t a ssl_want_read c h = rw h refl
waitingtls-safe t a ssl_want_write c h = rw h refl
waitingtls-safe t a ssl_error c h = rw h refl

pub waitingrep-safe :
    (t : Trust) (a : Answers) (c : Conn)
    → secure t c ≡ true
    → safe t (process_waitingrep t a c) ≡ true
unfolding process_waitingrep
waitingrep-safe t a c h =
    followed-safe t (when_ready a.writable (write_channel a) c) (then_read t a a.readable)
      (ready-safe t a.writable (write_channel a) c h (write_channel-safe t a c h))
      (λ ret c' h'. if-safe t (is_ok ret && a.readable) _ _ (read_channel-safe t a c' h') h')

pub fragment_on_empty-safe :
    (t : Trust) (c : Conn) → verified t c ≡ true → safe t (fragment_on_empty c) ≡ true
unfolding fragment_on_empty
fragment_on_empty-safe t c h =
    if-safe t (is_sending c.chan.sendfilestate && length c.chan.wbuf.bytes == 0) _ _
      (on_channel-safe t send_file_fragment c h) (rw h (ground arith))

pub write_active-safe :
    (t : Trust) (a : Answers) (c : Conn) → verified t c ≡ true → safe t (write_active a c) ≡ true
unfolding write_active write_pending
write_active-safe t a c h =
    followed-safe t (fragment_on_empty c) (write_pending a) (fragment_on_empty-safe t c h)
      (λ ret c' h'.
        if-safe t (ltb 0 (length c'.chan.wbuf.bytes)) _ _ (write_channel-safe t a c' h') h')

pub either-safe :
    (t : Trust) (ready direct_ready : Bool) (c : Conn) (r r' : Ran)
    → safe t r ≡ true
    → safe t r' ≡ true
    → safe t (either_ready ready direct_ready c r r') ≡ true
either-safe t ready direct_ready c r r' h g = if-safe t ready _ _ h (
    if-safe t (is_direct_active c.chan.directc2c_state) _ _
      (if-safe t (not (has_direct c.chan.direct)) _ _ refl (if-safe t direct_ready _ _ h g)) g)

pub active-safe :
    (t : Trust) (a : Answers) (c : Conn)
    → verified t c ≡ true
    → safe t (process_active t a c) ≡ true
unfolding process_active read_active
active-safe t a c h =
    followed-safe t (either_ready a.writable a.direct_writable c (write_active a c) (ran pica_ok c))
      (read_active t a)
      (either-safe t a.writable a.direct_writable c _ _ (write_active-safe t a c h)
        (rw h (ground arith)))
      (λ ret c' h'.
        if-safe t (is_ok ret) _ _
          (either-safe t a.readable a.direct_readable c' _ _ (read_channel-safe t a c' h') h') h')

trusted-verified :
    (t : Trust) (c : Conn)
    → is_trusted c.chan.state ≡ true
    → secure t c ≡ true
    → verified t c ≡ true
trusted-verified t c e h = ground arith

pub process_state-safe :
    (t : Trust) (a : Answers) (s : C2cState) (c : Conn)
    → c.chan.state ≡ s
    → secure t c ≡ true
    → safe t (process_state t a s c) ≡ true
unfolding process_state
process_state-safe t a c2c_new c e h = h
process_state-safe t a c2c_connecting c e h =
    ready-safe t a.writable (process_connecting a) c h (connecting-safe t a c h)
process_state-safe t a c2c_waitinganontls c e h =
    ready-safe t (any_ready a) (process_waitinganontls a.handshake) c h
      (waitinganontls-safe t a.handshake c h)
process_state-safe t a c2c_connid c e h = connid-safe t a c h
process_state-safe t a c2c_waitinganontlsshutdown c e h =
    ready-safe t (any_ready a) (process_anontlsshutdown a a.handshake) c h
      (anontlsshutdown-safe t a a.handshake c h)
process_state-safe t a c2c_waitingtls c e h =
    ready-safe t (any_ready a) (process_waitingtls t a a.handshake) c h
      (waitingtls-safe t a a.handshake c (rw e refl))
process_state-safe t a c2c_waitingrep c e h = waitingrep-safe t a c h
process_state-safe t a c2c_waitingc2cprotover c e h = waitingrep-safe t a c h
process_state-safe t a c2c_active c e h =
    active-safe t a c (trusted-verified t c (ap is_trusted e) h)
