-- ===== src/C2c/Handshake/Process.antt =====
-- PICA_client.c: what the event loop does with a channel whose sockets are ready, `process_c2c`.
use pica_pica.Common.{
  ℕ, ◌-◌, [], ◌∷◌, ◌++◌, Bool, true, false, ◌&&◌, ◌||◌, not, ◌==◌, ltb, if◌then◌else◌, length,
}
use pica_pica.C2c.State.{
  C2cState, c2c_new, c2c_connecting, c2c_waitinganontls, c2c_connid, c2c_waitinganontlsshutdown,
  c2c_waitingtls, c2c_waitingrep, c2c_waitingc2cprotover, c2c_active, Code, pica_ok, errssl,
  errtimedout, is_ok, direct_active, DirectState,
}
use pica_pica.C2c.Files.{is_sending, send_file_fragment}
use pica_pica.C2c.Messages.{is_active}
use pica_pica.C2c.Handshake.{
  state_value, Trust, Conn, Answers, SslRet, ssl_one, ssl_zero, ssl_want_read, ssl_want_write,
  ssl_error, Ran, ran, crashed, ended, on_channel, set_state, wants, c2c_failed_cb, c2c_closed_cb,
  process_async_ssl_errors, check_async_connect_result, c2c_stage2_startanontls, c2c_stage3_connid,
  c2c_stage4_shutdownanontls, c2c_stage5_starttls, c2c_stage6_sendc2cconnreq, c2c_verify_peer_cert,
}
use pica_pica.C2c.Handshake.Io.{write_channel, has_direct, read_channel}

-- What follows a call, given its code, where it comes back.
abbrev pub followed_by : Ran → (Code → Conn → Ran) → Ran
followed_by (ran ret c) k = k ret c
followed_by crashed k = crashed
followed_by ended k = ended

abbrev pub any_ready : Answers → Bool
any_ready a = a.writable || a.readable

abbrev pub when_ready : Bool → (Conn → Ran) → Conn → Ran
when_ready ready f c = if ready then f c else ran pica_ok c

unfoldable pub process_connecting : Answers → Conn → Ran
unfolding check_async_connect_result
process_connecting a c =
    if is_ok (check_async_connect_result a.connects)
    then c2c_stage2_startanontls a c
    else ran (check_async_connect_result a.connects) c

unfoldable pub process_waitinganontls : SslRet → Conn → Ran
unfolding process_async_ssl_errors
process_waitinganontls ssl_one c = c2c_stage3_connid c
process_waitinganontls sslret c =
    let (ret, more) = process_async_ssl_errors sslret in ran ret (wants more c)

-- The code of the write is lost where the buffer is empty.
unfoldable pub shutdown_on_empty : Answers → Code → Conn → Ran
shutdown_on_empty a ret c =
    if length c.chan.wbuf.bytes == 0 then c2c_stage4_shutdownanontls a c else ran ret c

unfoldable pub process_connid : Answers → Conn → Ran
process_connid a c = followed_by (when_ready a.writable (write_channel a) c) (shutdown_on_empty a)

unfoldable pub process_anontlsshutdown : Answers → SslRet → Conn → Ran
unfolding process_async_ssl_errors
process_anontlsshutdown a ssl_one c = c2c_stage5_starttls a c
process_anontlsshutdown a ssl_zero c = ran pica_ok c
process_anontlsshutdown a sslret c =
    let (ret, more) = process_async_ssl_errors sslret in ran ret (wants more c)

-- What follows the end of the TLS handshake: the certificate first.
unfoldable pub tls_established : Trust → Answers → Conn → Ran
tls_established t a c =
    let (ret, c') = c2c_verify_peer_cert t a c in
    if not (is_ok ret)
    then ran ret c'
    else if c'.chan.outgoing
    then c2c_stage6_sendc2cconnreq c'
    else ran pica_ok (set_state c2c_waitingc2cprotover c')

unfoldable pub process_waitingtls : Trust → Answers → SslRet → Conn → Ran
process_waitingtls t a ssl_one c = tls_established t a c
process_waitingtls t a ssl_zero c = ran errssl c
process_waitingtls t a ssl_want_read c = ran pica_ok c
process_waitingtls t a ssl_want_write c = ran pica_ok (wants true c)
process_waitingtls t a ssl_error c = ran errssl c

-- Reading comes after writing, where that has succeeded.
abbrev pub then_read : Trust → Answers → Bool → Code → Conn → Ran
then_read t a ready ret c = if is_ok ret && ready then read_channel t a c else ran ret c

unfoldable pub process_waitingrep : Trust → Answers → Conn → Ran
process_waitingrep t a c =
    followed_by (when_ready a.writable (write_channel a) c) (then_read t a a.readable)

abbrev pub is_direct_active : DirectState → Bool
is_direct_active direct_active = true
is_direct_active _ = false

-- The next fragment of a file, where nothing is to be written.
unfoldable pub fragment_on_empty : Conn → Ran
fragment_on_empty c =
    if is_sending c.chan.sendfilestate && length c.chan.wbuf.bytes == 0
    then on_channel send_file_fragment c
    else ran pica_ok c

-- The write of an active channel: what is there is written whatever the code of the fragment.
unfoldable pub write_pending : Answers → Code → Conn → Ran
write_pending a ret c = if ltb 0 (length c.chan.wbuf.bytes) then write_channel a c else ran ret c

unfoldable pub write_active : Answers → Conn → Ran
write_active a c = followed_by (fragment_on_empty c) (write_pending a)

-- Whether one of the sockets is ready; that of the direct connection counts where it is active.
abbrev pub either_ready : Bool → Bool → Conn → Ran → Ran → Ran
either_ready ready direct_ready c work rest =
    if ready
    then work
    else if is_direct_active c.chan.directc2c_state
    then (if not (has_direct c.chan.direct) then crashed else if direct_ready then work else rest)
    else rest

unfoldable pub read_active : Trust → Answers → Code → Conn → Ran
read_active t a ret c =
    if is_ok ret
    then either_ready a.readable a.direct_readable c (read_channel t a c) (ran ret c)
    else ran ret c

unfoldable pub process_active : Trust → Answers → Conn → Ran
process_active t a c =
    followed_by (either_ready a.writable a.direct_writable c (write_active a c) (ran pica_ok c))
      (read_active t a)

-- The `switch` of `process_c2c`.
unfoldable pub process_state : Trust → Answers → C2cState → Conn → Ran
process_state t a c2c_new c = ran pica_ok c
process_state t a c2c_connecting c = when_ready a.writable (process_connecting a) c
process_state t a c2c_waitinganontls c =
    when_ready (any_ready a) (process_waitinganontls a.handshake) c
process_state t a c2c_connid c = process_connid a c
process_state t a c2c_waitinganontlsshutdown c =
    when_ready (any_ready a) (process_anontlsshutdown a a.handshake) c
process_state t a c2c_waitingtls c = when_ready (any_ready a) (process_waitingtls t a a.handshake) c
process_state t a c2c_waitingrep c = process_waitingrep t a c
process_state t a c2c_waitingc2cprotover c = process_waitingrep t a c
process_state t a c2c_active c = process_active t a c

abbrev pub c2c_activate_timeout : ℕ
c2c_activate_timeout = 30

-- The end of `process_c2c`: the timeout, and what the application is told of an error.
unfoldable pub timed : Answers → Code → Conn → Code
timed a ret c =
    if not (is_active c.chan.state) && ltb c2c_activate_timeout (a.now - c.timestamp)
    then errtimedout
    else ret

abbrev pub tell : Code → Conn → Conn
tell ret c =
    if is_ok ret
    then c
    else if ltb 0 (state_value c.chan.state) && ltb (state_value c.chan.state) 8
    then record c { notices = c.notices ++ (c2c_failed_cb c.peer_id ∷ []) }
    else record c { notices = c.notices ++ (c2c_closed_cb c.peer_id ret ∷ []) }

unfoldable pub conclude : Answers → Code → Conn → Ran
unfolding timed
conclude a ret c = let ret' = timed a ret c in ran ret' (tell ret' c)

unfoldable pub process_c2c : Trust → Answers → Conn → Ran
process_c2c t a c = followed_by (process_state t a c.chan.state c) (conclude a)
