-- ===== src/C2c/Handshake.antt =====
-- PICA_client.c: how a channel between two clients is set up, `c2c_start` and the stages that follow
-- it, up to the first message of the protocol between the clients. What the system and OpenSSL answer
-- in one round of the event loop is an input. Of a certificate the model has what OpenSSL tells of it:
-- the length of its RSA key, where it has one, and its two encodings.
pub mod Io
pub mod Process
pub mod Safety
pub mod Establish
pub mod Verified
use pica_pica.Common.{
  ℕ, ◌+◌, ◌-◌, List, [], ◌∷◌, ◌++◌, Bool, true, false, ◌&&◌, ◌||◌, not, Option, none, some, ◌==◌,
  ltb, leb, if◌then◌else◌, length, take,
}
use pica_pica.Proto.{connid}
use pica_pica.Proto.C2c.{c2cconnreq}
use pica_pica.Node.Ids.{id_eq}
use pica_pica.C2c.State.{
  C2cState, c2c_new, c2c_connecting, c2c_waitinganontls, c2c_connid, c2c_waitinganontlsshutdown,
  c2c_waitingtls, c2c_waitingrep, c2c_waitingc2cprotover, c2c_active, Code, pica_ok, errnomem,
  errssl, errsock, errdisconnect, errnopeercert, errinvpeercert, one_returned, is_ok, Chan, M, done,
  fault, c2c_writebuf_push,
}
use pica_pica.C2c.Messages.{Decision}
use pica_pica.C2c.Direct.{c2cproto_ver_high, c2cproto_ver_low}
use pica_pica.C2c.Write.{SslAnswer}

-- The values of `enum PICA_c2c_state`.
abbrev pub state_value : C2cState → ℕ
state_value c2c_new = 0
state_value c2c_connecting = 1
state_value c2c_waitinganontls = 2
state_value c2c_connid = 3
state_value c2c_waitinganontlsshutdown = 4
state_value c2c_waitingtls = 5
state_value c2c_waitingrep = 6
state_value c2c_waitingc2cprotover = 7
state_value c2c_active = 8

pub record Cert : Type 0 where
  pub rsa_bits : Option ℕ
  pub der : List ℕ
  pub pem : List ℕ

-- What the checks of a certificate call: SHA224, and `peer_cert_verify_cb` of the application with the
-- id of the peer and the certificate, and the application's answer to a file.
pub record Trust : Type 0 where
  pub sha224 : List ℕ → List ℕ
  pub peer_cert_verify : List ℕ → List ℕ → Bool
  pub decide : ℕ → List ℕ → Decision

-- The calls of `c2c_failed_cb` and `c2c_closed_cb`.
pub data Notice : Type 0 where
  c2c_failed_cb : List ℕ → Notice
  c2c_closed_cb : List ℕ → Code → Notice

-- The fields of `struct PICA_c2c` that `Chan` does not have, and the id of the account. `relay` and
-- `direct_sent` are the bytes that the two connections have taken.
pub record Conn : Type 0 where
  pub chan : Chan
  pub acc_id : List ℕ
  pub peer_id : List ℕ
  pub timestamp : ℕ
  pub want_write : Bool
  pub peer_cert : Option Cert
  pub read_buf : List ℕ
  pub sslbytestowrite : ℕ
  pub barrier_pos : ℕ
  pub before_barrier_pos : ℕ
  pub switched_to_directc2c_write : Bool
  pub relay : List ℕ
  pub direct_sent : List ℕ
  pub notices : List Notice
  pub freed : Bool

-- What a call of SSL_connect, SSL_accept or SSL_shutdown answers: 1, 0, or a negative number with what
-- SSL_get_error says then.
pub data SslRet : Type 0 where
  ssl_one ssl_zero ssl_want_read ssl_want_write ssl_error : SslRet

-- `connect`: it is done, under way (`EINPROGRESS` or `EINTR`), or has failed.
pub data ConnectRet : Type 0 where
  connect_done connect_under_way connect_error : ConnectRet

-- `SSL_read`: some bytes, none yet, or an error.
pub data SslRead : Type 0 where
  read_bytes : List ℕ → SslRead
  read_again read_error : SslRead

-- One round: which sockets are ready, what `getsockopt` says of the connection, the answers of the call
-- that the state makes and of the one that the next stage makes, and the time.
pub record Answers : Type 0 where
  pub readable : Bool
  pub writable : Bool
  pub direct_readable : Bool
  pub direct_writable : Bool
  pub connects : Bool
  pub handshake : SslRet
  pub ssl_new : Bool
  pub ssl_set_fd : Bool
  pub next : SslRet
  pub cert : Option Cert
  pub written : SslAnswer
  pub read : SslRead
  pub now : ℕ

-- A function returns a code, uses memory that it must not, or ends the process.
pub data Ran : Type 0 where
  ran : Code → Conn → Ran
  crashed ended : Ran

abbrev pub on_channel : M Code → Conn → Ran
on_channel m c = elim (m c.chan) [
  | done ret ch ↦ ran ret (record c { chan = ch })
  | fault ↦ crashed
]

abbrev pub set_state : C2cState → Conn → Conn
set_state s c = record c { chan = record c.chan { state = s } }

-- `process_async_ssl_errors`, without a `want_read`: the code, and whether `want_write` is set.
unfoldable pub process_async_ssl_errors : SslRet → Code × Bool
process_async_ssl_errors ssl_one = (pica_ok, false)
process_async_ssl_errors ssl_zero = (errdisconnect, false)
process_async_ssl_errors ssl_want_read = (pica_ok, false)
process_async_ssl_errors ssl_want_write = (pica_ok, true)
process_async_ssl_errors ssl_error = (errssl, false)

abbrev pub wants : Bool → Conn → Conn
wants more c = record c { want_write = more || c.want_write }

-- `process_first_async_connect_result`.
unfoldable pub process_first_async_connect_result : ConnectRet → Code
process_first_async_connect_result connect_error = errsock
process_first_async_connect_result _ = pica_ok

-- `check_async_connect_result`.
unfoldable pub check_async_connect_result : Bool → Code
check_async_connect_result connected = if connected then pica_ok else errsock

-- The codes of SSL_new and SSL_set_fd.
abbrev pub got_ssl : Answers → Bool
got_ssl a = a.ssl_new && a.ssl_set_fd

-- The end of a stage: the next state where the code is `PICA_OK`.
abbrev pub enter : C2cState → Code × Bool → Conn → Ran
enter s (ret, more) c =
    if is_ok ret then ran ret (set_state s (wants more c)) else ran ret (wants more c)

unfoldable pub c2c_stage2_startanontls : Answers → Conn → Ran
unfolding process_async_ssl_errors
c2c_stage2_startanontls a c =
    if not (got_ssl a)
    then ran errssl c
    else enter c2c_waitinganontls (process_async_ssl_errors a.next) c

-- The message CONNID: the id of the caller and that of the callee.
unfoldable pub connid_tail : Conn → List ℕ
connid_tail c = if c.chan.outgoing then c.acc_id ++ c.peer_id else c.peer_id ++ c.acc_id

-- A message, and the state that follows it.
unfoldable pub push_and_enter : ℕ → List ℕ → C2cState → M Code
push_and_enter msgid tail s c = elim (c2c_writebuf_push msgid tail c) [
  | done pushed c' ↦ if pushed then done pica_ok (record c' { state = s }) else done errnomem c'
  | fault ↦ fault
]

unfoldable pub c2c_stage3_connid : Conn → Ran
unfolding push_and_enter connid_tail
c2c_stage3_connid c = on_channel (push_and_enter connid (connid_tail c) c2c_connid) c

-- `ret` is what SSL_shutdown answers where that is not negative, and `PICA_OK` is 0.
unfoldable pub c2c_stage4_shutdownanontls : Answers → Conn → Ran
c2c_stage4_shutdownanontls a c = elim a.next [
  | ssl_one ↦ ran one_returned c
  | ssl_zero ↦ ran pica_ok (set_state c2c_waitinganontlsshutdown c)
  | ssl_want_read ↦ ran pica_ok (set_state c2c_waitinganontlsshutdown c)
  | ssl_want_write ↦ ran pica_ok (set_state c2c_waitinganontlsshutdown (wants true c))
  | ssl_error ↦ ran errssl c
]

unfoldable pub c2c_stage5_starttls : Answers → Conn → Ran
c2c_stage5_starttls a c = if not (got_ssl a) then ran errssl c else elim a.next [
  | ssl_one ↦ ran pica_ok (set_state c2c_waitingtls c)
  | ssl_zero ↦ ran errssl c
  | ssl_want_read ↦ ran pica_ok (set_state c2c_waitingtls c)
  | ssl_want_write ↦ ran pica_ok (set_state c2c_waitingtls c)
  | ssl_error ↦ ran errssl c
]

abbrev pub rsa_minkeysize : ℕ
rsa_minkeysize = 4096

abbrev pub long_enough : Option ℕ → Bool
long_enough none = false
long_enough (some bits) = leb rsa_minkeysize bits

-- `PICA_id_from_X509`.
unfoldable pub id_from_x509 : Trust → Cert → Option (List ℕ)
id_from_x509 t x = if length x.der == 0 then none else some (t.sha224 x.der)

-- `verify_peer_cert_common`, of the certificate that SSL_get_peer_certificate gives.
unfoldable pub verify_peer_cert_common : Trust → Option Cert → List ℕ → Code
unfolding id_from_x509
verify_peer_cert_common t none peer_id = errnopeercert
verify_peer_cert_common t (some x) peer_id =
    if not (long_enough x.rsa_bits) then errnopeercert else elim (id_from_x509 t x) [
      | none ↦ errnopeercert
      | some id ↦
          if not (id_eq id peer_id)
          then errinvpeercert
          else if not (t.peer_cert_verify peer_id x.pem)
          then errinvpeercert
          else pica_ok
    ]

unfoldable pub c2c_verify_peer_cert : Trust → Answers → Conn → Code × Conn
unfolding verify_peer_cert_common
c2c_verify_peer_cert t a c =
    (verify_peer_cert_common t a.cert c.peer_id, record c { peer_cert = a.cert })

unfoldable pub c2c_stage6_sendc2cconnreq : Conn → Ran
unfolding push_and_enter
c2c_stage6_sendc2cconnreq c =
    on_channel
      (push_and_enter c2cconnreq (c2cproto_ver_high ∷ c2cproto_ver_low ∷ []) c2c_waitingrep) c

-- The end of `c2c_start` where it fails.
abbrev pub start_failed : Code → Conn → Ran
start_failed ret c =
    ran ret (record c { notices = c.notices ++ (c2c_failed_cb c.peer_id ∷ []); freed = true })

abbrev pub checked_start : Ran → Ran
checked_start (ran ret c) = if is_ok ret then ran ret c else start_failed ret c
checked_start crashed = crashed
checked_start ended = ended

unfoldable pub c2c_start : Answers → ConnectRet → Conn → Ran
unfolding c2c_stage2_startanontls process_first_async_connect_result
c2c_start a connect_done c = checked_start (c2c_stage2_startanontls a (set_state c2c_connecting c))
c2c_start a connected c =
    checked_start (ran (process_first_async_connect_result connected) (set_state c2c_connecting c))
