-- ===== src/C2n/Requests.antt =====
-- PICA_client.c: channels that the application asks for and that the node reports, `PICA_new_c2c` and
-- the handlers of NOTFOUND, FOUND, CONNREQINC, INITRESPOK and VERDIFFER. What the system and the
-- application answer is an input: the address that calloc gives, the answers of connect and OpenSSL,
-- and those of SSL_write to the loop that waits for the output buffer to be empty.
pub mod Last
pub mod Answered
pub mod Incoming
use pica_pica.Common.{
  ℕ, zero, suc, List, [], ◌∷◌, ◌++◌, Bool, true, false, not, Option, none, some, ◌==◌,
  if◌then◌else◌, length, take,
}
use pica_pica.Proto.{connreqoutg, connallow, conndeny, initrespok, verdiffer}
use pica_pica.Msgproc.Defs.{byte}
use pica_pica.Node.Ids.{id_eq, first_id}
use pica_pica.Node.Wbuf.{Wbuf, wbuf_push, malloc}
use pica_pica.C2c.State.{Code, pica_ok, errinvarg, errnomem, is_ok}
use pica_pica.C2c.Write.{SslAnswer, write_ssl, ret_ok}
use pica_pica.C2c.Handshake.{Answers, ConnectRet, ran, crashed, ended, c2c_start}
use pica_pica.C2c.Handshake.Establish.{Client, c2n_alloc_c2c}
use pica_pica.C2n.Channels.{Channels, update, and_then, close_c2c, link_channel}

-- `enum PICA_c2n_state`.
pub data C2nState : Type 0 where
  c2n_new c2n_connecting c2n_waitinganontls c2n_waitingrep c2n_waitinganontlsshutdown : C2nState
  c2n_waitingtls c2n_connected : C2nState

-- The calls of `accept_cb`, `notfound_cb` and `c2c_failed_cb`.
pub data NodeCallback : Type 0 where
  asked_accept was_notfound was_failed : List ℕ → NodeCallback

-- `struct PICA_c2n`, less what no function here uses. `init_resp_ok` is none for 0, and whether it is 1
-- otherwise; `sent` are the bytes that the node has been sent.
pub record NodeConn : Type 0 where
  pub state : C2nState
  pub own : Client
  pub list : Channels
  pub wbuf : Wbuf
  pub sslbytestowrite : ℕ
  pub init_resp_ok : Option Bool
  pub node_ver_major : ℕ
  pub node_ver_minor : ℕ
  pub sent : List ℕ
  pub told : List NodeCallback
  pub mem : List Bool

-- A function returns, uses memory that it must not, or has not come to its end when the answers of
-- SSL_write are used up.
pub data Handled (A : Type 0) : Type 0 where
  handled : A → NodeConn → Handled A
  broken spinning : Handled A

abbrev pub and_next : {A B : Type 0} → Handled A → (A → NodeConn → Handled B) → Handled B
and_next (handled a s) k = k a s
and_next broken k = broken
and_next spinning k = spinning

abbrev pub connwritebufsize : ℕ
connwritebufsize = 4096

-- `c2n_writebuf_push`, with the tail that the caller fills in.
unfoldable pub c2n_writebuf_push : ℕ → List ℕ → NodeConn → Handled Bool
c2n_writebuf_push msgid tail s =
    let (pushed, w, mem') = wbuf_push connwritebufsize s.wbuf msgid tail s.mem in
    handled pushed (record s { wbuf = w; mem = mem' })

abbrev pub put_list : {A : Type 0} → A → Option Channels → NodeConn → Handled A
put_list a none s = broken
put_list a (some l) s = handled a (record s { list = l })

-- `c2n_alloc_c2c`; whether the receive buffer could be allocated is not looked at.
unfoldable pub alloc_channel : ℕ → List ℕ → Bool → ℕ → NodeConn → Handled Bool
unfolding malloc
alloc_channel p peer is_outgoing now s =
    let (got, mem') = malloc s.mem in
    let (got_buf, mem'') = malloc mem' in
    if not got
    then handled false (record s { mem = mem' })
    else put_list true (link_channel p (c2n_alloc_c2c s.own peer is_outgoing now) s.list)
        (record s { mem = mem'' })

abbrev pub is_connected : C2nState → Bool
is_connected c2n_connected = true
is_connected _ = false

-- `PICA_new_c2c`, where the pointers that it is given are not null.
unfoldable pub new_c2c : ℕ → ℕ → List ℕ → NodeConn → Handled Code
unfolding alloc_channel c2n_writebuf_push
new_c2c p now peer s =
    if not (is_connected s.state)
    then handled errinvarg s
    else and_next (alloc_channel p peer true now s) (λ got s'.
      if not got
      then handled errnomem s'
      else and_next (c2n_writebuf_push connreqoutg peer s')
          (λ pushed s''. handled (if pushed then pica_ok else errnomem) s''))

-- The loop from the end of the list to the last channel for a peer.
unfoldable pub last_for : ℕ → List ℕ → Option ℕ → Channels → Option (Option ℕ)
last_for fuel id none l = some none
last_for zero id (some p) l = none
last_for (suc fuel) id (some p) l = and_then (l.cells p) (λ c.
    let rest = last_for fuel id c.prev l in if id_eq c.conn.peer_id id then some (some p) else rest)

-- The channel that is found goes to `k`; where there is none, the handler returns 0.
unfoldable pub with_last : ℕ → List ℕ → (ℕ → NodeConn → Handled ℕ) → NodeConn → Handled ℕ
with_last fuel id k s = elim (last_for fuel id s.list.chan_list_end s.list) [
  | none ↦ broken
  | some none ↦ handled 0 s
  | some (some p) ↦ k p s
]

unfoldable pub close_notfound : ℕ → List ℕ → ℕ → NodeConn → Handled ℕ
close_notfound fuel id p s =
    and_next (put_list tt (close_c2c fuel p s.list) s)
      (λ _ s'. handled 1 (record s' { told = s'.told ++ (was_notfound id ∷ []) }))

unfoldable pub procmsg_notfound : ℕ → List ℕ → NodeConn → Handled ℕ
unfolding with_last close_notfound
procmsg_notfound fuel buf s = with_last fuel (first_id buf) (close_notfound fuel (first_id buf)) s

-- `c2c_start` on a channel of the list, which closes it where it fails.
unfoldable pub start_channel : ℕ → Answers → ConnectRet → ℕ → NodeConn → Handled Code
start_channel fuel a r p s = elim (s.list.cells p) [
  | none ↦ broken
  | some c ↦ elim (c2c_start a r c.conn) [
    | ran ret c' ↦
        (let l = record s.list { cells = update p (some (record c { conn = c' })) s.list.cells } in
          if is_ok ret
          then handled ret (record s { list = l })
          else put_list ret (close_c2c fuel p l)
              (record s { told = s.told ++ (was_failed c.conn.peer_id ∷ []) }))
    | crashed ↦ broken
    | ended ↦ broken
  ]
]

unfoldable pub start_found : ℕ → Answers → ConnectRet → ℕ → NodeConn → Handled ℕ
start_found fuel a r p s =
    and_next (start_channel fuel a r p s) (λ ret s'. handled (if is_ok ret then 1 else 0) s')

unfoldable pub procmsg_found : ℕ → Answers → ConnectRet → List ℕ → NodeConn → Handled ℕ
unfolding with_last start_found
procmsg_found fuel a r buf s = with_last fuel (first_id buf) (start_found fuel a r) s

-- `PICA_write_c2n`; no function sets the flag that makes it close the connection.
unfoldable pub write_c2n : SslAnswer → NodeConn → Handled Code
write_c2n answer s =
    let r = write_ssl answer s.wbuf.bytes (length s.wbuf.bytes) s.sslbytestowrite in
    handled r.ret (record s {
      wbuf = record s.wbuf { bytes = take r.pos r.after };
      sslbytestowrite = r.btw;
      sent = s.sent ++ r.taken;
    })

-- The loop of `procmsg_CONNREQINC` that writes until the buffer is empty; whether it has succeeded.
unfoldable pub write_all : List SslAnswer → NodeConn → Handled Bool
write_all [] s = spinning
write_all (answer ∷ answers) s = and_next (write_c2n answer s) (λ ret s'.
    let rest = write_all answers s' in
    if not (ret_ok ret)
    then handled false s'
    else if length s'.wbuf.bytes == 0
    then handled true s'
    else rest)

-- What `procmsg_CONNREQINC` does where the application accepts the caller.
unfoldable pub accept_caller :
    ℕ → ℕ → ℕ → Answers → ConnectRet → List SslAnswer → List ℕ → NodeConn → Handled ℕ
unfolding alloc_channel c2n_writebuf_push
accept_caller fuel p now a r answers peer s =
    and_next (c2n_writebuf_push connallow peer s) (λ pushed s1.
      if not pushed
      then handled 0 s1
      else and_next (alloc_channel p peer false now s1) (λ got s2.
        if not got
        then handled 0 s2
        else and_next (write_all answers s2) (λ written s3.
          if not written
          then handled 0 s3
          else and_next (start_channel fuel a r p s3) (λ ret s4. handled 1 s4))))

unfoldable pub procmsg_connreqinc :
    Bool → ℕ → ℕ → ℕ → Answers → ConnectRet → List SslAnswer → List ℕ → NodeConn → Handled ℕ
unfolding accept_caller
procmsg_connreqinc accepted fuel p now a r answers buf s =
    let s' = record s { told = s.told ++ (asked_accept (first_id buf) ∷ []) } in
    if accepted
    then accept_caller fuel p now a r answers (first_id buf) s'
    else and_next (c2n_writebuf_push conndeny (first_id buf) s')
        (λ pushed s''. handled (if pushed then 1 else 0) s'')

abbrev pub is_c2n_waitingrep : C2nState → Bool
is_c2n_waitingrep c2n_waitingrep = true
is_c2n_waitingrep _ = false

unfoldable pub procmsg_initresp : List ℕ → NodeConn → Handled ℕ
procmsg_initresp buf s =
    if not (is_c2n_waitingrep s.state)
    then handled 0 s
    else if byte buf 0 == initrespok
    then handled 1 (record s { init_resp_ok = some true })
    else if byte buf 0 == verdiffer
    then handled 1 (record s {
      init_resp_ok = some false;
      node_ver_major = byte buf 2;
      node_ver_minor = byte buf 3;
    })
    else handled 0 s
