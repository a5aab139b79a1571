-- ===== src/C2c/State.antt =====
-- PICA_client.h and PICA_client.c: the state of a channel between two clients, `struct PICA_c2c`, and
-- the calls that its functions make of the system. A stream is the bytes that are still to be read, or
-- that were written, and a null pointer is `none`; a file that is closed goes to `closed_files`. What
-- the system answers is an input: whether an allocation, an opening or a write succeeds, as lists of
-- the next answers (past a list every call succeeds), and how many bytes a read gives at most. A
-- computation is at fault where it uses a null pointer or reads past a message.
use pica_pica.Common.{
  ℕ, ◌%◌, List, [], ◌∷◌, ◌++◌, Bool, true, false, Option, none, some, ◌==◌, if◌then◌else◌, length,
  take, drop, min,
}
use pica_pica.Node.Wbuf.{Wbuf, wbuf_push, malloc}

-- `enum PICA_c2c_state`.
pub data C2cState : Type 0 where
  c2c_new c2c_connecting c2c_waitinganontls c2c_connid c2c_waitinganontlsshutdown : C2cState
  c2c_waitingtls c2c_waitingrep c2c_waitingc2cprotover c2c_active : C2cState

-- `PICA_CHANSENDFILESTATE_…`.
pub data SendFileState : Type 0 where
  send_idle send_sentreq send_sending send_paused : SendFileState

-- `PICA_CHANRECVFILESTATE_…`.
pub data RecvFileState : Type 0 where
  recv_idle recv_receiving recv_paused recv_waitaccept : RecvFileState

-- The return codes `PICA_OK` and `PICA_ERR…` of the functions here, and the number 1.
pub data Code : Type 0 where
  pica_ok errinvarg errnomem errmsgsize errinvfilename errfiletransferinprogress : Code
  errfiletransfernotinprogress errfilefragmentcrossedsize errfileopen errfileio errssl errserv
        errnotfound errsock errdisconnect errnopeercert errinvpeercert errtimedout one_returned :
      Code

abbrev pub is_ok : Code → Bool
is_ok pica_ok = true
is_ok _ = false

-- The calls of `callbacks`, with what they are told.
pub data Callback : Type 0 where
  newmsg_cb : List ℕ → ℕ → Callback
  msgok_cb accepted_file_cb denied_file_cb c2c_established_cb : Callback
  accept_file_cb : ℕ → List ℕ → Callback
  file_progress_cb : ℕ → ℕ → Callback
  file_finished_cb : Bool → Callback
  file_control_cb : ℕ → ℕ → Callback

-- `enum PICA_directc2c_state`.
pub data DirectState : Type 0 where
  direct_inactive direct_connecting direct_failedtoconnect direct_waitingincoming : DirectState
  direct_active : DirectState

-- `enum PICA_directc2c_connection_state`.
pub data DirectConnState : Type 0 where
  conn_new conn_connecting conn_waitingtls conn_active conn_failed : DirectConnState

-- `enum PICA_directc2c_config`.
pub data DirectConfig : Type 0 where
  cfg_disabled cfg_connectonly cfg_allowincoming : DirectConfig

-- `sin_addr.s_addr` and `sin_port` of a `struct sockaddr_in`, as the host reads them from memory.
pub record SockAddr : Type 0 where
  pub s_addr : ℕ
  pub sin_port : ℕ

-- `struct PICA_directc2c`; `addr` is where it was last connected to.
pub record Direct : Type 0 where
  pub is_outgoing : Bool
  pub conn_state : DirectConnState
  pub addrlist : Option (List ℕ)
  pub addrpos : ℕ
  pub addr : SockAddr

-- `struct PICA_listener`: the address that it has for the Internet, as `inet_addr` gives it, and the
-- port as a number of the host.
pub record Listener : Type 0 where
  pub public_addr_ipv4 : ℕ
  pub public_port : ℕ

-- `directc2c_config` and `listener` are those of the connection to the node, `conn`.
pub record Chan : Type 0 where
  pub state : C2cState
  pub outgoing : Bool
  pub wbuf : Wbuf
  pub sendfilestate : SendFileState
  pub sendfile_size : ℕ
  pub sendfile_pos : ℕ
  pub sendfile_stream : Option (List ℕ)
  pub recvfilestate : RecvFileState
  pub recvfile_size : ℕ
  pub recvfile_pos : ℕ
  pub recvfile_stream : Option (List ℕ)
  pub disconnect_on_empty_write_buf : Bool
  pub directc2c_state : DirectState
  pub direct : Option Direct
  pub switched_to_directc2c_read : Bool
  pub directc2c_config : DirectConfig
  pub listener : Option Listener
  pub called : List Callback
  pub opened : List (List ℕ)
  pub closed_files : List (List ℕ)
  pub random : List ℕ
  pub mem : List Bool
  pub opens : List Bool
  pub connects : List Bool
  pub writes : List Bool
  pub reads : List ℕ

pub data Res (A : Type 0) : Type 0 where
  done : A → Chan → Res A
  fault : Res A

abbrev pub M : Type 0 → Type 0
M A = Chan → Res A

infixl 5 ◌>>=◌ ◌>>◌
abbrev pub ◌>>=◌ : {A B : Type 0} → M A → (A → M B) → M B
◌>>=◌ m f c = elim (m c) [ done a c' ↦ f a c' | fault ↦ fault ]

abbrev pub ◌>>◌ : {A B : Type 0} → M A → M B → M B
m >> k = m >>= λ _. k

abbrev pub return : {A : Type 0} → A → M A
return a c = done a c

abbrev pub get : M Chan
get c = done c c

abbrev pub modify : (Chan → Chan) → M (Unit {0})
modify f c = done tt (f c)

abbrev pub when : {A : Type 0} → Bool → M A → M A → M A
when true a b = a
when false a b = b

abbrev pub crash : {A : Type 0} → M A
crash c = fault

-- `uint64_t`.
abbrev pub u64 : ℕ → ℕ
u64 n = n % 18446744073709551616

abbrev pub callback : Callback → M (Unit {0})
callback e = modify (λ c. record c { called = c.called ++ (e ∷ []) })

abbrev pub chanwritebufsize : ℕ
chanwritebufsize = 4096

-- `c2c_writebuf_push`, with the tail that the caller fills in.
unfoldable pub c2c_writebuf_push : ℕ → List ℕ → M Bool
unfolding wbuf_push
c2c_writebuf_push msgid tail c =
    let (pushed, w, mem') = wbuf_push chanwritebufsize c.wbuf msgid tail c.mem in
    done pushed (record c { wbuf = w; mem = mem' })

-- `fclose` of one of the streams, and the assignment of a null pointer.
unfoldable pub close_send : M (Unit {0})
close_send c = elim c.sendfile_stream [
  | none ↦ fault
  | some bytes ↦ done tt (record c { sendfile_stream = none })
]

unfoldable pub close_recv : M (Unit {0})
close_recv c = elim c.recvfile_stream [
  | none ↦ fault
  | some bytes ↦
      done tt (record c { recvfile_stream = none; closed_files = c.closed_files ++ (bytes ∷ []) })
]

-- The most bytes that the next read gives.
abbrev pub read_limit : ℕ → List ℕ → ℕ
read_limit n [] = n
read_limit n (most ∷ reads) = min most n

-- `fread(buf, 1, n, sendfile_stream)`.
unfoldable pub fread : ℕ → M (List ℕ)
fread n c = elim c.sendfile_stream [
  | none ↦ fault
  | some bytes ↦
      (let got = read_limit n c.reads in
        done (take got bytes)
          (record c { sendfile_stream = some (drop got bytes); reads = drop 1 c.reads }))
]

-- `fwrite(bytes, length, 1, recvfile_stream) == 1`; of no bytes nothing is written.
unfoldable pub fwrite : List ℕ → M Bool
unfolding malloc
fwrite bytes c = elim c.recvfile_stream [
  | none ↦ fault
  | some written ↦
      (let (answer, writes') = malloc c.writes in
        if length bytes == 0
        then done false c
        else if answer
        then done true (record c { recvfile_stream = some (written ++ bytes); writes = writes' })
        else done false (record c { writes = writes' }))
]
