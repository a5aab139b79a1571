-- ===== src/Node/LinkStates.antt =====
-- PICA_node.c: the states of a link between clients, and what changes them.
-- `cclink_allocbufs`, `cclink_setwaitanontlsshutdown` and `cclink_sendcleconnected`, with the numbers
-- that PICA_node.h gives to the states.
pub mod Order
pub mod Buffers
pub mod Dangling
use pica_pica.Common.{
  ℕ, List, [], ◌∷◌, ◌++◌, Bool, true, false, ◌&&◌, ◌||◌, Option, none, some, ◌==◌, if◌then◌else◌,
}
use pica_pica.Node.Wbuf.{default_buf_size}
use pica_pica.Node.CcLinks.{cclink_list_delete, cclink_activate, is_waitsearch, waitconn, activate}
use pica_pica.Proto.{found, n2nallow}
use pica_pica.Node.State.{
  CcState, cc_new, local_waitrep, local_waitconncle, local_waitconncleanontlsshutdown,
  local_waitconnclr, local_waitconnclranontlsshutdown, local_active, n2nclr_waitsearch,
  n2nclr_waitrep, n2nclr_waitconnclr, n2nclr_waitconnclranontlsshutdown, n2nclr_active,
  n2ncle_waitrep, n2ncle_waitconncle, n2ncle_waitconncleanontlsshutdown, n2ncle_active, Relay,
  CcLink, NewConn, nc_waitanontlsshutdown, Node, M, done, exited, fault, ◌>>=◌, ◌>>◌, return, when,
  read_cclink, update_cclink, alloc, push_client, push_nodelink,
}

unfoldable pub state_number : CcState → ℕ
state_number cc_new = 0
state_number local_waitrep = 1
state_number local_waitconncle = 2
state_number local_waitconncleanontlsshutdown = 3
state_number local_waitconnclr = 4
state_number local_waitconnclranontlsshutdown = 5
state_number local_active = 6
state_number n2nclr_waitsearch = 7
state_number n2nclr_waitrep = 8
state_number n2nclr_waitconnclr = 9
state_number n2nclr_waitconnclranontlsshutdown = 10
state_number n2nclr_active = 11
state_number n2ncle_waitrep = 12
state_number n2ncle_waitconncle = 13
state_number n2ncle_waitconncleanontlsshutdown = 14
state_number n2ncle_active = 15

-- The state that `cclink_setwaitanontlsshutdown` leaves where the buffers are allocated.
unfoldable pub waitanontlsshutdown : CcState → CcState
waitanontlsshutdown local_waitconncle = local_waitconncleanontlsshutdown
waitanontlsshutdown local_waitconnclr = local_waitconnclranontlsshutdown
waitanontlsshutdown n2nclr_waitconnclr = n2nclr_waitconnclranontlsshutdown
waitanontlsshutdown n2ncle_waitconncle = n2ncle_waitconncleanontlsshutdown
waitanontlsshutdown s = s

-- `buf_p1p2` or `buf_p2p1`: null, the address of a buffer, or the address of one that was freed.
pub data BufPtr : Type 0 where
  null_buf live freed : BufPtr

-- `malloc(DEFAULT_BUF_SIZE)`.
abbrev pub alloc_buf : M BufPtr
alloc_buf = do answer ← alloc; return (if answer then live else null_buf)

-- `if (p) free(p);`, with what `p` is then.
abbrev pub free_buf : BufPtr → M BufPtr
free_buf null_buf n = done null_buf n
free_buf live n = done freed n
free_buf freed n = fault

abbrev pub grown : Relay → Relay
grown r = record r { buflen = default_buf_size }

abbrev is_null : BufPtr → Bool
is_null null_buf = true
is_null _ = false

-- The answer, and the two pointers as they are then.
unfoldable pub cclink_allocbufs : ℕ → M (Bool × BufPtr × BufPtr)
cclink_allocbufs l = do
  p1p2 ← alloc_buf
  p2p1 ← alloc_buf
  when (is_null p1p2 || is_null p2p1)
      (do p1p2' ← free_buf p1p2; p2p1' ← free_buf p2p1; return (false, p1p2', p2p1'))
      (do
        update_cclink (some l) (λ c. record c { p1p2 = grown c.p1p2; p2p1 = grown c.p2p1 })
        return (true, p1p2, p2p1))

-- `cclink_list_delete` of a link with the two pointers.
unfoldable pub delete_with : ℕ → BufPtr → BufPtr → M (Unit {0})
delete_with l p1p2 p2p1 = do free_buf p1p2; free_buf p2p1; cclink_list_delete l

unfoldable pub alloc_and_wait : ℕ → CcState → M (Unit {0})
alloc_and_wait l next = do
  (answer, p1p2, p2p1) ← cclink_allocbufs l
  when answer (update_cclink (some l) (λ c. record c { state = next })) (delete_with l p1p2 p2p1)

-- The cases of the `switch`, by the state of the link.
unfoldable pub wait_by_state : ℕ → ℕ → CcState → M (Unit {0})
wait_by_state l sck local_waitconncle =
    update_cclink (some l)
      (λ c. record c { sck_p2 = some sck; state = local_waitconncleanontlsshutdown })
wait_by_state l sck local_waitconnclr = do
  update_cclink (some l) (λ c. record c { sck_p1 = some sck })
  alloc_and_wait l local_waitconnclranontlsshutdown
wait_by_state l sck n2nclr_waitconnclr = do
  update_cclink (some l) (λ c. record c { sck_p1 = some sck })
  alloc_and_wait l n2nclr_waitconnclranontlsshutdown
wait_by_state l sck n2ncle_waitconncle = do
  update_cclink (some l) (λ c. record c { sck_p2 = some sck })
  alloc_and_wait l n2ncle_waitconncleanontlsshutdown
wait_by_state l sck _ = return tt

-- It returns the new connection as it leaves it.
unfoldable pub cclink_setwaitanontlsshutdown : ℕ → NewConn → M NewConn
cclink_setwaitanontlsshutdown l nc = do
  link ← read_cclink (some l)
  wait_by_state l nc.sck link.state
  return (record nc { iconn = some l; state = nc_waitanontlsshutdown })

-- The messages of `cclink_sendcleconnected`, by the state of the link; a link is deleted where its
-- message can not be pushed.
unfoldable pub send_connected : CcState → CcLink → M (Unit {0})
send_connected local_waitconncleanontlsshutdown l = do
  pushed ← push_client l.p1 found l.callee_id
  when pushed (return tt) (cclink_list_delete l.ptr)
send_connected n2ncle_waitconncleanontlsshutdown l = do
  pushed ← push_nodelink l.caller_node n2nallow (l.caller_id ++ l.callee_id)
  when pushed (return tt) (cclink_list_delete l.ptr)
send_connected _ l = return tt

unfoldable pub cclink_sendcleconnected : Option ℕ → M (Unit {0})
cclink_sendcleconnected l = do link ← read_cclink l; send_connected link.state link

-- What `process_newconn_read` does with the link of a new connection, once the anonymous TLS session
-- has been shut down.
unfoldable pub anontls_shut : NewConn → M (Unit {0})
anontls_shut nc = do cclink_sendcleconnected nc.iconn; cclink_activate nc.iconn
