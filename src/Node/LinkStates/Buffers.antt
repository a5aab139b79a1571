-- ===== src/Node/LinkStates/Buffers.antt =====
-- PICA_node.c: `cclink_setwaitanontlsshutdown` where memory runs out.
use pica_pica.Common.{ℕ, ◌≡◌, ◌≢◌, refl, List, ◌∷◌, Bool, true, false, some, arith}
use pica_pica.Common.Store.{find}
use pica_pica.Node.Wbuf.{malloc}
use pica_pica.Node.LinkStates.{
  cclink_allocbufs, delete_with, alloc_and_wait, wait_by_state, cclink_setwaitanontlsshutdown,
}
use pica_pica.Node.State.{
  local_waitconnclr, CcLink, NewConn, Node, fault, read_cclink, update_cclink, alloc, cclink_keyed,
  client_keyed, nodelink_keyed,
}

-- A link whose caller connects has a buffer freed twice, where one of its two buffers can be allocated
-- and the other can not: the one is freed, the pointer to it stays, and the link's deletion frees it
-- again.
pub cclink_setwaitanontlsshutdown_twice :
    (l : ℕ) (nc : NewConn) (n : Node) (c : CcLink) (first second : Bool) (mem : List Bool)
    → find l n.cclinks ≡ some c
    → c.state ≡ local_waitconnclr
    → n.mem ≡ first ∷ second ∷ mem
    → first ≢ second
    → cclink_setwaitanontlsshutdown l nc n ≡ fault
unfolding cclink_setwaitanontlsshutdown read_cclink wait_by_state update_cclink alloc_and_wait
    cclink_allocbufs delete_with alloc malloc
cclink_setwaitanontlsshutdown_twice l nc n c true true mem e s m d = absurd (d refl)
cclink_setwaitanontlsshutdown_twice l nc n c true false mem e s m d = ground arith
cclink_setwaitanontlsshutdown_twice l nc n c false true mem e s m d = ground arith
cclink_setwaitanontlsshutdown_twice l nc n c false false mem e s m d = absurd (d refl)
