-- ===== src/Node/Tables/Safety.antt =====
-- PICA_node.c: `PICA_processdatastream` with the tables of the messages that clients send.
use pica_pica.Common.{ℕ, ◌≡◌, ◌∙◌, List, true, none, some, ◌≢◌}
use pica_pica.Common.Store.{has}
use pica_pica.Msgproc.Defs.{processdatastream}
use pica_pica.Msgproc.Stream.{processdatastream_inv}
use pica_pica.Proto.{clnodelist}
use pica_pica.Node.State.{Node, Run, M, done, exited, fault, alloc, push_client, client_keyed}
use pica_pica.Node.Invariant.Defs.{Inv, Safe, Any, Ok-refl, Ok-trans, Safe-bind, Safe-when}
use pica_pica.Node.Invariant.Stores.{mem-Ok}
use pica_pica.Node.Invariant.Prims.{push_client-Safe}
use pica_pica.Node.Nodelist.{
  Config, Requester, client_asks, node_asks, make_nodelist, nodelist_tail, procmsg_clnodelistreq,
}
use pica_pica.Node.Nodelist.Built.{build_nodelist-items}
use pica_pica.Node.ClientMsgs.{procmsg_dummy_multi_c2n}
use pica_pica.Node.ClientMsgs.Safety.{
  procmsg_connallow-Safe, procmsg_conndeny-Safe, procmsg_pingreq_client-Safe,
  procmsg_pingrep_client-Safe,
}
use pica_pica.Node.ClientMsgs.Safety.Requests.{procmsg_connreqoutg-Safe}
use pica_pica.Node.ClientMsgs.Safety.Multi.{procmsg_multilogin_client-Safe}
use pica_pica.Node.Tables.{Server, resulting, on_server, msginfo_comm, msginfo_multi}

alloc-Safe : (n : Node) → Inv n → Safe n Any (alloc n)
unfolding alloc
alloc-Safe n v = (mem-Ok _ (Ok-refl v), tt)

make_nodelist-Safe :
    (cfg : Config) (r : Requester) (n : Node)
    → r ≢ node_asks none
    → Inv n
    → Safe n Any (make_nodelist cfg r n)
unfolding make_nodelist
make_nodelist-Safe cfg r n h v = rw (build_nodelist-items cfg r n.nodelinks h) (Ok-refl v, tt)

procmsg_clnodelistreq-Safe :
    (cfg : Config) (buf : List ℕ) (size ptr : ℕ) (n : Node)
    → Inv n
    → has ptr n.clients ≡ true
    → Safe n Any (procmsg_clnodelistreq cfg buf size ptr n)
unfolding procmsg_clnodelistreq
procmsg_clnodelistreq-Safe cfg buf size ptr n v h =
    Safe-bind Any Any alloc _ n (alloc-Safe n v) λ got n1 o1 _.
      Safe-when Any got _ _ n1
        (λ _.
          Safe-bind Any Any (make_nodelist cfg client_asks) _ n1
            (make_nodelist-Safe cfg client_asks n1 (λ e. cc) o1.inv)
            λ nl n2 o2 _.
              Safe-bind _ Any (push_client (some ptr) clnodelist (nodelist_tail nl)) _ n2
                (push_client-Safe n2 (some ptr) clnodelist _ o2.inv
                  (o2.clients ptr ∙ o1.clients ptr ∙ h))
                λ _ n3 o3 _. (Ok-refl o3.inv, tt))
        (λ _. (Ok-refl o1.inv, tt))

-- The server has stopped by `PICA_fatal`, or it is sound and its clients and links to nodes are those
-- that were there.
abbrev pub Sound : Node → Server → Type 0
Sound n s = Safe n Any s

on_server-Sound :
    (n : Node) (ptr : ℕ) (h : List ℕ → ℕ → M ℕ)
    → has ptr n.clients ≡ true
    → ((buf : List ℕ) (size : ℕ) (n' : Node)
        → Inv n'
        → has ptr n'.clients ≡ true
        → Safe n' Any (h buf size n'))
    → (buf : List ℕ) (size : ℕ) (s : Server) → Sound n s
    → Sound n (on_server h buf size s).1
unfolding on_server
on_server-Sound n ptr h live safe buf size (done a n') (o, _) =
    go (h buf size n') (safe buf size n' o.inv (o.clients ptr ∙ live))
  where
    go : (r : Run ℕ) → Safe n' Any r → Sound n (resulting r).1
    go (done b n'') (o', _) = (Ok-trans o o', tt)
    go exited s = tt
    go fault s = s
on_server-Sound n ptr h live safe buf size exited s = tt
on_server-Sound n ptr h live safe buf size fault s = s

-- Whatever bytes a connected client sends, in however many messages, and whichever allocations
-- fail: no handler that the stream loop runs follows a null or a dangling pointer, where the node
-- meets the invariant, and then either the node has stopped by `PICA_fatal`, or it meets the invariant
-- and no client and no link to a node has gone. The invariant is about the clients, their links and
-- the links to nodes. It is not about the pointers that new connections have to links: a handler
-- follows none of them, but can leave one dangling.
pub processdatastream-comm-Sound :
    (cfg : Config) (random : List ℕ) (ptr : ℕ) (buf : List ℕ) (n : Node)
    → Inv n
    → has ptr n.clients ≡ true
    → Sound n (processdatastream buf (done tt n) (msginfo_comm cfg random ptr)).2
processdatastream-comm-Sound cfg random ptr buf n v h =
    processdatastream_inv (Sound n) buf (done tt n) (msginfo_comm cfg random ptr)
      (
        on_server-Sound n ptr _ h (λ b s. procmsg_connreqoutg-Safe b s ptr),
        (
          on_server-Sound n ptr _ h (λ b s. procmsg_connallow-Safe b s ptr),
          (
            on_server-Sound n ptr _ h (λ b s. procmsg_conndeny-Safe b s ptr),
            (
              on_server-Sound n ptr _ h (λ b s. procmsg_clnodelistreq-Safe cfg b s ptr),
              (
                on_server-Sound n ptr _ h (λ b s. procmsg_pingreq_client-Safe random b s ptr),
                (
                  on_server-Sound n ptr _ h (λ b s. procmsg_pingrep_client-Safe b s ptr),
                  (on_server-Sound n ptr _ h (λ b s. procmsg_multilogin_client-Safe b s ptr), tt),
                ),
              ),
            ),
          ),
        ),
      )
      (Ok-refl v, tt)

dummy-Safe :
    (buf : List ℕ) (size ptr : ℕ) (n : Node)
    → Inv n
    → has ptr n.clients ≡ true
    → Safe n Any (procmsg_dummy_multi_c2n buf size ptr n)
unfolding procmsg_dummy_multi_c2n
dummy-Safe buf size ptr n v h = (Ok-refl v, tt)

-- Whatever bytes a secondary client of a multi-login sends: no handler that the stream loop runs
-- follows a null or a dangling pointer, where the node meets the invariant, and then either the node
-- has stopped by `PICA_fatal`, or it meets the invariant and no client and no link to a node has gone.
pub processdatastream-multi-Sound :
    (cfg : Config) (random : List ℕ) (ptr : ℕ) (buf : List ℕ) (n : Node)
    → Inv n
    → has ptr n.clients ≡ true
    → Sound n (processdatastream buf (done tt n) (msginfo_multi cfg random ptr)).2
processdatastream-multi-Sound cfg random ptr buf n v h =
    processdatastream_inv (Sound n) buf (done tt n) (msginfo_multi cfg random ptr)
      (
        on_server-Sound n ptr _ h (λ b s. dummy-Safe b s ptr),
        (
          on_server-Sound n ptr _ h (λ b s. dummy-Safe b s ptr),
          (
            on_server-Sound n ptr _ h (λ b s. dummy-Safe b s ptr),
            (
              on_server-Sound n ptr _ h (λ b s. procmsg_clnodelistreq-Safe cfg b s ptr),
              (
                on_server-Sound n ptr _ h (λ b s. procmsg_pingreq_client-Safe random b s ptr),
                (
                  on_server-Sound n ptr _ h (λ b s. procmsg_pingrep_client-Safe b s ptr),
                  (on_server-Sound n ptr _ h (λ b s. procmsg_multilogin_client-Safe b s ptr), tt),
                ),
              ),
            ),
          ),
        ),
      )
      (Ok-refl v, tt)
