-- ===== src/Node/ClientMsgs/Safety/Requests.antt =====
-- PICA_node.c: `procmsg_CONNREQOUTG`, run on a node that meets the invariant.
use pica_pica.Common.{ℕ, ◌≡◌, refl, ◌∙◌, List, true, not, none, some, ◌==◌, inl, inr, Bool-cases}
use pica_pica.Proto.{search}
use pica_pica.Common.Store.{every-has, has}
use pica_pica.Node.Ids.{id_eq, first_id}
use pica_pica.Node.Tree.{client_tree_search}
use pica_pica.Node.CcLinks.{
  cclink_list_findwaitsearch, cclink_list_addn2nclr, cclink_list_search, cclink_list_addlocal,
}
use pica_pica.Node.Invariant.Defs.{Inv, Safe, Any, Ok-refl, Safe-bind, Safe-option}
use pica_pica.Node.Invariant.Prims.{
  read_client-Safe, update_client-Safe, push_client-Safe, client_tree_search-Safe,
}
use pica_pica.Node.Invariant.Added.{cclink_list_addlocal-Safe, cclink_list_addn2nclr-Safe}
use pica_pica.Node.State.{
  Node, return, cclink_keyed, client_keyed, nodelink_keyed, read_client, update_client, push_client,
}
use pica_pica.Node.ClientMsgs.{
  nodelink_send_searchreq, push_each, link_local, request_local, request_remote,
  procmsg_connreqoutg,
}
use pica_pica.Node.ClientMsgs.Safety.{answer, choose, cclink_list_search-Safe, push_each-Safe}

link_local-Safe :
    (i o : ℕ) (n : Node)
    → Inv n
    → has i n.clients ≡ true
    → has o n.clients ≡ true
    → Safe n Any (link_local i o n)
unfolding link_local
link_local-Safe i o n v h k =
    Safe-bind _ _ (cclink_list_addlocal (some i) (some o)) _ n
      (cclink_list_addlocal-Safe n i o v h k)
      λ _ n1 o1 _.
        Safe-bind _ _
          (λ n.
            update_client (some o) (λ c. record c { tmst = n.now; disconnect_ticking = true }) n)
          _ n1
          (update_client-Safe n1 (some o) _ (λ c. (refl, (refl, refl, refl, refl))) o1.inv
            (o1.clients o ∙ k))
          λ _ n2 o2 _. answer 1 n2 o2.inv

request_local-Safe :
    (i : ℕ) (caller_id : List ℕ) (o : ℕ) (callee_id : List ℕ) (n : Node)
    → Inv n
    → has i n.clients ≡ true
    → has o n.clients ≡ true
    → Safe n Any (request_local i caller_id o callee_id n)
unfolding request_local
request_local-Safe i caller_id o callee_id n v h k =
    Safe-bind _ _ (cclink_list_search _ _) _ n (cclink_list_search-Safe n caller_id callee_id v)
      λ dup n1 o1 _.
        Safe-option Any _ _ dup n1
          (λ _.
            choose (id_eq caller_id callee_id) _ _ n1 (λ _. answer 1 n1 o1.inv)
              λ _.
                Safe-bind _ _ (push_client (some o) _ caller_id) _ n1
                  (push_client-Safe n1 (some o) _ caller_id o1.inv (o1.clients o ∙ k))
                  λ pushed n2 o2 _.
                    choose pushed _ _ n2
                      (λ _.
                        link_local-Safe i o n2 o2.inv (o2.clients i ∙ o1.clients i ∙ h)
                          (o2.clients o ∙ o1.clients o ∙ k))
                      (λ _. answer 1 n2 o2.inv))
          (λ _ _. answer 1 n1 o1.inv)

nodelink_send_searchreq-Safe :
    (id : List ℕ) (n : Node) → Inv n → Safe n Any (nodelink_send_searchreq id n)
unfolding nodelink_send_searchreq
nodelink_send_searchreq-Safe id n v = elim (Bool-cases (n.nodelink_list_count == 0)) [
  | inl no_nodes ↦ rw (no_nodes, Safe) (Ok-refl v, tt)
  | inr nodes ↦
      rw (nodes, Safe)
        (Safe-bind Any Any (push_each search id n.nodelinks) (λ _. return 1) n
          (push_each-Safe search id n.nodelinks n v (every-has n.nodelinks))
          λ _ n1 o1 _. answer 1 n1 o1.inv)
]

cclink_list_findwaitsearch-Safe :
    (n : Node) (id : List ℕ) → Inv n → Safe n Any (cclink_list_findwaitsearch id n)
unfolding cclink_list_findwaitsearch
cclink_list_findwaitsearch-Safe n id v = (Ok-refl v, tt)

request_remote-Safe :
    (i : ℕ) (callee_id : List ℕ) (n : Node)
    → Inv n
    → has i n.clients ≡ true
    → Safe n Any (request_remote i callee_id n)
unfolding request_remote
request_remote-Safe i callee_id n v h =
    Safe-bind _ _ (cclink_list_findwaitsearch callee_id) _ n
      (cclink_list_findwaitsearch-Safe n callee_id v)
      λ waiting n1 o1 _.
        Safe-bind Any _
          (elim waiting [ some _ ↦ return 1 | none ↦ nodelink_send_searchreq callee_id ]) _ n1
          (Safe-option Any _ _ waiting n1 (λ _. nodelink_send_searchreq-Safe callee_id n1 o1.inv)
            (λ _ _. answer 1 n1 o1.inv))
          λ searching n2 o2 _.
            choose (not (searching == 0)) _ _ n2
              (λ _.
                Safe-bind _ _ (cclink_list_addn2nclr (some i) callee_id) _ n2
                  (cclink_list_addn2nclr-Safe n2 i callee_id o2.inv
                    (o2.clients i ∙ o1.clients i ∙ h))
                  λ _ n3 o3 _. answer 1 n3 o3.inv)
              (λ _.
                Safe-bind _ _ (push_client (some i) _ callee_id) _ n2
                  (push_client-Safe n2 (some i) _ callee_id o2.inv
                    (o2.clients i ∙ o1.clients i ∙ h))
                  λ _ n3 o3 _. answer 1 n3 o3.inv)

pub procmsg_connreqoutg-Safe :
    (buf : List ℕ) (size ptr : ℕ) (n : Node)
    → Inv n
    → has ptr n.clients ≡ true
    → Safe n Any (procmsg_connreqoutg buf size ptr n)
unfolding procmsg_connreqoutg
procmsg_connreqoutg-Safe buf size ptr n v h =
    Safe-bind _ _ (read_client (some ptr)) _ n (read_client-Safe n ptr v h) λ i n1 o1 _.
      Safe-bind _ _ (client_tree_search (first_id buf)) _ n1
        (client_tree_search-Safe n1 (first_id buf) o1.inv)
        λ o n2 o2 live.
          Safe-option Any _ _ o n2
            (λ _.
              request_remote-Safe ptr (first_id buf) n2 o2.inv
                (o2.clients ptr ∙ o1.clients ptr ∙ h))
            (λ o' e.
              request_local-Safe ptr i.id o' (first_id buf) n2 o2.inv
                (o2.clients ptr ∙ o1.clients ptr ∙ h) (live o' e))
