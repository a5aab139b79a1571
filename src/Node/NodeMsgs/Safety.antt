-- ===== src/Node/NodeMsgs/Safety.antt =====
-- PICA_node.c: the handlers of the messages between nodes, run on a node that meets the invariant.
use pica_pica.Common.{ℕ, ◌≡◌, ◌∙◌, List, true, none, some, arith}
use pica_pica.Common.Store.{has, has?, has-find}
use pica_pica.Node.Ids.{first_id, second_id}
use pica_pica.Node.Tree.{client_tree_search}
use pica_pica.Node.CcLinks.{
  cclink_list_addn2ncle, find_ids, cclink_list_search, cclink_setwaitconn, cclink_list_delete,
}
use pica_pica.Node.Invariant.Defs.{Inv, Safe, Any, Ok-refl, Safe-bind, Safe-option}
use pica_pica.Node.Invariant.Stores.{nodelink-Ok}
use pica_pica.Node.Invariant.Prims.{
  push_client-Safe, push_nodelink-Safe, client_tree_search-Safe, cclink_list_delete-Safe,
  find_ids-has,
}
use pica_pica.Node.Invariant.Added.{cclink_list_addn2ncle-Safe}
use pica_pica.Node.ClientMsgs.Safety.{answer, choose, cclink_setwaitconn-Safe}
use pica_pica.Node.State.{
  CcLink, Node, fault, cclink_keyed, client_keyed, nodelink_keyed, read_client, read_nodelink,
  push_client, push_nodelink,
}
use pica_pica.Proto.{found, connreqinc, notfound, n2nfound, n2nnotfound}
use pica_pica.Node.NodeMsgs.{
  procmsg_search, procmsg_n2nconnreqoutg, procmsg_n2nallow, procmsg_n2nnotfound,
  procmsg_pingreq_node, procmsg_pingrep_node,
}

pub procmsg_pingreq_node-Safe :
    (random buf : List ℕ) (size ptr : ℕ) (n : Node)
    → Inv n
    → has ptr n.nodelinks ≡ true
    → Safe n Any (procmsg_pingreq_node random buf size ptr n)
unfolding procmsg_pingreq_node
procmsg_pingreq_node-Safe random buf size ptr n v h =
    Safe-bind _ _ (push_nodelink (some ptr) _ random) _ n
      (push_nodelink-Safe n (some ptr) _ random v h)
      λ pushed n1 o1 _. choose pushed _ _ n1 (λ _. answer 1 n1 o1.inv) (λ _. answer 0 n1 o1.inv)

pub procmsg_pingrep_node-Safe :
    (buf : List ℕ) (size ptr : ℕ) (n : Node)
    → Inv n
    → has ptr n.nodelinks ≡ true
    → Safe n Any (procmsg_pingrep_node buf size ptr n)
unfolding procmsg_pingrep_node read_nodelink
procmsg_pingrep_node-Safe buf size ptr n v h =
    let (l, e) = has-find ptr n.nodelinks h in rw (e, Safe) (nodelink-Ok n _ v, tt)

pub procmsg_search-Safe :
    (buf : List ℕ) (size ptr : ℕ) (n : Node)
    → Inv n
    → has ptr n.nodelinks ≡ true
    → Safe n Any (procmsg_search buf size ptr n)
unfolding procmsg_search
procmsg_search-Safe buf size ptr n v h =
    Safe-bind _ _ (client_tree_search (first_id buf)) _ n
      (client_tree_search-Safe n (first_id buf) v)
      λ callee n1 o1 _.
        Safe-option Any _ _ callee n1 (λ _. answer 1 n1 o1.inv)
          λ c e.
            Safe-bind _ _ (push_nodelink (some ptr) n2nfound (first_id buf)) _ n1
              (push_nodelink-Safe n1 (some ptr) n2nfound _ o1.inv (o1.nodelinks ptr ∙ h))
              λ _ n2 o2 _. answer 1 n2 o2.inv

-- A request from another node to connect to a client is handled by a node that meets the invariant
-- without following a dangling pointer, and the node meets the invariant afterwards or has stopped
-- by `PICA_fatal`. The link to that node has to be there.
pub procmsg_n2nconnreqoutg-Safe :
    (buf : List ℕ) (size ptr : ℕ) (n : Node)
    → Inv n
    → has ptr n.nodelinks ≡ true
    → Safe n Any (procmsg_n2nconnreqoutg buf size ptr n)
unfolding procmsg_n2nconnreqoutg
procmsg_n2nconnreqoutg-Safe buf size ptr n v h =
    Safe-bind _ _ (client_tree_search (second_id buf)) _ n
      (client_tree_search-Safe n (second_id buf) v)
      λ callee n1 o1 live.
        Safe-option Any _ _ callee n1
          (λ _.
            Safe-bind _ _ (push_nodelink (some ptr) n2nnotfound _) _ n1
              (push_nodelink-Safe n1 (some ptr) n2nnotfound _ o1.inv (o1.nodelinks ptr ∙ h))
              λ _ n2 o2 _. answer 1 n2 o2.inv)
          λ c e.
            Safe-bind _ _ (push_client (some c) connreqinc (first_id buf)) _ n1
              (push_client-Safe n1 (some c) connreqinc _ o1.inv (live c e))
              λ pushed n2 o2 _.
                choose pushed _ _ n2
                  (λ _.
                    Safe-bind _ _ (cclink_list_addn2ncle (first_id buf) (some ptr) (some c)) _ n2
                      (cclink_list_addn2ncle-Safe n2 (first_id buf) ptr c o2.inv
                        (o2.nodelinks ptr ∙ o1.nodelinks ptr ∙ h) (o2.clients c ∙ live c e))
                      λ _ n3 o3 _. answer 1 n3 o3.inv)
                  (λ _. answer 1 n2 o2.inv)

-- The link of two identifiers has a caller on this node.
abbrev pub CallerHere : List ℕ → List ℕ → Node → Type 0
CallerHere a b n = (l : CcLink) → find_ids a b n.cclinks ≡ some l → has? l.p1 n.clients ≡ true

found_link-Safe :
    (a b : List ℕ) (n : Node)
    → Inv n
    → CallerHere a b n
    → Safe n
        (λ r n'.
          (l : CcLink) → r ≡ some l → (has l.ptr n'.cclinks ≡ true) × (has? l.p1 n'.clients ≡ true))
        (cclink_list_search a b n)
unfolding cclink_list_search
found_link-Safe a b n v k = (Ok-refl v, λ l e. (find_ids-has a b n.cclinks e, k l e))

-- The acceptance by a callee on another node is handled by a node that meets the invariant without
-- following a null or a dangling pointer, and the node meets the invariant afterwards, if the link
-- that the message names, where there is one, has its caller on this node.
pub procmsg_n2nallow-Safe :
    (buf : List ℕ) (size ptr : ℕ) (n : Node)
    → Inv n
    → CallerHere (first_id buf) (second_id buf) n
    → Safe n Any (procmsg_n2nallow buf size ptr n)
unfolding procmsg_n2nallow
procmsg_n2nallow-Safe buf size ptr n v k =
    Safe-bind _ _ (cclink_list_search _ _) _ n (found_link-Safe _ _ n v k) λ link n1 o1 good.
      Safe-option Any _ _ link n1 (λ _. answer 1 n1 o1.inv)
        λ l e.
          Safe-bind _ _ (push_client l.p1 found _) _ n1
            (push_client-Safe n1 l.p1 found _ o1.inv (good l e).1)
            λ pushed n2 o2 same.
              choose pushed _ _ n2
                (λ _.
                  Safe-bind _ _ (cclink_setwaitconn (some l.ptr)) _ n2
                    (cclink_setwaitconn-Safe n2 l.ptr o2.inv (rw same (good l e).0))
                    λ _ n3 o3 _. answer 1 n3 o3.inv)
                (λ _. answer 1 n2 o2.inv)

-- The refusal by a callee on another node, or the answer that it is not there, is handled by a
-- node that meets the invariant without following a null or a dangling pointer, and the node meets
-- the invariant afterwards, if the link that the message names, where there is one, has its caller
-- on this node.
pub procmsg_n2nnotfound-Safe :
    (buf : List ℕ) (size ptr : ℕ) (n : Node)
    → Inv n
    → CallerHere (first_id buf) (second_id buf) n
    → Safe n Any (procmsg_n2nnotfound buf size ptr n)
unfolding procmsg_n2nnotfound
procmsg_n2nnotfound-Safe buf size ptr n v k =
    Safe-bind _ _ (cclink_list_search _ _) _ n (found_link-Safe _ _ n v k) λ link n1 o1 good.
      Safe-option Any _ _ link n1 (λ _. answer 1 n1 o1.inv)
        λ l e.
          Safe-bind _ _ (push_client l.p1 notfound _) _ n1
            (push_client-Safe n1 l.p1 notfound _ o1.inv (good l e).1)
            λ _ n2 o2 same.
              Safe-bind _ _ (cclink_list_delete l.ptr) _ n2
                (cclink_list_delete-Safe n2 l.ptr o2.inv (rw same (good l e).0))
                λ _ n3 o3 _. answer 1 n3 o3.inv

-- Another node that names a link whose caller is not on this node makes this node follow a null
-- pointer, by either of the two answers.
pub procmsg_n2nallow_null :
    (buf : List ℕ) (size ptr : ℕ) (n : Node) (l : CcLink)
    → find_ids (first_id buf) (second_id buf) n.cclinks ≡ some l
    → l.p1 ≡ none
    → (procmsg_n2nallow buf size ptr n ≡ fault) × (procmsg_n2nnotfound buf size ptr n ≡ fault)
unfolding procmsg_n2nallow procmsg_n2nnotfound cclink_list_search push_client read_client
procmsg_n2nallow_null buf size ptr n l e h = (ground arith, ground arith)
