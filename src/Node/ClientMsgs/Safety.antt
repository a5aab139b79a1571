-- ===== src/Node/ClientMsgs/Safety.antt =====
-- PICA_node.c: the handlers of a callee's answers and of pings, run on a node that meets the
-- invariant, and the rules that the other handlers' proofs share.
pub mod Requests
pub mod Multi
use mathlib.Core.Option.{some-injective}
use pica_pica.Common.{
  drop, ℕ, zero, suc, ◌+◌, ◌-◌, ◌<◌, ◌≡◌, refl, sym, ◌∙◌, ap, List, [], ◌∷◌, ◌++◌, Bool, true,
  false, ◌&&◌, ◌||◌, not, Option, none, some, ◌==◌, ltb, if◌then◌else◌, length, arith, ◌⊎◌, inl,
  inr, Bool-cases, Option-cases,
}
use pica_pica.Proto.{search, multilogin}
use pica_pica.Common.Store.{find-has, every-imp, every-has, find, has, has?, every}
use pica_pica.Node.Ids.{id_eq, first_id}
use pica_pica.Node.Tree.{client_tree_search, walk_multi}
use pica_pica.Node.CcLinks.{
  cclink_list_findwaitsearch, cclink_list_addn2nclr, find_ids, cclink_list_search, waitconn,
  cclink_setwaitconn, cclink_list_delete, cclink_list_addlocal,
}
use pica_pica.Node.Invariant.Defs.{
  SameLinks, Safe-Any, ends, link_ok, Inv, Ok, Safe, Any, Ok-refl, Ok-trans, Safe-bind, Safe-return,
  Safe-when, Safe-option,
}
use pica_pica.Node.Invariant.Prims.{
  read_client-Safe, update_client-Safe, push_client-Safe, push_nodelink-Safe,
  client_tree_search-Safe, cclink_list_delete-Safe, update_cclink-Safe, find_ids-has,
  find_ids-every,
}
use pica_pica.Node.Invariant.Added.{cclink_list_addlocal-Safe, cclink_list_addn2nclr-Safe}
use pica_pica.Node.State.{
  when, CcState, local_waitrep, n2ncle_waitrep, CcLink, Client, NodeLink, Node, Run, M, done,
  exited, fault, ◌>>=◌, ◌>>◌, return, cclink_keyed, client_keyed, nodelink_keyed, read_client,
  update_client, push_client, push_nodelink,
}
use pica_pica.Node.ClientMsgs.{
  relay_to_nodes, relay_multi, procmsg_multilogin_client, nodelink_send_searchreq, push_each,
  link_local, request_local, request_remote, procmsg_connreqoutg, procmsg_pingreq_client,
  procmsg_pingrep_client, alive, is_waitrep, send_denial, procmsg_connallow, procmsg_conndeny,
}

pub waitconn-ok :
    (cs : List Client) (ns : List NodeLink) (c : CcLink)
    → link_ok cs ns c ≡ true
    → link_ok cs ns (record c { state = waitconn c.state }) ≡ true
unfolding link_ok waitconn
waitconn-ok cs ns c h = ground arith

pub cclink_setwaitconn-Safe :
    (n : Node) (l : ℕ) → Inv n → has l n.cclinks ≡ true → Safe n Any (cclink_setwaitconn (some l) n)
unfolding cclink_setwaitconn
cclink_setwaitconn-Safe n l v h =
    update_cclink-Safe n l (λ c. record c { state = waitconn c.state }) (λ c. refl)
      (waitconn-ok n.clients n.nodelinks) v h

pub cclink_list_search-Safe :
    (n : Node) (a b : List ℕ)
    → Inv n
    → Safe n
        (λ r n'.
          (l : CcLink)
          → r ≡ some l
          → (has l.ptr n'.cclinks ≡ true) × (link_ok n'.clients n'.nodelinks l ≡ true))
        (cclink_list_search a b n)
unfolding cclink_list_search
cclink_list_search-Safe n a b v =
    (Ok-refl v, λ l e. (find_ids-has a b n.cclinks e, find_ids-every _ a b n.cclinks v.links e))

pub alive-Safe :
    (n : Node) (ptr : ℕ) → Inv n → has ptr n.clients ≡ true → Safe n (SameLinks n) (alive ptr n)
unfolding alive
alive-Safe n ptr v h = update_client-Safe n (some ptr) _ (λ c. (refl, (refl, refl, refl, refl))) v h

-- The rules at a handler's answer and at its choices.
pub answer : (a : ℕ) (n : Node) → Inv n → Safe {A = ℕ} n Any (return a n)
answer a n v = (Ok-refl v, tt)

pub choose :
    (b : Bool) (x y : M ℕ) (n : Node)
    → (b ≡ true → Safe n Any (x n))
    → (b ≡ false → Safe n Any (y n))
    → Safe n Any (when b x y n)
choose b x y n f g = Safe-when Any b x y n f g

pub procmsg_connallow-Safe :
    (buf : List ℕ) (size ptr : ℕ) (n : Node)
    → Inv n
    → has ptr n.clients ≡ true
    → Safe n Any (procmsg_connallow buf size ptr n)
unfolding procmsg_connallow
procmsg_connallow-Safe buf size ptr n v h =
    Safe-bind _ _ (alive ptr) _ n (alive-Safe n ptr v h) λ _ n1 o1 _.
      Safe-bind _ _ (read_client (some ptr)) _ n1
        (read_client-Safe n1 ptr o1.inv (o1.clients ptr ∙ h))
        λ c n2 o2 _.
          Safe-bind _ _ (cclink_list_search _ _) _ n2 (cclink_list_search-Safe n2 _ _ o2.inv)
            λ link n3 o3 good.
              Safe-option Any _ _ link n3 (λ _. answer 0 n3 o3.inv)
                λ l e.
                  choose (not (is_waitrep l.state)) _ _ n3 (λ _. answer 0 n3 o3.inv)
                    λ _.
                      Safe-bind _ _ (cclink_setwaitconn (some l.ptr)) _ n3
                        (cclink_setwaitconn-Safe n3 l.ptr o3.inv (good l e).0)
                        λ _ n4 o4 _. answer 1 n4 o4.inv

send_denial-Safe :
    (s : CcState) (l : CcLink) (a b : List ℕ) (n : Node)
    → l.state ≡ s
    → Inv n
    → link_ok n.clients n.nodelinks l ≡ true
    → Safe n (SameLinks n) (send_denial s l a b n)
unfolding send_denial link_ok
send_denial-Safe local_waitrep l a b n e v g = push_client-Safe n l.p1 _ b v (ground arith)
send_denial-Safe n2ncle_waitrep l a b n e v g =
    push_nodelink-Safe n l.caller_node _ (a ++ b) v (ground arith)
send_denial-Safe _ l a b n e v g = (Ok-refl v, refl)

pub procmsg_conndeny-Safe :
    (buf : List ℕ) (size ptr : ℕ) (n : Node)
    → Inv n
    → has ptr n.clients ≡ true
    → Safe n Any (procmsg_conndeny buf size ptr n)
unfolding procmsg_conndeny
procmsg_conndeny-Safe buf size ptr n v h =
    Safe-bind _ _ (alive ptr) _ n (alive-Safe n ptr v h) λ _ n1 o1 _.
      Safe-bind _ _ (read_client (some ptr)) _ n1
        (read_client-Safe n1 ptr o1.inv (o1.clients ptr ∙ h))
        λ c n2 o2 _.
          Safe-bind _ _ (cclink_list_search _ _) _ n2 (cclink_list_search-Safe n2 _ _ o2.inv)
            λ link n3 o3 good.
              Safe-option Any _ _ link n3 (λ _. answer 0 n3 o3.inv)
                λ l e.
                  choose (not (is_waitrep l.state)) _ _ n3
                    (λ _.
                      Safe-bind _ _ (cclink_list_delete l.ptr) _ n3
                        (cclink_list_delete-Safe n3 l.ptr o3.inv (good l e).0)
                        λ _ n4 o4 _. answer 0 n4 o4.inv)
                    λ _.
                      Safe-bind _ _ (send_denial l.state l _ _) _ n3
                        (send_denial-Safe l.state l _ _ n3 refl o3.inv (good l e).1)
                        λ _ n4 o4 same.
                          Safe-bind _ _ (cclink_list_delete l.ptr) _ n4
                            (cclink_list_delete-Safe n4 l.ptr o4.inv (rw same (good l e).0))
                            λ _ n5 o5 _. answer 1 n5 o5.inv

pub procmsg_pingreq_client-Safe :
    (random buf : List ℕ) (size ptr : ℕ) (n : Node)
    → Inv n
    → has ptr n.clients ≡ true
    → Safe n Any (procmsg_pingreq_client random buf size ptr n)
unfolding procmsg_pingreq_client
procmsg_pingreq_client-Safe random buf size ptr n v h =
    Safe-bind _ _ (push_client (some ptr) _ random) _ n (push_client-Safe n (some ptr) _ random v h)
      λ pushed n1 o1 _. choose pushed _ _ n1 (λ _. answer 1 n1 o1.inv) (λ _. answer 0 n1 o1.inv)

pub procmsg_pingrep_client-Safe :
    (buf : List ℕ) (size ptr : ℕ) (n : Node)
    → Inv n
    → has ptr n.clients ≡ true
    → Safe n Any (procmsg_pingrep_client buf size ptr n)
unfolding procmsg_pingrep_client
procmsg_pingrep_client-Safe buf size ptr n v h =
    Safe-bind _ _ (alive ptr) _ n (alive-Safe n ptr v h) λ _ n1 o1 _. answer 1 n1 o1.inv

pub push_each-Safe :
    (msgid : ℕ) (tail : List ℕ) (ls : List NodeLink) (n : Node)
    → Inv n
    → every (λ l. has l.ptr n.nodelinks) ls ≡ true
    → Safe n Any (push_each msgid tail ls n)
unfolding push_each every
push_each-Safe msgid tail [] n v h = (Ok-refl v, tt)
push_each-Safe msgid tail (l ∷ ls) n v h =
    Safe-bind _ _ (push_nodelink (some l.ptr) msgid tail) _ n
      (push_nodelink-Safe n (some l.ptr) msgid tail v (ground arith))
      λ _ n1 o1 _. push_each-Safe msgid tail ls n1 o1.inv (
        every-imp (λ m. has m.ptr n.nodelinks) (λ m. has m.ptr n1.nodelinks) ls
          (λ m g. o1.nodelinks m.ptr ∙ g) (ground arith))
