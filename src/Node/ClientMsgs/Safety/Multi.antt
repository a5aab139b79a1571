-- ===== src/Node/ClientMsgs/Safety/Multi.antt =====
-- PICA_node.c: `procmsg_MULTILOGIN_client`, run on a node that meets the invariant.
use pica_pica.Common.{
  drop, ℕ, zero, suc, ◌≡◌, refl, ◌∙◌, List, true, Option, none, some, ◌==◌, length, inl, inr,
  Option-cases,
}
use pica_pica.Proto.{multilogin}
use pica_pica.Common.Store.{find-has, every-has, find, has}
use pica_pica.Node.Tree.{client_tree_search, walk_multi}
use pica_pica.Node.Invariant.Defs.{Safe-Any, Inv, Safe, Any, Ok-refl, Safe-bind, Safe-when}
use pica_pica.Node.Invariant.Prims.{read_client-Safe, push_client-Safe, client_tree_search-Safe}
use pica_pica.Node.State.{
  when, Client, Node, return, cclink_keyed, client_keyed, nodelink_keyed, read_client, push_client,
}
use pica_pica.Node.ClientMsgs.{relay_to_nodes, relay_multi, procmsg_multilogin_client}
use pica_pica.Node.ClientMsgs.Safety.{answer, push_each-Safe}

walk_multi_cases :
    (fuel p : ℕ) (cs : List Client) {ps : List ℕ}
    → walk_multi (suc fuel) (some p) cs ≡ some ps
    → (c : Client) × (rest : List ℕ) × (find p cs ≡ some c)
      × (walk_multi fuel c.next_multi cs ≡ some rest)
unfolding walk_multi
walk_multi_cases fuel p cs w = elim (Option-cases (find p cs)) [
  | inl gone ↦ absurd (cc (rw (gone, walk_multi) at w))
  | inr (c, e) ↦ elim (Option-cases (walk_multi fuel c.next_multi cs)) [
    | inl gone ↦ absurd (cc (rw gone at (rw (e, walk_multi) at w)))
    | inr (rest, r) ↦ (c, rest, e, r)
  ]
]

relay_multi-Safe :
    (fuel me : ℕ) (tail : List ℕ) (other : Option ℕ) (n : Node) {ps : List ℕ}
    → Inv n
    → walk_multi fuel other n.clients ≡ some ps
    → Safe n Any (relay_multi fuel me tail other n)
unfolding relay_multi walk_multi
relay_multi-Safe zero me tail none n v w = (Ok-refl v, tt)
relay_multi-Safe (suc fuel) me tail none n v w = (Ok-refl v, tt)
relay_multi-Safe zero me tail (some other) n v w = cc
relay_multi-Safe (suc fuel) me tail (some other) n v w =
    let (c0, rest0, e0, r0) = walk_multi_cases fuel other n.clients w in
    let live : has other n.clients ≡ true = find-has other n.clients e0 in
    Safe-bind Any _ (when (other == me) (return true) (push_client (some other) multilogin tail)) _
      n
      (Safe-when Any (other == me) _ _ n (λ _. (Ok-refl v, tt))
        (λ _.
          Safe-Any _ n (push_client (some other) multilogin tail n)
            (push_client-Safe n (some other) multilogin tail v live)))
      λ _ n1 o1 _.
        Safe-bind _ _ (read_client (some other)) _ n1
          (read_client-Safe n1 other o1.inv (o1.clients other ∙ live))
          λ c n2 o2 at.
            let (c', rest, e, r) =
              walk_multi_cases fuel other n2.clients
                (o2.walks (suc fuel) (some other) ∙ o1.walks (suc fuel) (some other) ∙ w) in
            let same : c ≡ c' = cc in
            relay_multi-Safe fuel me tail c.next_multi n2 {ps = rest} o2.inv (rw same r)

relay_to_nodes-Safe : (buf : List ℕ) (n : Node) → Inv n → Safe n Any (relay_to_nodes buf n)
unfolding relay_to_nodes
relay_to_nodes-Safe buf n v = push_each-Safe multilogin _ n.nodelinks n v (every-has n.nodelinks)

relay_from-Safe :
    (me : ℕ) (tail : List ℕ) (other : Option ℕ) (n : Node)
    → Inv n
    → ((p : ℕ) → other ≡ some p → has p n.clients ≡ true)
    → Safe n Any (relay_multi (suc (length n.clients)) me tail other n)
unfolding relay_multi walk_multi
relay_from-Safe me tail none n v live = (Ok-refl v, tt)
relay_from-Safe me tail (some p) n v live =
    let (ps, w) = v.multi p (live p refl) in
    relay_multi-Safe (suc (length n.clients)) me tail (some p) n v w

pub procmsg_multilogin_client-Safe :
    (buf : List ℕ) (size ptr : ℕ) (n : Node)
    → Inv n
    → has ptr n.clients ≡ true
    → Safe n Any (procmsg_multilogin_client buf size ptr n)
unfolding procmsg_multilogin_client
procmsg_multilogin_client-Safe buf size ptr n v h =
    Safe-bind _ _ (read_client (some ptr)) _ n (read_client-Safe n ptr v h) λ me n1 o1 _.
      Safe-bind _ _ (client_tree_search me.id) _ n1 (client_tree_search-Safe n1 me.id o1.inv)
        λ other n2 o2 live.
          Safe-bind Any _ (λ n. relay_multi (suc (length n.clients)) ptr (drop 2 buf) other n) _ n2
            (relay_from-Safe ptr (drop 2 buf) other n2 o2.inv live)
            λ _ n3 o3 _.
              Safe-bind Any _ (relay_to_nodes buf) _ n3 (relay_to_nodes-Safe buf n3 o3.inv)
                λ _ n4 o4 _. answer 1 n4 o4.inv
