-- ===== src/Node/Tree/Removal.antt =====
-- PICA_node.c: `client_tree_remove` of a client with two children.
use pica_pica.Common.{
  ℕ, suc, ◌≡◌, ◌≢◌, refl, sym, ◌∙◌, subst, true, none, some, ◌==◌, length, arith,
}
use pica_pica.Common.Store.{find, find-replace, find-key, replace}
use pica_pica.Node.State.{
  Client, Node, Run, M, done, exited, fault, ◌>>=◌, read_client, update_client, client_keyed,
}
use pica_pica.Node.Tree.{
  client_tree_remove, place_of, remove_at, remove_inner, leftmost, detach_leftmost, assign, root,
}

-- A sequence whose first computation is done goes on with the second.
after :
    {A B : Type 0} {x : Run B} (m : M A) (f : A → M B) (n : Node) {a : A} {n' : Node}
    → m n ≡ done a n'
    → f a n' ≡ x
    → (m >>= f) n ≡ x
after {A} {B} {x} m f n e k =
    subst (λ z. elim z as (λ _. Run B) [ done a n' ↦ f a n' | exited ↦ exited | fault ↦ fault ] ≡ x)
      (sym e) k

-- The part of the removal that finds the leftmost client of the right subtree and puts it in place.
remove_inner_right :
    (n : Node) (r : ℕ) (c cr : Client)
    → find r n.clients ≡ some cr
    → cr.left ≡ none
    → remove_inner c r root n
      ≡ done tt (record n {
        clients = replace (record cr { left = c.left; up = c.up }) n.clients;
        tree_root = some r;
      })
unfolding remove_inner leftmost detach_leftmost assign update_client read_client
remove_inner_right n r c cr er hc =
    let same : (r == r) ≡ true = ground arith in
    after (λ n. leftmost (suc (length n.clients)) r n) _ n {a = r} {n' = n}
      (rw (er, leftmost) (rw (hc, leftmost) refl))
      (after (detach_leftmost r r) _ n {a = tt} {n' = n} (rw same refl) (
        after (update_client (some r) (λ m. record m { left = c.left; up = c.up })) _ n {a = tt}
          {n' = record n { clients = replace (record cr { left = c.left; up = c.up }) n.clients }}
          (after (read_client (some r)) _ n {a = cr} {n' = n} (rw er refl) refl) refl))

-- After the removal of the root of the tree, with two children of which the right one has no left
-- child, the left child still has the removed client for its parent, though that one is no longer in
-- the tree: the right child is its root.
pub client_tree_remove_up :
    (n : Node) (ci l r : ℕ) (c cl cr : Client)
    → find ci n.clients ≡ some c
    → find l n.clients ≡ some cl
    → find r n.clients ≡ some cr
    → c.up ≡ none
    → c.left ≡ some l
    → c.right ≡ some r
    → cl.up ≡ some ci
    → cr.left ≡ none
    → l ≢ r
    → (n' : Node) × (client_tree_remove ci n ≡ done tt n')
      × (n'.tree_root ≡ some r)
      × ((cl' : Client) × (find l n'.clients ≡ some cl') × (cl'.up ≡ some ci))
unfolding client_tree_remove place_of remove_at read_client
client_tree_remove_up n ci l r c cl cr e el er u hl hr up hc ne = (
  record n {
    clients = replace (record cr { left = c.left; up = c.up }) n.clients;
    tree_root = some r;
  },
  after (read_client (some ci)) _ n {a = c} {n' = n} (rw e refl) (
      after (place_of ci c.up) _ n {a = root} {n' = n} (rw u refl)
        (rw (hl, hr) (rw hl at (remove_inner_right n r c cr er hc)))),
  refl,
  (
    cl,
    find-replace l (record cr { left = c.left; up = c.up }) n.clients
        ∙ ground (arith, find-key r n.clients er),
    up,
  ),
)
