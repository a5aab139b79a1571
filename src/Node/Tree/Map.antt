-- ===== src/Node/Tree/Map.antt =====
-- PICA_node.c: the tree of clients as a map from identifiers to clients.
use pica_pica.Common.{
  ℕ, suc, ◌<◌, ◌≤◌, ◌≡◌, refl, sym, ap, ◌∙◌, List, true, false, Option, none, some, ◌==◌,
  if◌then◌else◌, length, arith, inl, inr, ==_iff, subst, Bool-cases,
}
use pica_pica.Common.Store.{find, replace, find-key, length-replace}
use pica_pica.Node.Ids.{memcmp, memcmp-eq, Ordering-cases, id_eq}
use pica_pica.Node.Tree.{
  client_tree_search, Place, root, left_of, right_of, assign, find_place, hang, client_tree_add,
}
use pica_pica.Node.Tree.Shape.{
  Bst, leaf, node, lookup, insert, depth, holds, Represents, Apart, search_from-lookup,
  lookup-insert_same, lookup-insert_other, depth-insert, lookup_lt, lookup_eq, lookup_gt,
}
use pica_pica.Node.Tree.Descent.{place, below, find_place-place, place_lt, place_gt}
use pica_pica.Node.Tree.Parent.{parent, child, differ, place-Placed, Placed}
use pica_pica.Node.Tree.Add.{
  is_root, hang-stored, stored, stored-Hung, inserted, Inserted, find_off,
}
use pica_pica.Node.State.{Client, Node, done, ◌>>=◌, read_client, client_keyed}

holds-find :
    (cs : List Client) (o : Option ℕ) (t : Bst) (q : ℕ)
    → Represents cs o t
    → holds q t ≡ true
    → (c : Client) × (find q cs ≡ some c)
holds-find cs o leaf q s h = cc
holds-find cs o (node l p i r) q (e, c, f, g, hl, hr) h = elim (Bool-cases (q == p)) [
  | inl k ↦ (c, ap (λ x. find x cs) ((==_iff q p).0 k) ∙ f)
  | inr k ↦ elim (Bool-cases (holds q l)) [
    | inl m ↦ holds-find cs c.left l q hl m
    | inr m ↦ holds-find cs c.right r q hr (ground (arith, h))
  ]
]

child_ptr : (pl : Place) (ci : ℕ) (c : Client) → (child pl ci c).ptr ≡ c.ptr
child_ptr root ci c = refl
child_ptr (left_of u) ci c = refl
child_ptr (right_of u) ci c = refl

-- A place that is not the root, where the tree is not empty.
Inner : Bst → Place → Type 0
Inner leaf pl = Unit {0}
Inner (node l p i r) pl = is_root pl ≡ false

below-Inner :
    (pl0 : Place) (t : Bst) (o : Option Place)
    → is_root pl0 ≡ false
    → ((pl : Place) × (o ≡ some pl) × Inner t pl)
    → (pl : Place) × (below pl0 t o ≡ some pl) × (is_root pl ≡ false)
unfolding Inner
below-Inner pl0 leaf o b k = (pl0, refl, b)
below-Inner pl0 (node l p i r) o b (pl, e, k) = (pl, e, k)

-- An identifier that is not in the tree has a place.
place_found :
    (id : List ℕ) (t : Bst)
    → lookup id t ≡ none
    → (pl : Place) × (place id t ≡ some pl) × Inner t pl
unfolding Inner place is_root
place_found id leaf h = (root, refl, tt)
place_found id (node l p i r) h = elim (Ordering-cases (memcmp id i)) [
  | inl m ↦
      (let (pl, e, k) =
          below-Inner (left_of p) l (place id l) refl
            (place_found id l (sym (lookup_lt id i l r p m) ∙ h)) in
        (pl, place_lt id i l r p m ∙ e, k))
  | inr (inl m) ↦ let g = sym (lookup_eq id i l r p m) ∙ h in cc
  | inr (inr m) ↦
      (let (pl, e, k) =
          below-Inner (right_of p) r (place id r) refl
            (place_found id r (sym (lookup_gt id i l r p m) ∙ h)) in
        (pl, place_gt id i l r p m ∙ e, k))
]

add_step :
    (n : Node) (ci r : ℕ) (c : Client) (pl : Option Place)
    → find ci n.clients ≡ some c
    → n.tree_root ≡ some r
    → find_place (suc (length n.clients)) c.id r n ≡ done pl n
    → client_tree_add ci n ≡ hang ci pl n
unfolding client_tree_add read_client
add_step n ci r c pl e f g = simp (e, f, g, ◌>>=◌)

add_first :
    (n : Node) (ci : ℕ) (c : Client)
    → find ci n.clients ≡ some c
    → n.tree_root ≡ none
    → client_tree_add ci n ≡ done 1 (record n { tree_root = some ci })
unfolding client_tree_add read_client hang assign
add_first n ci c e f = simp (e, f, ◌>>=◌)

-- What the search of a node finds, where the tree is no deeper than there are clients.
client_tree_search-lookup :
    (id : List ℕ) (n : Node) (t : Bst)
    → Represents n.clients n.tree_root t
    → depth t ≤ length n.clients
    → client_tree_search id n ≡ done (lookup id t) n
unfolding client_tree_search
client_tree_search-lookup id n t h d =
    rw (search_from-lookup (suc (length n.clients)) id n.tree_root t n.clients h (omega arith)) refl

-- The stores of `client_tree_add` where the tree is not empty.
add_below :
    (n : Node) (t : Bst) (ci r : ℕ) (c : Client)
    → n.tree_root ≡ some r
    → Represents n.clients n.tree_root t
    → Apart t
    → holds ci t ≡ false
    → find ci n.clients ≡ some c
    → c.left ≡ none
    → c.right ≡ none
    → lookup c.id t ≡ none
    → depth t ≤ length n.clients
    → (cs : List Client) × (client_tree_add ci n ≡ done 1 (record n { clients = cs }))
      × Represents cs n.tree_root (insert c.id ci t)
      × (length cs ≡ length n.clients)
unfolding Inner Placed Inserted stored
add_below n leaf ci r c g s a o f nl nr e d = let k = sym g ∙ s in cc
add_below n (node l p i q) ci r c g s a o f nl nr e d =
    let t : Bst = node l p i q in
    let (pl, m, k) = place_found c.id t e in
    let h : holds (parent pl ci) t ≡ true = place-Placed c.id ci pl t m in
    let (cu, j) = holds-find n.clients n.tree_root t (parent pl ci) s h in
    let ne' : (parent pl ci == ci) ≡ false = differ (parent pl ci) ci t h o in
    let hung = stored-Hung pl ci cu c n.clients j (child_ptr pl ci cu) f ne' nl nr in
    let d' : Client = child pl ci cu in
    let f' : find ci (replace d' n.clients) ≡ some c =
      find_off ci d' n.clients
        (ground (arith, child_ptr pl ci cu, find-key (parent pl ci) n.clients j, ne'))
      ∙ f in
    let found : find_place (suc (length n.clients)) c.id r n ≡ done (some pl) n =
      find_place-place (suc (length n.clients)) c.id n r t
        (subst (λ x. Represents n.clients x t) g s) (omega arith)
      ∙ ap (λ x. done x n) m in
    (
      stored pl ci cu c n.clients,
      add_step n ci r c (some pl) f g found ∙ hang-stored pl ci cu c n k j f',
      inserted n.clients (stored pl ci cu c n.clients) pl ci c.id n.tree_root t hung s o a m,
      length-replace (record c { up = some (parent pl ci) }) (replace d' n.clients)
          ∙ length-replace d' n.clients,
    )

-- What a search finds when a client has been added, given what it found before.
abbrev pub found_after : List ℕ → List ℕ → ℕ → Option ℕ → Option ℕ
found_after j id ci before = if id_eq j id then some ci else before

lookup-insert :
    (id j : List ℕ) (ci : ℕ) (t : Bst)
    → lookup id t ≡ none
    → lookup j (insert id ci t) ≡ found_after j id ci (lookup j t)
lookup-insert id j ci t e = elim (Ordering-cases (memcmp j id)) [
  | inl m ↦ lookup-insert_other id j ci t (λ k. cc) ∙ rw (m, id_eq) refl
  | inr (inl m) ↦
      ap (λ x. lookup x (insert id ci t)) (memcmp-eq j id m)
      ∙ lookup-insert_same id ci t e
      ∙ rw (m, id_eq) refl
  | inr (inr m) ↦ lookup-insert_other id j ci t (λ k. cc) ∙ rw (m, id_eq) refl
]

-- The tree of a node is a search tree, no deeper than there are clients.
pub record TreeOf (n : Node) (t : Bst) : Type 0 where
  pub shape : Represents n.clients n.tree_root t
  pub apart : Apart t
  pub bounded : depth t ≤ length n.clients

-- `client_tree_add` puts a client into the tree that is not in it and whose identifier is not either:
-- it answers 1, the pointers then make up the tree with the identifier inserted, the search for the
-- identifier finds the client, and the search for any other identifier finds what it found before. The
-- tree was less deep than there are clients, each of its clients was at one place, and the new client
-- has no client below it.
pub client_tree_add-insert :
    (n : Node) (t : Bst) (ci : ℕ) (c : Client)
    → TreeOf n t
    → depth t < length n.clients
    → holds ci t ≡ false
    → find ci n.clients ≡ some c
    → c.left ≡ none
    → c.right ≡ none
    → lookup c.id t ≡ none
    → (n' : Node) × (client_tree_add ci n ≡ done 1 n')
      × Represents n'.clients n'.tree_root (insert c.id ci t)
      × ((j : List ℕ) → client_tree_search j n' ≡ done (found_after j c.id ci (lookup j t)) n')
unfolding insert
client_tree_add-insert n leaf ci c h b o f nl nr e =
    let n' : Node = record n { tree_root = some ci } in
    let s : Represents n.clients (some ci) (node leaf ci c.id leaf) = (refl, c, f, refl, nl, nr) in
    (
      n',
      add_first n ci c f h.shape,
      s,
      λ j.
          client_tree_search-lookup j n' (node leaf ci c.id leaf) s (omega arith)
          ∙ ap (λ x. done x n') (lookup-insert c.id j ci leaf e),
    )
client_tree_add-insert n (node l p i r) ci c h b o f nl nr e =
    let t : Bst = node l p i r in
    let (cs, g, s, k) = add_below n t ci p c h.shape.0 h.shape h.apart o f nl nr e h.bounded in
    let n' : Node = record n { clients = cs } in
    (
      n',
      g,
      s,
      λ j.
          client_tree_search-lookup j n' (insert c.id ci t) s
            (omega (arith, depth-insert c.id ci t, k, b))
          ∙ ap (λ x. done x n') (lookup-insert c.id j ci t e),
    )
