-- ===== src/Node/Tree/Add.antt =====
-- PICA_node.c: the stores of `client_tree_add` make the tree one with the client inserted.
use pica_pica.Common.{
  ℕ, ◌≡◌, refl, sym, ap, ◌∙◌, List, Bool, true, false, Option, none, some, ◌==◌, arith, inl, inr,
  some_eq, subst, Bool-cases,
}
use pica_pica.Common.Store.{find, replace, find-replace, find-has, find-key}
use pica_pica.Node.Ids.{memcmp, Ordering-cases}
use pica_pica.Node.Tree.{Place, root, left_of, right_of, assign, hang}
use pica_pica.Node.Tree.Shape.{
  Bst, leaf, node, insert, holds, Represents, Apart, insert_lt, insert_gt,
}
use pica_pica.Node.State.{Client, Node, done, ◌>>=◌, read_client, update_client, client_keyed}
use pica_pica.Node.Tree.Descent.{below, place, place_lt, place_eq, place_gt}
use pica_pica.Node.Tree.Parent.{
  parent, child, frame, differ, flip_ne, not_left, not_right, not_root, Placed, place-Placed, Hung,
}

-- The tree after the stores, if there is one to hang the client in.
unfoldable pub Inserted : List Client → Option ℕ → List ℕ → ℕ → Bst → Type 0
Inserted cs o id ci leaf = Unit {0}
Inserted cs o id ci (node l p i r) = Represents cs o (insert id ci (node l p i r))

-- The new client alone.
alone :
    {cs cs' : List Client} {pl : Place} {ci : ℕ} {id : List ℕ}
    → Hung cs cs' pl ci id
    → Represents cs' (some ci) (node leaf ci id leaf)
alone h = (refl, h.new, h.there, h.named, h.no_left, h.no_right)

-- What is not above the place stays.
kept :
    (cs cs' : List Client) (pl : Place) (ci : ℕ) (id : List ℕ) (o : Option ℕ) (t : Bst)
    → Hung cs cs' pl ci id
    → Represents cs o t
    → holds ci t ≡ false
    → holds (parent pl ci) t ≡ false
    → Represents cs' o t
kept cs cs' pl ci id o t h s a b =
    frame cs cs' o t s (λ q m. h.others q (differ q (parent pl ci) t m b) (differ q ci t m a))

left_inserted :
    (cs cs' : List Client) (pl : Place) (ci : ℕ) (id : List ℕ) (o : Option ℕ) (l r : Bst) (p : ℕ)
    (i : List ℕ)
    → Hung cs cs' pl ci id
    → Represents cs o (node l p i r)
    → holds ci (node l p i r) ≡ false
    → Apart (node l p i r)
    → below (left_of p) l (place id l) ≡ some pl
    → ((o' : Option ℕ) → Represents cs o' l → place id l ≡ some pl → Inserted cs' o' id ci l)
    → Represents cs' o (node (insert id ci l) p i r)
unfolding Inserted Placed insert
left_inserted cs cs' pl ci id o leaf r p i h (e, c, f, g, hl, hr) a (x, y, z, u, v) q k =
    let w : left_of p ≡ pl = some_eq q in
    let b : holds (parent pl ci) r ≡ false = subst (λ n. holds (parent n ci) r ≡ false) w y in
    let d : find p cs' ≡ some (record c { left = some ci }) =
      subst (λ n. (find (parent n ci) cs ≡ some c) → find (parent n ci) cs' ≡ some (child n ci c))
        (sym w) (h.above c) f in
    (
      e,
      record c { left = some ci },
      d,
      g,
      alone h,
      kept cs cs' pl ci id c.right r h hr (not_right ci p i leaf r a) b,
    )
left_inserted cs cs' pl ci id o (node l2 p2 i2 r2) r p i h (e, c, f, g, hl, hr) a (x, y, z, u, v) q
      k =
    let l : Bst = node l2 p2 i2 r2 in
    let m : holds (parent pl ci) l ≡ true = place-Placed id ci pl l q in
    (
      e,
      c,
      h.others p (flip_ne (parent pl ci) p (differ (parent pl ci) p l m x))
            (flip_ne ci p (not_root ci p i l r a))
          ∙ f,
      g,
      k c.left hl q,
      kept cs cs' pl ci id c.right r h hr (not_right ci p i l r a) (z (parent pl ci) m),
    )

apart_left :
    (l r : Bst) (q : ℕ)
    → ((a : ℕ) → holds a l ≡ true → holds a r ≡ false)
    → holds q r ≡ true
    → holds q l ≡ false
apart_left l r q z m = elim (Bool-cases (holds q l)) [
  | inl e ↦ let g = sym m ∙ z q e in cc
  | inr e ↦ e
]

right_inserted :
    (cs cs' : List Client) (pl : Place) (ci : ℕ) (id : List ℕ) (o : Option ℕ) (l r : Bst) (p : ℕ)
    (i : List ℕ)
    → Hung cs cs' pl ci id
    → Represents cs o (node l p i r)
    → holds ci (node l p i r) ≡ false
    → Apart (node l p i r)
    → below (right_of p) r (place id r) ≡ some pl
    → ((o' : Option ℕ) → Represents cs o' r → place id r ≡ some pl → Inserted cs' o' id ci r)
    → Represents cs' o (node l p i (insert id ci r))
unfolding Inserted Placed insert
right_inserted cs cs' pl ci id o l leaf p i h (e, c, f, g, hl, hr) a (x, y, z, u, v) q k =
    let w : right_of p ≡ pl = some_eq q in
    let b : holds (parent pl ci) l ≡ false = subst (λ n. holds (parent n ci) l ≡ false) w x in
    let d : find p cs' ≡ some (record c { right = some ci }) =
      subst (λ n. (find (parent n ci) cs ≡ some c) → find (parent n ci) cs' ≡ some (child n ci c))
        (sym w) (h.above c) f in
    (
      e,
      record c { right = some ci },
      d,
      g,
      kept cs cs' pl ci id c.left l h hl (not_left ci p i l leaf a) b,
      alone h,
    )
right_inserted cs cs' pl ci id o l (node l2 p2 i2 r2) p i h (e, c, f, g, hl, hr) a (x, y, z, u, v) q
      k =
    let r : Bst = node l2 p2 i2 r2 in
    let m : holds (parent pl ci) r ≡ true = place-Placed id ci pl r q in
    (
      e,
      c,
      h.others p (flip_ne (parent pl ci) p (differ (parent pl ci) p r m y))
            (flip_ne ci p (not_root ci p i l r a))
          ∙ f,
      g,
      kept cs cs' pl ci id c.left l h hl (not_left ci p i l r a)
          (apart_left l r (parent pl ci) z m),
      k c.right hr q,
    )

-- The pointers after the stores make up the tree with the client inserted.
pub inserted :
    (cs cs' : List Client) (pl : Place) (ci : ℕ) (id : List ℕ) (o : Option ℕ) (t : Bst)
    → Hung cs cs' pl ci id
    → Represents cs o t
    → holds ci t ≡ false
    → Apart t
    → place id t ≡ some pl
    → Inserted cs' o id ci t
unfolding Inserted
inserted cs cs' pl ci id o leaf h s a d q = tt
inserted cs cs' pl ci id o (node l p i r) h s a d q = elim (Ordering-cases (memcmp id i)) [
  | inl m ↦ subst (Represents cs' o) (sym (insert_lt id i ci l r p m)) (
      left_inserted cs cs' pl ci id o l r p i h s a d (sym (place_lt id i l r p m) ∙ q)
        (λ o' s' q'. inserted cs cs' pl ci id o' l h s' (not_left ci p i l r a) d.3 q'))
  | inr (inl m) ↦ let g = sym (place_eq id i l r p m) ∙ q in cc
  | inr (inr m) ↦ subst (Represents cs' o) (sym (insert_gt id i ci l r p m)) (
      right_inserted cs cs' pl ci id o l r p i h s a d (sym (place_gt id i l r p m) ∙ q)
        (λ o' s' q'. inserted cs cs' pl ci id o' r h s' (not_right ci p i l r a) d.4 q'))
]

find_at :
    (p : ℕ) (d c : Client) (cs : List Client)
    → find p cs ≡ some c
    → d.ptr ≡ p
    → find p (replace d cs) ≡ some d
find_at p d c cs e k = ground (arith, find-replace p d cs, find-has p cs e)

pub find_off :
    (q : ℕ) (d : Client) (cs : List Client)
    → (q == d.ptr) ≡ false
    → find q (replace d cs) ≡ find q cs
find_off q d cs e = find-replace q d cs ∙ rw e refl

update_step :
    (p : ℕ) (f : Client → Client) (n : Node) (c : Client)
    → find p n.clients ≡ some c
    → update_client (some p) f n ≡ done tt (record n { clients = replace (f c) n.clients })
unfolding update_client read_client
update_step p f n c e = rw (e, ◌>>=◌) refl

-- The stores of `hang`: to the parent, and to the new client.
unfoldable pub stored : Place → ℕ → Client → Client → List Client → List Client
stored pl ci cu c cs = replace (record c { up = some (parent pl ci) }) (replace (child pl ci cu) cs)

pub stored-Hung :
    (pl : Place) (ci : ℕ) (cu c : Client) (cs : List Client)
    → find (parent pl ci) cs ≡ some cu
    → (child pl ci cu).ptr ≡ cu.ptr
    → find ci cs ≡ some c
    → (parent pl ci == ci) ≡ false
    → c.left ≡ none
    → c.right ≡ none
    → Hung cs (stored pl ci cu c cs) pl ci c.id
unfolding stored
stored-Hung pl ci cu c cs e k f ne nl nr =
    let u = parent pl ci in
    let d = child pl ci cu in
    let ku : d.ptr ≡ u = k ∙ find-key u cs e in
    let kc : c.ptr ≡ ci = find-key ci cs f in
    let c' = record c { up = some u } in
    let off_u : (q : ℕ) → (q == u) ≡ false → find q (replace d cs) ≡ find q cs =
      λ q n. find_off q d cs (ap (λ x. q == x) ku ∙ n) in
    let off_c : (q : ℕ)
        → (q == ci) ≡ false
        → find q (replace c' (replace d cs)) ≡ find q (replace d cs) =
      λ q n. find_off q c' (replace d cs) (ap (λ x. q == x) kc ∙ n) in
    record {
      others = λ q n m. off_c q m ∙ off_u q n;
      above = λ x g.
          off_c u ne
          ∙ find_at u d cu cs e ku
          ∙ ap (λ y. some (child pl ci y)) (some_eq (sym e ∙ g));
      new = c';
      there = find_at ci c' c (replace d cs) (off_u ci (flip_ne u ci ne) ∙ f) kc;
      named = refl;
      no_left = nl;
      no_right = nr;
    }

unfoldable pub is_root : Place → Bool
is_root root = true
is_root _ = false

pub hang-stored :
    (pl : Place) (ci : ℕ) (cu c : Client) (n : Node)
    → is_root pl ≡ false
    → find (parent pl ci) n.clients ≡ some cu
    → find ci (replace (child pl ci cu) n.clients) ≡ some c
    → hang ci (some pl) n ≡ done 1 (record n { clients = stored pl ci cu c n.clients })
unfolding hang assign stored is_root
hang-stored root ci cu c n b e f = cc
hang-stored (left_of u) ci cu c n b e f =
    let n1 = record n { clients = replace (child (left_of u) ci cu) n.clients } in
    rw (update_step u (λ x. record x { left = some ci }) n cu e, ◌>>=◌)
      (rw (update_step ci (λ x. record x { up = some u }) n1 c f, ◌>>=◌) refl)
hang-stored (right_of u) ci cu c n b e f =
    let n1 = record n { clients = replace (child (right_of u) ci cu) n.clients } in
    rw (update_step u (λ x. record x { right = some ci }) n cu e, ◌>>=◌)
      (rw (update_step ci (λ x. record x { up = some u }) n1 c f, ◌>>=◌) refl)
