-- ===== src/Node/Tree/Shape.antt =====
-- PICA_node.c: the tree of clients as a search tree, apart from the pointers that make it up, and what
-- a search of it finds.
use Prim.Native.Nat.{Ordering}
use pica_pica.Common.{
  ℕ, zero, suc, ◌<◌, ◌≤◌, ◌≡◌, refl, sym, ap, ◌∙◌, List, Bool, true, false, ◌||◌, Option, none,
  some, ◌==◌, max, arith, inl, inr,
}
use pica_pica.Common.Store.{find}
use pica_pica.Node.Ids.{memcmp, memcmp_refl, Ordering-cases}
use pica_pica.Node.Tree.{search_from}
use pica_pica.Node.Invariant.Stores.{search_lt, search_eq, search_gt}
use pica_pica.Node.State.{Client, client_keyed}

pub data Bst : Type 0 where
  leaf : Bst
  node : Bst → ℕ → List ℕ → Bst → Bst

unfoldable pub lookup : List ℕ → Bst → Option ℕ
lookup id leaf = none
lookup id (node l p i r) =
    let found_l = lookup id l in
    let found_r = lookup id r in
    elim (memcmp id i) [ Ordering.lt ↦ found_l | Ordering.eq ↦ some p | Ordering.gt ↦ found_r ]

unfoldable pub insert : List ℕ → ℕ → Bst → Bst
insert id q leaf = node leaf q id leaf
insert id q (node l p i r) =
    let l' = insert id q l in
    let r' = insert id q r in
    elim (memcmp id i) [
      | Ordering.lt ↦ node l' p i r
      | Ordering.eq ↦ node l p i r
      | Ordering.gt ↦ node l p i r'
    ]

abbrev pub depth : Bst → ℕ
depth leaf = 0
depth (node l p i r) = suc (max (depth l) (depth r))

abbrev pub holds : ℕ → Bst → Bool
holds q leaf = false
holds q (node l p i r) = (q == p) || holds q l || holds q r

-- The clients that the pointer leads to make up the tree.
abbrev pub Represents : List Client → Option ℕ → Bst → Type 0
Represents cs o leaf = o ≡ none
Represents cs o (node l p i r) =
    (o ≡ some p)
    × (c : Client) × (find p cs ≡ some c)
    × (c.id ≡ i)
    × Represents cs c.left l
    × Represents cs c.right r

-- No client is at two places.
abbrev pub Apart : Bst → Type 0
Apart leaf = Unit {0}
Apart (node l p i r) =
    (holds p l ≡ false)
    × (holds p r ≡ false)
    × ((q : ℕ) → holds q l ≡ true → holds q r ≡ false)
    × Apart l
    × Apart r

-- What a lookup and an insertion do at a node.
pub lookup_lt :
    (id i : List ℕ) (l r : Bst) (p : ℕ)
    → memcmp id i ≡ Ordering.lt
    → lookup id (node l p i r) ≡ lookup id l
unfolding lookup
lookup_lt id i l r p m = rw (m, lookup) refl

pub lookup_eq :
    (id i : List ℕ) (l r : Bst) (p : ℕ)
    → memcmp id i ≡ Ordering.eq
    → lookup id (node l p i r) ≡ some p
unfolding lookup
lookup_eq id i l r p m = rw (m, lookup) refl

pub lookup_gt :
    (id i : List ℕ) (l r : Bst) (p : ℕ)
    → memcmp id i ≡ Ordering.gt
    → lookup id (node l p i r) ≡ lookup id r
unfolding lookup
lookup_gt id i l r p m = rw (m, lookup) refl

pub insert_lt :
    (id i : List ℕ) (q : ℕ) (l r : Bst) (p : ℕ)
    → memcmp id i ≡ Ordering.lt
    → insert id q (node l p i r) ≡ node (insert id q l) p i r
unfolding insert
insert_lt id i q l r p m = rw (m, insert) refl

pub insert_eq :
    (id i : List ℕ) (q : ℕ) (l r : Bst) (p : ℕ)
    → memcmp id i ≡ Ordering.eq
    → insert id q (node l p i r) ≡ node l p i r
unfolding insert
insert_eq id i q l r p m = rw (m, insert) refl

pub insert_gt :
    (id i : List ℕ) (q : ℕ) (l r : Bst) (p : ℕ)
    → memcmp id i ≡ Ordering.gt
    → insert id q (node l p i r) ≡ node l p i (insert id q r)
unfolding insert
insert_gt id i q l r p m = rw (m, insert) refl

-- The search of the pointers finds what a lookup in the tree finds.
pub search_from-lookup :
    (fuel : ℕ) (id : List ℕ) (o : Option ℕ) (t : Bst) (cs : List Client)
    → Represents cs o t
    → depth t < fuel
    → search_from fuel id o cs ≡ some (lookup id t)
unfolding search_from lookup
search_from-lookup zero id o t cs h d = elim d [ ]
search_from-lookup (suc fuel) id o leaf cs h d = rw h refl
search_from-lookup (suc fuel) id o (node l p i r) cs (e, c, f, k, hl, hr) d =
    ap (λ x. search_from (suc fuel) id x cs) e ∙ elim (Ordering-cases (memcmp id i)) [
      | inl m ↦
          search_lt fuel id p cs f (ap (memcmp id) k ∙ m)
          ∙ search_from-lookup fuel id c.left l cs hl (omega arith)
          ∙ ap some (sym (lookup_lt id i l r p m))
      | inr (inl m) ↦
          search_eq fuel id p cs f (ap (memcmp id) k ∙ m) ∙ ap some (sym (lookup_eq id i l r p m))
      | inr (inr m) ↦
          search_gt fuel id p cs f (ap (memcmp id) k ∙ m)
          ∙ search_from-lookup fuel id c.right r cs hr (omega arith)
          ∙ ap some (sym (lookup_gt id i l r p m))
    ]

pub lookup-insert_same :
    (id : List ℕ) (q : ℕ) (t : Bst) → lookup id t ≡ none → lookup id (insert id q t) ≡ some q
unfolding lookup insert
lookup-insert_same id q leaf h = lookup_eq id id leaf leaf q (memcmp_refl id)
lookup-insert_same id q (node l p i r) h = elim (Ordering-cases (memcmp id i)) [
  | inl m ↦
      ap (lookup id) (insert_lt id i q l r p m)
      ∙ lookup_lt id i (insert id q l) r p m
      ∙ lookup-insert_same id q l (sym (lookup_lt id i l r p m) ∙ h)
  | inr (inl m) ↦ let e = sym (lookup_eq id i l r p m) ∙ h in cc
  | inr (inr m) ↦
      ap (lookup id) (insert_gt id i q l r p m)
      ∙ lookup_gt id i l (insert id q r) p m
      ∙ lookup-insert_same id q r (sym (lookup_gt id i l r p m) ∙ h)
]

lookup_node :
    (j i : List ℕ) (l l' r r' : Bst) (p : ℕ)
    → lookup j l ≡ lookup j l'
    → lookup j r ≡ lookup j r'
    → lookup j (node l p i r) ≡ lookup j (node l' p i r')
lookup_node j i l l' r r' p e f = elim (Ordering-cases (memcmp j i)) [
  | inl m ↦ lookup_lt j i l r p m ∙ e ∙ sym (lookup_lt j i l' r' p m)
  | inr (inl m) ↦ lookup_eq j i l r p m ∙ sym (lookup_eq j i l' r' p m)
  | inr (inr m) ↦ lookup_gt j i l r p m ∙ f ∙ sym (lookup_gt j i l' r' p m)
]

pub lookup-insert_other :
    (id j : List ℕ) (q : ℕ) (t : Bst)
    → (memcmp j id ≡ Ordering.eq → ⊥)
    → lookup j (insert id q t) ≡ lookup j t
unfolding lookup insert
lookup-insert_other id j q leaf n = elim (Ordering-cases (memcmp j id)) [
  | inl m ↦ lookup_lt j id leaf leaf q m
  | inr (inl m) ↦ elim (n m) [ ]
  | inr (inr m) ↦ lookup_gt j id leaf leaf q m
]
lookup-insert_other id j q (node l p i r) n = elim (Ordering-cases (memcmp id i)) [
  | inl m ↦
      ap (lookup j) (insert_lt id i q l r p m)
      ∙ lookup_node j i (insert id q l) l r r p (lookup-insert_other id j q l n) refl
  | inr (inl m) ↦ ap (lookup j) (insert_eq id i q l r p m)
  | inr (inr m) ↦
      ap (lookup j) (insert_gt id i q l r p m)
      ∙ lookup_node j i l l (insert id q r) r p refl (lookup-insert_other id j q r n)
]

pub depth-insert : (id : List ℕ) (q : ℕ) (t : Bst) → depth (insert id q t) ≤ suc (depth t)
unfolding insert
depth-insert id q leaf = omega arith
depth-insert id q (node l p i r) = elim (Ordering-cases (memcmp id i)) [
  | inl m ↦ omega (arith, ap depth (insert_lt id i q l r p m), depth-insert id q l)
  | inr (inl m) ↦ omega (arith, ap depth (insert_eq id i q l r p m))
  | inr (inr m) ↦ omega (arith, ap depth (insert_gt id i q l r p m), depth-insert id q r)
]
