-- ===== src/Node/Tree/Parent.antt =====
-- PICA_node.c: what the stores of `client_tree_add` change, and what they leave.
use pica_pica.Common.{
  ℕ, ◌≡◌, sym, ◌∙◌, List, true, false, Option, none, some, ◌==◌, arith, inl, inr, ==_iff, some_eq,
  subst, Bool-cases,
}
use pica_pica.Common.Store.{find}
use pica_pica.Node.Ids.{memcmp, Ordering-cases}
use pica_pica.Node.Tree.{Place, root, left_of, right_of}
use pica_pica.Node.Tree.Shape.{Bst, leaf, node, holds, Represents}
use pica_pica.Node.State.{Client, client_keyed}
use pica_pica.Node.Tree.Descent.{below, place, place_lt, place_eq, place_gt}

abbrev pub parent : Place → ℕ → ℕ
parent root p = p
parent (left_of u) p = u
parent (right_of u) p = u

abbrev pub child : Place → ℕ → Client → Client
child root ci c = c
child (left_of u) ci c = record c { left = some ci }
child (right_of u) ci c = record c { right = some ci }

-- What the stores of `hang` change: the parent has the new client at the place, and the new client has
-- no client below it.
pub record Hung (cs cs' : List Client) (pl : Place) (ci : ℕ) (id : List ℕ) : Type 0 where
  pub others : (q : ℕ) → (q == parent pl ci) ≡ false → (q == ci) ≡ false → find q cs' ≡ find q cs
  pub above :
      (c : Client)
      → find (parent pl ci) cs ≡ some c
      → find (parent pl ci) cs' ≡ some (child pl ci c)
  pub new : Client
  pub there : find ci cs' ≡ some new
  pub named : new.id ≡ id
  pub no_left : new.left ≡ none
  pub no_right : new.right ≡ none

pub frame :
    (cs cs' : List Client) (o : Option ℕ) (t : Bst)
    → Represents cs o t
    → ((q : ℕ) → holds q t ≡ true → find q cs' ≡ find q cs)
    → Represents cs' o t
frame cs cs' o leaf h k = h
frame cs cs' o (node l p i r) (e, c, f, g, hl, hr) k = (
  e,
  c,
  k p (ground arith) ∙ f,
  g,
  frame cs cs' c.left l hl (λ q m. k q (ground (arith, m))),
  frame cs cs' c.right r hr (λ q m. k q (ground (arith, m))),
)

-- Two clients, one in a tree and one not, are two.
pub differ : (q p : ℕ) (t : Bst) → holds q t ≡ true → holds p t ≡ false → (q == p) ≡ false
differ q p t h k = elim (Bool-cases (q == p)) [
  | inl e ↦ let g : q ≡ p = (==_iff q p).0 e in cc
  | inr e ↦ e
]

pub flip_ne : (q p : ℕ) → (q == p) ≡ false → (p == q) ≡ false
flip_ne q p e = ground arith

pub not_left :
    (q p : ℕ) (i : List ℕ) (l r : Bst) → holds q (node l p i r) ≡ false → holds q l ≡ false
not_left q p i l r h = ground arith

pub not_right :
    (q p : ℕ) (i : List ℕ) (l r : Bst) → holds q (node l p i r) ≡ false → holds q r ≡ false
not_right q p i l r h = ground arith

pub not_root :
    (q p : ℕ) (i : List ℕ) (l r : Bst) → holds q (node l p i r) ≡ false → (q == p) ≡ false
not_root q p i l r h = ground arith

pub holds_root : (p : ℕ) (i : List ℕ) (l r : Bst) → holds p (node l p i r) ≡ true
holds_root p i l r = ground arith

pub holds_left :
    (q p : ℕ) (i : List ℕ) (l r : Bst) → holds q l ≡ true → holds q (node l p i r) ≡ true
holds_left q p i l r h = ground (arith, h)

pub holds_right :
    (q p : ℕ) (i : List ℕ) (l r : Bst) → holds q r ≡ true → holds q (node l p i r) ≡ true
holds_right q p i l r h = ground (arith, h)

-- The place is below a client of the tree, if it has one.
unfoldable pub Placed : ℕ → Place → Bst → Type 0
Placed ci pl leaf = Unit {0}
Placed ci pl (node l p i r) = holds (parent pl ci) (node l p i r) ≡ true

pub left-Placed :
    (ci : ℕ) (l r : Bst) (p : ℕ) (i : List ℕ) (pl : Place) (o : Option Place)
    → below (left_of p) l o ≡ some pl
    → (o ≡ some pl → Placed ci pl l)
    → holds (parent pl ci) (node l p i r) ≡ true
unfolding Placed
left-Placed ci leaf r p i pl o e k =
    subst (λ x. holds (parent x ci) (node leaf p i r) ≡ true) (some_eq e) (holds_root p i leaf r)
left-Placed ci (node a q j b) r p i pl o e k = holds_left (parent pl ci) p i (node a q j b) r (k e)

pub right-Placed :
    (ci : ℕ) (l r : Bst) (p : ℕ) (i : List ℕ) (pl : Place) (o : Option Place)
    → below (right_of p) r o ≡ some pl
    → (o ≡ some pl → Placed ci pl r)
    → holds (parent pl ci) (node l p i r) ≡ true
unfolding Placed
right-Placed ci l leaf p i pl o e k =
    subst (λ x. holds (parent x ci) (node l p i leaf) ≡ true) (some_eq e) (holds_root p i l leaf)
right-Placed ci l (node a q j b) p i pl o e k =
    holds_right (parent pl ci) p i l (node a q j b) (k e)

pub place-Placed :
    (id : List ℕ) (ci : ℕ) (pl : Place) (t : Bst) → place id t ≡ some pl → Placed ci pl t
unfolding Placed
place-Placed id ci pl leaf e = tt
place-Placed id ci pl (node l p i r) e = elim (Ordering-cases (memcmp id i)) [
  | inl m ↦
      left-Placed ci l r p i pl (place id l) (sym (place_lt id i l r p m) ∙ e)
        (place-Placed id ci pl l)
  | inr (inl m) ↦ let g = sym (place_eq id i l r p m) ∙ e in cc
  | inr (inr m) ↦
      right-Placed ci l r p i pl (place id r) (sym (place_gt id i l r p m) ∙ e)
        (place-Placed id ci pl r)
]
