-- ===== src/Node/Tree/Descent.antt =====
-- PICA_node.c: the place that `client_tree_add` finds.
use Prim.Native.Nat.{Ordering}
use pica_pica.Common.{
  ℕ, zero, suc, ◌≤◌, ◌≡◌, refl, sym, ap, ◌∙◌, List, Option, none, some, arith, inl, inr, some_eq,
  subst,
}
use pica_pica.Common.Store.{find}
use pica_pica.Node.Ids.{memcmp, Ordering-cases}
use pica_pica.Node.Tree.{Place, root, left_of, right_of, find_place}
use pica_pica.Node.Tree.Shape.{Bst, leaf, node, depth, Represents}
use pica_pica.Node.State.{Client, Node, Run, done, read_client, client_keyed}

-- The place where an insertion puts a new node of a tree that is not empty.
abbrev pub below : Place → Bst → Option Place → Option Place
below pl leaf rest = some pl
below pl (node l p i r) rest = rest

unfoldable pub place : List ℕ → Bst → Option Place
place id leaf = some root
place id (node l p i r) =
    let in_l = place id l in
    let in_r = place id r in
    elim (memcmp id i) [
      | Ordering.lt ↦ below (left_of p) l in_l
      | Ordering.eq ↦ none
      | Ordering.gt ↦ below (right_of p) r in_r
    ]

pub place_lt :
    (id i : List ℕ) (l r : Bst) (p : ℕ)
    → memcmp id i ≡ Ordering.lt
    → place id (node l p i r) ≡ below (left_of p) l (place id l)
unfolding place
place_lt id i l r p m = rw (m, place) refl

pub place_eq :
    (id i : List ℕ) (l r : Bst) (p : ℕ) → memcmp id i ≡ Ordering.eq → place id (node l p i r) ≡ none
unfolding place
place_eq id i l r p m = rw (m, place) refl

pub place_gt :
    (id i : List ℕ) (l r : Bst) (p : ℕ)
    → memcmp id i ≡ Ordering.gt
    → place id (node l p i r) ≡ below (right_of p) r (place id r)
unfolding place
place_gt id i l r p m = rw (m, place) refl

pub find_step_eq :
    (fuel : ℕ) (id : List ℕ) (i : ℕ) (n : Node) (c : Client)
    → find i n.clients ≡ some c
    → memcmp id c.id ≡ Ordering.eq
    → find_place (suc fuel) id i n ≡ done none n
unfolding find_place read_client
find_step_eq fuel id i n c e m = rw (e, find_place) (rw (m, find_place) refl)

pub find_step_lt :
    (fuel : ℕ) (id : List ℕ) (i : ℕ) (n : Node) (c : Client)
    → find i n.clients ≡ some c
    → memcmp id c.id ≡ Ordering.lt
    → find_place (suc fuel) id i n
      ≡ elim c.left [ none ↦ done (some (left_of i)) n | some l ↦ find_place fuel id l n ]
unfolding find_place read_client
find_step_lt fuel id i n c e m = rw (e, find_place) (rw (m, find_place) refl)

pub find_step_gt :
    (fuel : ℕ) (id : List ℕ) (i : ℕ) (n : Node) (c : Client)
    → find i n.clients ≡ some c
    → memcmp id c.id ≡ Ordering.gt
    → find_place (suc fuel) id i n
      ≡ elim c.right [ none ↦ done (some (right_of i)) n | some r ↦ find_place fuel id r n ]
unfolding find_place read_client
find_step_gt fuel id i n c e m = rw (e, find_place) (rw (m, find_place) refl)

-- The next pointer of the descent, in a tree that it represents.
pub descends :
    (fuel : ℕ) (id : List ℕ) (n : Node) (o : Option ℕ) (t : Bst) (pl : Place)
    → Represents n.clients o t
    → ((i : ℕ) → o ≡ some i → find_place fuel id i n ≡ done (place id t) n)
    → elim o as (λ _. Run (Option Place)) [
      | none ↦ done (some pl) n
      | some i ↦ find_place fuel id i n
    ]
      ≡ done (below pl t (place id t)) n
descends fuel id n o leaf pl h k = rw h refl
descends fuel id n o (node l p i r) pl h k = rw (h.0) (k p h.0)

pub find_place-place :
    (fuel : ℕ) (id : List ℕ) (n : Node) (i : ℕ) (t : Bst)
    → Represents n.clients (some i) t
    → depth t ≤ fuel
    → find_place fuel id i n ≡ done (place id t) n
find_place-place fuel id n i leaf h d = cc
find_place-place zero id n i (node l p j r) h d = elim d [ ]
find_place-place (suc fuel) id n i (node l p j r) (e, c, f, k, hl, hr) d =
    ap (λ x. find_place (suc fuel) id x n) (some_eq e) ∙ elim (Ordering-cases (memcmp id j)) [
      | inl m ↦
          find_step_lt fuel id p n c f (ap (memcmp id) k ∙ m)
          ∙ descends fuel id n c.left l (left_of p) hl (λ q g.
            find_place-place fuel id n q l (subst (λ x. Represents n.clients x l) g hl)
              (omega arith))
          ∙ ap (λ x. done x n) (sym (place_lt id j l r p m))
      | inr (inl m) ↦
          find_step_eq fuel id p n c f (ap (memcmp id) k ∙ m)
          ∙ ap (λ x. done x n) (sym (place_eq id j l r p m))
      | inr (inr m) ↦
          find_step_gt fuel id p n c f (ap (memcmp id) k ∙ m)
          ∙ descends fuel id n c.right r (right_of p) hr (λ q g.
            find_place-place fuel id n q r (subst (λ x. Represents n.clients x r) g hr)
              (omega arith))
          ∙ ap (λ x. done x n) (sym (place_gt id j l r p m))
    ]
