-- ===== src/Node/Ids.antt =====
-- Identifiers of users: 28 bytes (PICA_id.h), compared by `memcmp`.
use Prim.Native.Nat.{compare, Ordering}
use pica_pica.Common.{
  ◌⊎◌, inl, inr, ℕ, ◌≡◌, refl, List, [], ◌∷◌, Bool, true, false, take, drop, arith,
}

abbrev pub id_size : ℕ
id_size = 28

-- `memcmp` of two areas of one size: the order of the first bytes that differ.
unfoldable pub memcmp : List ℕ → List ℕ → Ordering
memcmp [] [] = Ordering.eq
memcmp [] (y ∷ ys) = Ordering.lt
memcmp (x ∷ xs) [] = Ordering.gt
memcmp (x ∷ xs) (y ∷ ys) = elim (compare x y) [
  | Ordering.lt ↦ Ordering.lt
  | Ordering.eq ↦ memcmp xs ys
  | Ordering.gt ↦ Ordering.gt
]

-- `memcmp(a, b, PICA_ID_SIZE) == 0`.
abbrev pub id_eq : List ℕ → List ℕ → Bool
id_eq a b = elim (memcmp a b) [ Ordering.eq ↦ true | _ ↦ false ]

-- The first identifier of a message, `buf + 2`, and the second.
abbrev pub first_id : List ℕ → List ℕ
first_id buf = take id_size (drop 2 buf)

abbrev pub second_id : List ℕ → List ℕ
second_id buf = take id_size (drop 30 buf)

pub memcmp-eq : (a b : List ℕ) → memcmp a b ≡ Ordering.eq → a ≡ b
unfolding memcmp
memcmp-eq [] [] h = refl
memcmp-eq [] (y ∷ b) h = ground arith
memcmp-eq (x ∷ a) [] h = ground arith
memcmp-eq (x ∷ a) (y ∷ b) h = ground (arith, memcmp-eq a b)

pub memcmp_refl : (a : List ℕ) → memcmp a a ≡ Ordering.eq
unfolding memcmp
memcmp_refl [] = refl
memcmp_refl (x ∷ a) = ground (arith, memcmp_refl a)

pub memcmp_flip : (a b : List ℕ) → memcmp a b ≡ Ordering.gt → memcmp b a ≡ Ordering.lt
unfolding memcmp
memcmp_flip [] [] h = ground arith
memcmp_flip [] (y ∷ b) h = ground arith
memcmp_flip (x ∷ a) [] h = refl
memcmp_flip (x ∷ a) (y ∷ b) h = ground (arith, memcmp_flip a b)

pub memcmp_trans :
    (a b c : List ℕ)
    → memcmp a b ≡ Ordering.lt
    → memcmp b c ≡ Ordering.lt
    → memcmp a c ≡ Ordering.lt
unfolding memcmp
memcmp_trans [] b [] h k = ground (arith, memcmp_refl b)
memcmp_trans [] b (z ∷ c) h k = refl
memcmp_trans (x ∷ a) [] c h k = ground arith
memcmp_trans (x ∷ a) (y ∷ b) [] h k = ground arith
memcmp_trans (x ∷ a) (y ∷ b) (z ∷ c) h k = ground (arith, memcmp_trans a b c)

pub id_eq_iff : (a b : List ℕ) → id_eq a b ≡ true → a ≡ b
id_eq_iff a b h = ground (arith, memcmp-eq a b)

pub Ordering-cases : (o : Ordering) → (o ≡ Ordering.lt) ⊎ (o ≡ Ordering.eq) ⊎ (o ≡ Ordering.gt)
Ordering-cases Ordering.lt = inl refl
Ordering-cases Ordering.eq = inr (inl refl)
Ordering-cases Ordering.gt = inr (inr refl)
