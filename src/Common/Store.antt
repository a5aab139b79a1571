-- ===== src/Common/Store.antt =====
-- Structures that the program links into lists and reaches by pointers: a list of records, each with
-- its address. `Keyed` gives the address of a record.
use Prim.Native.Nat.{ℕ, ◌+◌}
use mathlib.Core.Path.{◌≡◌, refl}
use mathlib.Core.Logic.{inl, inr}
use mathlib.Core.Bool.{Bool, true, false, ◌&&◌, ◌||◌}
use mathlib.Core.List.{List, [], ◌∷◌, ◌++◌}
use mathlib.Core.Option.{Option, none, some}
use native.Mathlib.Omega.{arith}
use pica_pica.Common.Tests.{◌==◌, ltb, if◌then◌else◌, Bool-cases}
use pica_pica.Common.Lists.{length}

pub record Keyed (A : Type 0) : Type 0 where
  pub key : A → ℕ

module _ {A : Type 0} ⦃k : Keyed A⦄ where
  -- The record at an address, if it is there.
  unfoldable pub find : ℕ → List A → Option A
  find p [] = none
  find p (a ∷ as') = if k.key a == p then some a else find p as'

  unfoldable pub has : ℕ → List A → Bool
  has p [] = false
  has p (a ∷ as') = if k.key a == p then true else has p as'

  -- A pointer that may be null.
  abbrev pub has? : Option ℕ → List A → Bool
  has? none xs = false
  has? (some p) xs = has p xs

  -- A store through a pointer: the record at the address is given anew.
  unfoldable pub replace : A → List A → List A
  replace b [] = []
  replace b (a ∷ as') = if k.key a == k.key b then b ∷ as' else a ∷ replace b as'

  -- The record at an address is unlinked.
  unfoldable pub remove : ℕ → List A → List A
  remove p [] = []
  remove p (a ∷ as') = if k.key a == p then as' else a ∷ remove p as'

  pub has-replace : (p : ℕ) (b : A) (xs : List A) → has p (replace b xs) ≡ has p xs
  unfolding has replace
  has-replace p b [] = refl
  has-replace p b (a ∷ as') = ground (arith, has-replace p b as')

  pub has-find : (p : ℕ) (xs : List A) → has p xs ≡ true → (a : A) × (find p xs ≡ some a)
  unfolding has find
  has-find p [] h = ground arith
  has-find p (a ∷ as') h = elim (Bool-cases (k.key a == p)) [
    | inl e ↦ (a, rw e)
    | inr e ↦ rw e (has-find p as' (rw e at h))
  ]

  pub find-has : (p : ℕ) (xs : List A) {a : A} → find p xs ≡ some a → has p xs ≡ true
  unfolding has find
  find-has p [] h = ground arith
  find-has p (b ∷ as') {a} h = ground (arith, find-has p as' {a = a})

  pub find-key : (p : ℕ) (xs : List A) {a : A} → find p xs ≡ some a → k.key a ≡ p
  unfolding find
  find-key p [] h = ground arith
  find-key p (b ∷ as') {a} h = ground (arith, find-key p as' {a = a})

  pub has-append : (p : ℕ) (xs ys : List A) → has p (xs ++ ys) ≡ (has p xs || has p ys)
  unfolding has
  has-append p [] ys = refl
  has-append p (a ∷ as') ys = ground (arith, has-append p as' ys)

  pub find-replace :
      (p : ℕ) (b : A) (xs : List A)
      → find p (replace b xs)
        ≡ (if p == k.key b then (if has p xs then some b else none) else find p xs)
  unfolding find has replace
  find-replace p b [] = ground arith
  find-replace p b (a ∷ as') = ground (arith, find-replace p b as')

  -- A test that every record passes.
  unfoldable pub every : (A → Bool) → List A → Bool
  every f [] = true
  every f (a ∷ as') = f a && every f as'

  pub every-find :
      (f : A → Bool) (p : ℕ) (xs : List A) {a : A}
      → every f xs ≡ true
      → find p xs ≡ some a
      → f a ≡ true
  unfolding every find
  every-find f p [] h e = ground arith
  every-find f p (b ∷ as') {a} h e = ground (arith, every-find f p as' {a = a})

  pub every-replace :
      (f : A → Bool) (b : A) (xs : List A)
      → every f xs ≡ true
      → f b ≡ true
      → every f (replace b xs) ≡ true
  unfolding every replace
  every-replace f b [] h e = refl
  every-replace f b (a ∷ as') h e = ground (arith, every-replace f b as')

  pub every-remove :
      (f : A → Bool) (p : ℕ) (xs : List A) → every f xs ≡ true → every f (remove p xs) ≡ true
  unfolding every remove
  every-remove f p [] h = refl
  every-remove f p (a ∷ as') h = ground (arith, every-remove f p as')

  pub every-append :
      (f : A → Bool) (xs ys : List A) → every f (xs ++ ys) ≡ (every f xs && every f ys)
  unfolding every
  every-append f [] ys = refl
  every-append f (a ∷ as') ys = ground (arith, every-append f as' ys)

  pub every-imp :
      (f g : A → Bool) (xs : List A)
      → ((a : A) → f a ≡ true → g a ≡ true)
      → every f xs ≡ true
      → every g xs ≡ true
  unfolding every
  every-imp f g [] i h = refl
  every-imp f g (a ∷ as') i h = ground (arith, i a, every-imp f g as' i)

  pub has?-replace : (p : Option ℕ) (b : A) (xs : List A) → has? p (replace b xs) ≡ has? p xs
  has?-replace none b xs = refl
  has?-replace (some p) b xs = has-replace p b xs

  pub length-replace : (b : A) (xs : List A) → length (replace b xs) ≡ length xs
  unfolding replace
  length-replace b [] = refl
  length-replace b (a ∷ as') = ground (arith, length-replace b as')

  pub length-remove : (p : ℕ) (xs : List A) → has p xs ≡ true → length (remove p xs) + 1 ≡ length xs
  unfolding has remove
  length-remove p [] h = ground arith
  length-remove p (a ∷ as') h = ground (arith, length-remove p as')

  -- A store that keeps what a test reads.
  pub every-replace_at :
      (f : A → Bool) (b : A) (xs : List A) {a : A}
      → every f xs ≡ true
      → find (k.key b) xs ≡ some a
      → (f a ≡ true → f b ≡ true)
      → every f (replace b xs) ≡ true
  every-replace_at f b xs {a} h e g = every-replace f b xs h (g (every-find f (k.key b) xs h e))

  -- A new record stands behind the others, at an address of its own.
  pub has-above : (p : ℕ) (xs : List A) → every (λ a. ltb (k.key a) p) xs ≡ true → has p xs ≡ false
  unfolding every has
  has-above p [] h = refl
  has-above p (a ∷ as') h = ground (arith, has-above p as')

  pub find-append : (p : ℕ) (xs ys : List A) → has p xs ≡ false → find p (xs ++ ys) ≡ find p ys
  unfolding find has
  find-append p [] ys h = refl
  find-append p (a ∷ as') ys h = ground (arith, find-append p as' ys)

  pub replace-append :
      (b : A) (xs ys : List A)
      → has (k.key b) xs ≡ false
      → replace b (xs ++ ys) ≡ xs ++ replace b ys
  unfolding replace has
  replace-append b [] ys h = refl
  replace-append b (a ∷ as') ys h = ground (arith, replace-append b as' ys)

  pub every-append_one :
      (f : A → Bool) (xs : List A) (b : A)
      → every f xs ≡ true
      → f b ≡ true
      → every f (xs ++ (b ∷ [])) ≡ true
  unfolding every
  every-append_one f [] b h g = ground arith
  every-append_one f (a ∷ as') b h g = ground (arith, every-append_one f as' b)

  -- Every record of a list is found in it.
  pub every-has : (xs : List A) → every (λ a. has (k.key a) xs) xs ≡ true
  unfolding every has
  every-has [] = refl
  every-has (a ∷ as') = ground (
    arith,
    every-imp (λ b. has (k.key b) as') (λ b. has (k.key b) (a ∷ as')) as' (λ b h. ground arith)
        (every-has as'),
  )
