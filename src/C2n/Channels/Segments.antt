-- ===== src/C2n/Channels/Segments.antt =====
-- PICA_client.c: the channels that the pointers of a list lead through, and what a write to one of them
-- changes.
use pica_pica.Common.{
  ℕ, ◌≡◌, refl, sym, ap, ◌∙◌, subst, List, [], ◌∷◌, ◌++◌, Bool, true, false, ◌&&◌, ◌||◌, not,
  Option, none, some, ◌==◌, arith, inl, inr, Bool-cases, ==_iff,
}
use pica_pica.C2c.Handshake.{Conn}
use pica_pica.C2n.Channels.{Cell, Channels, update}

-- A channel with its address.
abbrev pub Entry : Type 0
Entry = ℕ × Conn

abbrev pub first : List Entry → Option ℕ → Option ℕ
first [] b = b
first ((p, c) ∷ xs) b = some p

abbrev pub last_of : Option ℕ → List Entry → Option ℕ
last_of a [] = a
last_of a ((p, c) ∷ xs) = last_of (some p) xs

abbrev pub has : ℕ → List Entry → Bool
has p [] = false
has p ((q, c) ∷ xs) = (p == q) || has p xs

abbrev pub distinct : List Entry → Bool
distinct [] = true
distinct ((p, c) ∷ xs) = not (has p xs) && distinct xs

-- The channels between the one at `a` and the one at `b`, with their pointers both ways.
abbrev pub Segment : (ℕ → Option Cell) → Option ℕ → List Entry → Option ℕ → Type 0
Segment h a [] b = Unit {0}
Segment h a ((p, c) ∷ xs) b =
    (h p ≡ some record { conn = c; next = first xs b; prev = a }) × Segment h (some p) xs b

-- The list of a connection is these channels, at different addresses.
pub record Lists (s : Channels) (xs : List Entry) : Type 0 where
  pub segment : Segment s.cells none xs none
  pub head : s.chan_list_head ≡ first xs none
  pub end : s.chan_list_end ≡ last_of none xs
  pub apart : distinct xs ≡ true

pub has-append : (p : ℕ) (xs ys : List Entry) → has p (xs ++ ys) ≡ (has p xs || has p ys)
has-append p [] ys = refl
has-append p ((q, c) ∷ xs) ys = ground (arith, has-append p xs ys)

pub first-append : (xs ys : List Entry) (b : Option ℕ) → first (xs ++ ys) b ≡ first xs (first ys b)
first-append [] ys b = refl
first-append (x ∷ xs) ys b = refl

pub last_of-append :
    (a : Option ℕ) (xs ys : List Entry) → last_of a (xs ++ ys) ≡ last_of (last_of a xs) ys
last_of-append a [] ys = refl
last_of-append a ((p, c) ∷ xs) ys = last_of-append (some p) xs ys

pub update_same : (p : ℕ) (v : Option Cell) (h : ℕ → Option Cell) → update p v h p ≡ v
unfolding update
update_same p v h = ground arith

pub update_other :
    (p q : ℕ) (v : Option Cell) (h : ℕ → Option Cell) → (p == q) ≡ false → update p v h q ≡ h q
unfolding update
update_other p q v h e = ground arith

pub Segment-update :
    (h : ℕ → Option Cell) (a : Option ℕ) (xs : List Entry) (b : Option ℕ) (p : ℕ) (v : Option Cell)
    → has p xs ≡ false
    → Segment h a xs b
    → Segment (update p v h) a xs b
Segment-update h a [] b p v e s = tt
Segment-update h a ((q, c) ∷ xs) b p v e s = (
  update_other p q v h (ground arith) ∙ s.0,
  Segment-update h (some q) xs b p v (ground arith) s.1,
)

pub Segment-split :
    (h : ℕ → Option Cell) (a : Option ℕ) (xs ys : List Entry) (b : Option ℕ)
    → Segment h a (xs ++ ys) b
    → Segment h a xs (first ys b) × Segment h (last_of a xs) ys b
Segment-split h a [] ys b s = (tt, s)
Segment-split h a ((p, c) ∷ xs) ys b s =
    let (l, r) = Segment-split h (some p) xs ys b s.1 in
    ((s.0 ∙ ap (λ n. some record { conn = c; next = n; prev = a }) (first-append xs ys b), l), r)

pub Segment-append :
    (h : ℕ → Option Cell) (a : Option ℕ) (xs ys : List Entry) (b : Option ℕ)
    → Segment h a xs (first ys b)
    → Segment h (last_of a xs) ys b
    → Segment h a (xs ++ ys) b
Segment-append h a [] ys b l r = r
Segment-append h a ((p, c) ∷ xs) ys b l r = (
  l.0 ∙ ap (λ n. some record { conn = c; next = n; prev = a }) (sym (first-append xs ys b)),
  Segment-append h (some p) xs ys b l.1 r,
)

pub distinct-apart :
    (xs ys : List Entry) (q : ℕ) → distinct (xs ++ ys) ≡ true → has q xs ≡ true → has q ys ≡ false
distinct-apart [] ys q d h = cc
distinct-apart ((p, c) ∷ xs) ys q d h = elim (Bool-cases (q == p)) [
  | inl e ↦
      let i : q ≡ p = (==_iff q p).0 e in
      subst (λ r. has r ys ≡ false) (sym i) (ground (arith, has-append p xs ys))
  | inr e ↦ distinct-apart xs ys q (ground arith) (ground (arith, h))
]

pub distinct-left : (xs ys : List Entry) → distinct (xs ++ ys) ≡ true → distinct xs ≡ true
distinct-left [] ys d = refl
distinct-left ((p, c) ∷ xs) ys d = ground (arith, has-append p xs ys, distinct-left xs ys)

pub distinct-right : (xs ys : List Entry) → distinct (xs ++ ys) ≡ true → distinct ys ≡ true
distinct-right [] ys d = d
distinct-right ((p, c) ∷ xs) ys d = ground (arith, distinct-right xs ys)

pub distinct-remove :
    (xs ys : List Entry) (p : ℕ) (c : Conn)
    → distinct (xs ++ ((p, c) ∷ ys)) ≡ true
    → (distinct (xs ++ ys) ≡ true) × (has p (xs ++ ys) ≡ false)
distinct-remove [] ys p c d = (ground arith, ground arith)
distinct-remove ((q, e) ∷ xs) ys p c d =
    let (d', i) = distinct-remove xs ys p c (ground arith) in
    (
      ground (arith, has-append q xs ((p, c) ∷ ys), has-append q xs ys),
      ground (arith, has-append q xs ((p, c) ∷ ys)),
    )

-- The last channel of a segment, and a write to its `next`.
pub last-has :
    (a : Option ℕ) (p : ℕ) (c : Conn) (xs : List Entry)
    → (q : ℕ) × (last_of a ((p, c) ∷ xs) ≡ some q) × (has q ((p, c) ∷ xs) ≡ true)
last-has a p c [] = (p, refl, ground arith)
last-has a p c ((r, d) ∷ xs) = let (q, e, i) = last-has (some p) r d xs in (q, e, ground arith)

behind : (q : ℕ) (x : Entry) (xs : List Entry) → has q xs ≡ true → has q (x ∷ xs) ≡ true
behind q x xs h = ground (arith, h)

pub has_ne : (p q : ℕ) (xs : List Entry) → has p xs ≡ false → has q xs ≡ true → (q == p) ≡ false
has_ne p q xs h k = elim (Bool-cases (q == p)) [
  | inl e ↦ let i : q ≡ p = (==_iff q p).0 e in cc
  | inr e ↦ e
]

head_apart : (p : ℕ) (c : Conn) (xs : List Entry) → distinct ((p, c) ∷ xs) ≡ true → has p xs ≡ false
head_apart p c xs d = ground arith

tail_distinct : (x : Entry) (xs : List Entry) → distinct (x ∷ xs) ≡ true → distinct xs ≡ true
tail_distinct x xs d = ground arith

pub Segment-last :
    (h : ℕ → Option Cell) (a : Option ℕ) (p : ℕ) (c : Conn) (xs : List Entry) (b b' : Option ℕ)
    → Segment h a ((p, c) ∷ xs) b
    → distinct ((p, c) ∷ xs) ≡ true
    → (q : ℕ) × (cell : Cell) × (last_of a ((p, c) ∷ xs) ≡ some q)
      × (has q ((p, c) ∷ xs) ≡ true)
      × (h q ≡ some cell)
      × Segment (update q (some (record cell { next = b' })) h) a ((p, c) ∷ xs) b'
Segment-last h a p c [] b b' s d =
    (p, record { conn = c; next = b; prev = a }, refl, ground arith, s.0, (update_same p _ h, tt))
Segment-last h a p c ((r, e) ∷ xs) b b' s d =
    let (q, cell, l, i, k, t) =
      Segment-last h (some p) r e xs b b' s.1 (tail_distinct (p, c) ((r, e) ∷ xs) d) in
    let v = some (record cell { next = b' }) in
    (
      q,
      cell,
      l,
      behind q (p, c) ((r, e) ∷ xs) i,
      k,
      (update_other q p v h (has_ne p q ((r, e) ∷ xs) (head_apart p c ((r, e) ∷ xs) d) i) ∙ s.0, t),
    )

-- A write to the `prev` of the first channel of a segment.
pub Segment-first :
    (h : ℕ → Option Cell) (a a' : Option ℕ) (p : ℕ) (c : Conn) (xs : List Entry) (b : Option ℕ)
    → Segment h a ((p, c) ∷ xs) b
    → distinct ((p, c) ∷ xs) ≡ true
    → Segment
        (update p (some record { conn = c; next = first xs b; prev = a' }) h)
        a'
        ((p, c) ∷ xs)
        b
Segment-first h a a' p c xs b s d =
    (update_same p _ h, Segment-update h (some p) xs b p _ (ground arith) s.1)
