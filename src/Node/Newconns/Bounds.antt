-- ===== src/Node/Newconns/Bounds.antt =====
-- PICA_node.c: which entry `newconn_add` gives.
use pica_pica.Common.{
  ℕ, suc, ◌+◌, ◌<◌, ◌≡◌, refl, List, [], ◌∷◌, Bool, true, false, ◌&&◌, not, none, some, ◌==◌, ltb,
  leb, length, get_elem?, arith, ◌⊎◌, inl, inr, Bool-cases, ltb→lt,
}
use pica_pica.Node.Newconns.{
  Slot, is_free, scan, Added, first_tmst, free_at, after_scan, newconn_add,
}

-- Whether every entry has a socket, and none is older than `t`.
unfoldable pub busy_since : ℕ → List Slot → Bool
busy_since t [] = true
busy_since t (s ∷ ss) = not (is_free s) && leb t s.tmst && busy_since t ss

abbrev tmst_at : List Slot → ℕ → ℕ
tmst_at slots i = elim (get_elem? slots i) [ none ↦ 0 | some s ↦ s.tmst ]

-- The outcome of `scan` from an index on: it ends at a free entry, or past the end, and then all
-- entries are busy and none is older than the least of them and `min`.
abbrev ScanEnds : List Slot → ℕ → ℕ → ℕ → ℕ × ℕ → Type 0
ScanEnds slots pos min min_pos r =
    ((i : ℕ) × (r.0 ≡ pos + i) × (i < length slots) × (free_at slots i ≡ true))
    ⊎ ((r.0 ≡ pos + length slots) × (r.1 ≡ min_pos) × (busy_since min slots ≡ true))
    ⊎ ((r.0 ≡ pos + length slots)
        × ((j : ℕ) × (r.1 ≡ pos + j)
            × (j < length slots)
            × (tmst_at slots j < min)
            × (busy_since (tmst_at slots j) slots ≡ true)))

scan-ScanEnds :
    (slots : List Slot) (pos min min_pos : ℕ)
    → ScanEnds slots pos min min_pos (scan slots pos min min_pos)
unfolding scan busy_since
scan-ScanEnds [] pos min min_pos = inr (inl (omega arith, refl, refl))
scan-ScanEnds (s ∷ ss) pos min min_pos = elim (Bool-cases (is_free s)) [
  | inl free ↦ rw free (inl (0, omega arith, omega arith, free))
  | inr busy ↦ elim (Bool-cases (ltb s.tmst min)) [
    | inl older ↦
        rw (busy, older)
          (elim (scan-ScanEnds ss (suc pos) s.tmst pos) [
            | inl (i, at, within, free) ↦ inl (suc i, omega (arith, at), omega arith, free)
            | inr (inl (at, m, b)) ↦ inr (
                inr (
                  omega (arith, at),
                  (0, omega (arith, m), omega arith, ltb→lt _ _ older, ground (arith, b)),
                ))
            | inr (inr (at, (j, m, within, less, b))) ↦ inr (
                inr (
                  omega (arith, at),
                  (
                    suc j,
                    omega (arith, m),
                    omega arith,
                    omega (arith, less, ltb→lt _ _ older),
                    ground (arith, b, less),
                  ),
                ))
          ])
    | inr younger ↦
        rw (busy, younger)
          (elim (scan-ScanEnds ss (suc pos) min min_pos) [
            | inl (i, at, within, free) ↦ inl (suc i, omega (arith, at), omega arith, free)
            | inr (inl (at, m, b)) ↦ inr (inl (omega (arith, at), m, ground (arith, b)))
            | inr (inr (at, (j, m, within, less, b))) ↦ inr (
                inr (
                  omega (arith, at),
                  (suc j, omega (arith, m), omega arith, less, ground (arith, b, less)),
                ))
          ])
  ]
]

-- The outcome of `newconn_add`: an entry of the array, the one behind it for the next call, and
-- either the entry was free and none is closed, or it is closed, every entry is in use, and none is
-- older than it.
pub record Gives (slots : List Slot) (r : Added) : Type 0 where
  pub within : r.index < length slots
  pub next : r.pos ≡ suc r.index
  pub choice :
      ((r.closed ≡ none) × (free_at slots r.index ≡ true))
      ⊎ ((r.closed ≡ some r.index) × (busy_since (tmst_at slots r.index) slots ≡ true))

after_scan-free :
    (slots : List Slot) (now : ℕ) (r : ℕ × ℕ)
    → r.0 < length slots
    → free_at slots r.0 ≡ true
    → Gives slots (after_scan slots now r)
after_scan-free slots now (pos, min_pos) within free =
    let apart : (pos == length slots) ≡ false = ground (arith, within) in
    rw apart (record { within = within; next = refl; choice = inl (refl, free) })

after_scan-full :
    (slots : List Slot) (now : ℕ) (r : ℕ × ℕ)
    → r.0 ≡ length slots
    → r.1 < length slots
    → busy_since (tmst_at slots r.1) slots ≡ true
    → Gives slots (after_scan slots now r)
after_scan-full slots now (pos, min_pos) at within busy =
    let full : (pos == length slots) ≡ true = ground (arith, at) in
    rw full (record { within = within; next = refl; choice = inr (refl, busy) })

tmst_at-first : (slots : List Slot) → tmst_at slots 0 ≡ first_tmst slots
tmst_at-first [] = refl
tmst_at-first (s ∷ ss) = refl

-- `newconn_add` gives an entry of the array: a free one, if there is one, and nothing is closed;
-- else the entry that has waited longest, whose connection is closed. The array must not be empty.
pub newconn_add-Gives :
    (slots : List Slot) (pos now : ℕ) → 0 < length slots → Gives slots (newconn_add slots pos now)
unfolding newconn_add
newconn_add-Gives slots pos now h =
    elim (Bool-cases (ltb pos (length slots) && free_at slots pos)) [
      | inl here ↦ rw here (record {
        within = ground (arith, here);
        next = refl;
        choice = inl (refl, ground (arith, here));
      })
      | inr other ↦ rw other (elim (scan-ScanEnds slots 0 (first_tmst slots) 0) [
        | inl (i, at, within, free) ↦
            let here : (scan slots 0 (first_tmst slots) 0).0 ≡ i = omega (arith, at) in
            after_scan-free slots now _ (rw here within) (rw here free)
        | inr (inl (at, m, b)) ↦
            after_scan-full slots now _ (omega (arith, at)) (rw m h) (rw (m, tmst_at-first slots) b)
        | inr (inr (at, (j, m, within, less, b))) ↦
            let here : (scan slots 0 (first_tmst slots) 0).1 ≡ j = omega (arith, m) in
            after_scan-full slots now _ (omega (arith, at)) (rw here within) (rw here b)
      ])
    ]
