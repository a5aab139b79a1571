-- ===== src/Node/Newconns.antt =====
-- PICA_node.c: the array of new connections, `newconns_init` and `newconn_add`. An entry is given by
-- whether it has a socket and by its time stamp. `newconn_close` of the entry that is given up is in
-- the answer: which entry it closes, if any.
pub mod Bounds
use pica_pica.Common.{
  ℕ, zero, suc, ◌+◌, List, [], ◌∷◌, Bool, true, false, ◌&&◌, not, Option, none, some, ◌==◌, ltb,
  if◌then◌else◌, length, get_elem?, set, replicate,
}

abbrev pub max_newconns : ℕ
max_newconns = 64

-- `sck` is `none` for -1.
pub record Slot : Type 0 where
  pub sck : Option ℕ
  pub tmst : ℕ

abbrev pub is_free : Slot → Bool
is_free s = elim s.sck [ none ↦ true | some _ ↦ false ]

abbrev pub newconns_init : List Slot
newconns_init = replicate max_newconns (record { sck = none; tmst = 0 })

-- The `while` of `newconn_add` from an index on: the index where it ends, and `min_pos`.
unfoldable pub scan : List Slot → ℕ → ℕ → ℕ → ℕ × ℕ
scan [] pos min min_pos = (pos, min_pos)
scan (s ∷ ss) pos min min_pos =
    let older = scan ss (suc pos) s.tmst pos in
    let rest = scan ss (suc pos) min min_pos in
    if is_free s then (pos, min_pos) else (if ltb s.tmst min then older else rest)

-- The answer: the entry that was closed, the entry that is given, the array, and `*pos`.
pub record Added : Type 0 where
  pub closed : Option ℕ
  pub index : ℕ
  pub slots : List Slot
  pub pos : ℕ

-- The stores behind the label `ret`.
abbrev pub take_slot : List Slot → Option ℕ → ℕ → ℕ → Added
take_slot slots closed index now = record {
  closed = closed;
  index = index;
  slots = set slots index (record { sck = none; tmst = now });
  pos = suc index;
}

abbrev pub first_tmst : List Slot → ℕ
first_tmst [] = 0
first_tmst (s ∷ ss) = s.tmst

abbrev pub free_at : List Slot → ℕ → Bool
free_at slots pos = elim (get_elem? slots pos) [ none ↦ false | some s ↦ is_free s ]

-- The `else` branch.
abbrev pub after_scan : List Slot → ℕ → ℕ × ℕ → Added
after_scan slots now (pos, min_pos) =
    if pos == length slots
    then take_slot slots (some min_pos) min_pos now
    else take_slot slots none pos now

unfoldable pub newconn_add : List Slot → ℕ → ℕ → Added
newconn_add slots pos now =
    if ltb pos (length slots) && free_at slots pos
    then take_slot slots none pos now
    else after_scan slots now (scan slots 0 (first_tmst slots) 0)
