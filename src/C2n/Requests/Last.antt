-- ===== src/C2n/Requests/Last.antt =====
-- PICA_client.c: the loop from `chan_list_end` to the last channel for a peer.
use pica_pica.Common.{
  ℕ, zero, suc, ◌+◌, ◌≤◌, ◌≡◌, refl, sym, ap, ◌∙◌, List, [], ◌∷◌, ◌++◌, Bool, true, false, ◌&&◌,
  not, Option, none, some, if◌then◌else◌, arith, inl, inr, Bool-cases, length,
}
use pica_pica.Node.Ids.{id_eq}
use pica_pica.C2n.Channels.{Cell, Channels, and_then}
use pica_pica.C2n.Channels.Segments.{Entry, first, last_of, Segment, Lists}
use pica_pica.C2n.Requests.{last_for}

-- No channel of a list is for the peer.
abbrev pub others : List ℕ → List Entry → Bool
others id [] = true
others id ((p, c) ∷ xs) = not (id_eq c.peer_id id) && others id xs

found : List ℕ → List Entry → Option ℕ
found id [] = none
found id ((p, c) ∷ xs) = let rest = found id xs in if id_eq c.peer_id id then some p else rest

rev_onto : List Entry → List Entry → List Entry
rev_onto [] ws = ws
rev_onto (x ∷ xs) ws = rev_onto xs (x ∷ ws)

-- The channels of a segment from its end to its beginning.
Backwards : (ℕ → Option Cell) → Option ℕ → List Entry → Option ℕ → Type 0
Backwards h b [] a = Unit {0}
Backwards h b ((p, c) ∷ rs) a =
    (h p ≡ some record { conn = c; next = b; prev = first rs a }) × Backwards h (some p) rs a

Segment-Backwards :
    (h : ℕ → Option Cell) (a : Option ℕ) (xs ws : List Entry) (b : Option ℕ)
    → Segment h a xs b
    → a ≡ first ws none
    → Backwards h (first xs b) ws none
    → Backwards h b (rev_onto xs ws) none
unfolding rev_onto Backwards
Segment-Backwards h a [] ws b s e k = k
Segment-Backwards h a ((p, c) ∷ xs) ws b s e k =
    Segment-Backwards h (some p) xs ((p, c) ∷ ws) b s.1 refl
      (s.0 ∙ ap (λ o. some record { conn = c; next = first xs b; prev = o }) e, k)

first_rev : (xs ws : List Entry) → first (rev_onto xs ws) none ≡ last_of (first ws none) xs
unfolding rev_onto
first_rev [] ws = refl
first_rev ((p, c) ∷ xs) ws = first_rev xs ((p, c) ∷ ws)

length_rev : (xs ws : List Entry) → length (rev_onto xs ws) ≡ length xs + length ws
unfolding rev_onto
length_rev [] ws = omega arith
length_rev (x ∷ xs) ws = omega (arith, length_rev xs (x ∷ ws))

rev_append : (xs ys ws : List Entry) → rev_onto (xs ++ ys) ws ≡ rev_onto ys (rev_onto xs ws)
unfolding rev_onto
rev_append [] ys ws = refl
rev_append (x ∷ xs) ys ws = rev_append xs ys (x ∷ ws)

found_others :
    (id : List ℕ) (ys ws : List Entry)
    → others id ys ≡ true
    → found id (rev_onto ys ws) ≡ found id ws
unfolding rev_onto found
found_others id [] ws h = refl
found_others id ((p, c) ∷ ys) ws h =
    let e : id_eq c.peer_id id ≡ false = ground arith in
    found_others id ys ((p, c) ∷ ws) (ground (arith, h)) ∙ rw e refl

last_for_step :
    (fuel p : ℕ) (id : List ℕ) (l : Channels) (cell : Cell)
    → l.cells p ≡ some cell
    → last_for (suc fuel) id (some p) l
      ≡ (if id_eq cell.conn.peer_id id then some (some p) else last_for fuel id cell.prev l)
unfolding last_for
last_for_step fuel p id l cell e = rw (e, and_then) refl

last_for-found :
    (fuel : ℕ) (id : List ℕ) (l : Channels) (b : Option ℕ) (rs : List Entry)
    → Backwards l.cells b rs none
    → length rs ≤ fuel
    → last_for fuel id (first rs none) l ≡ some (found id rs)
unfolding last_for Backwards found
last_for-found fuel id l b [] k le = refl
last_for-found zero id l b ((p, c) ∷ rs) k le = elim le [ ]
last_for-found (suc fuel) id l b ((p, c) ∷ rs) k le =
    last_for_step fuel p id l record { conn = c; next = b; prev = first rs none } k.0
    ∙ elim (Bool-cases (id_eq c.peer_id id)) [
      | inl e ↦ rw e refl
      | inr e ↦ rw e (last_for-found fuel id l (some p) rs k.1 (omega arith))
    ]

last_for_walks :
    (fuel : ℕ) (id : List ℕ) (l : Channels) (xs : List Entry)
    → Lists l xs
    → length xs ≤ fuel
    → last_for fuel id l.chan_list_end l ≡ some (found id (rev_onto xs []))
unfolding Backwards
last_for_walks fuel id l xs h le =
    ap (λ o. last_for fuel id o l) (h.end ∙ sym (first_rev xs []))
    ∙ last_for-found fuel id l none (rev_onto xs [])
        (Segment-Backwards l.cells none xs [] none h.segment refl tt)
        (omega (arith, length_rev xs []))

-- The channel behind which no channel is for the peer.
pub last_for_one :
    (fuel : ℕ) (id : List ℕ) (l : Channels) (xs ys : List Entry) (x : Entry)
    → Lists l (xs ++ (x ∷ ys))
    → id_eq x.1.peer_id id ≡ true
    → others id ys ≡ true
    → length (xs ++ (x ∷ ys)) ≤ fuel
    → last_for fuel id l.chan_list_end l ≡ some (some x.0)
unfolding found rev_onto
last_for_one fuel id l xs ys (p, c) h e o le =
    last_for_walks fuel id l (xs ++ ((p, c) ∷ ys)) h le
    ∙ ap some (
        ap (found id) (rev_append xs ((p, c) ∷ ys) [])
        ∙ found_others id ys ((p, c) ∷ rev_onto xs []) o
        ∙ rw e refl)

pub last_for_nothing :
    (fuel : ℕ) (id : List ℕ) (l : Channels) (xs : List Entry)
    → Lists l xs
    → others id xs ≡ true
    → length xs ≤ fuel
    → last_for fuel id l.chan_list_end l ≡ some none
unfolding found
last_for_nothing fuel id l xs h o le =
    last_for_walks fuel id l xs h le ∙ ap some (found_others id xs [] o)
