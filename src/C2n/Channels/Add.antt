-- ===== src/C2n/Channels/Add.antt =====
-- PICA_client.c: a new channel in the list, `c2n_alloc_c2c`, and the search of `find_matching_c2c`.
use pica_pica.Common.{
  ℕ, zero, suc, ◌≤◌, ◌≡◌, refl, sym, ap, ◌∙◌, List, [], ◌∷◌, ◌++◌, true, false, ◌&&◌, Option, none,
  some, ◌==◌, if◌then◌else◌, arith, inl, inr, Bool-cases, ==_iff, length,
}
use pica_pica.Node.Ids.{id_eq}
use pica_pica.C2c.Direct.{is_waitingincoming}
use pica_pica.C2c.Handshake.{Conn}
use pica_pica.C2n.Channels.{
  Cell, Channels, update, set_next, and_then, link_channel, find_matching_c2c,
}
use pica_pica.C2n.Channels.Segments.{
  Entry, first, has, distinct, Segment, Lists, has-append, last_of-append, update_same,
  Segment-update, Segment-append, Segment-last,
}
use pica_pica.C2n.Channels.Close.{set_next_step}

-- An address that is free is not in the list.
free_fresh :
    (h : ℕ → Option Cell) (a : Option ℕ) (xs : List Entry) (b : Option ℕ) (p : ℕ)
    → Segment h a xs b
    → h p ≡ none
    → has p xs ≡ false
free_fresh h a [] b p s e = refl
free_fresh h a ((q, c) ∷ xs) b p s e = elim (Bool-cases (p == q)) [
  | inl i ↦ let k : p ≡ q = (==_iff p q).0 i in cc
  | inr i ↦ rw i (free_fresh h (some q) xs b p s.1 e)
]

link_first :
    (p : ℕ) (c : Conn) (s : Channels)
    → s.chan_list_head ≡ none
    → link_channel p c s
      ≡ some record {
        cells = update p (some record { conn = c; next = none; prev = none }) s.cells;
        chan_list_head = some p;
        chan_list_end = some p;
      }
unfolding link_channel
link_first p c s e = simp (e, link_channel)

link_behind_last :
    (p q r : ℕ) (c : Conn) (s : Channels)
    → s.chan_list_head ≡ some r
    → s.chan_list_end ≡ some q
    → link_channel p c s
      ≡ and_then (set_next q (some p) s) (λ s'. some (record s' {
        cells = update p (some record { conn = c; next = none; prev = some q }) s'.cells;
        chan_list_end = some p;
      }))
unfolding link_channel
link_behind_last p q r c s e f = simp (e, f, link_channel)

distinct_last :
    (xs : List Entry) (p : ℕ) (c : Conn)
    → distinct xs ≡ true
    → has p xs ≡ false
    → distinct (xs ++ ((p, c) ∷ [])) ≡ true
distinct_last [] p c d i = refl
distinct_last ((q, e) ∷ xs) p c d i =
    ground (arith, distinct_last xs p c, has-append q xs ((p, c) ∷ []))

-- A new channel, at an address that was free, comes behind the others, linked both ways.
pub link_channel-Lists :
    (p : ℕ) (c : Conn) (s : Channels) (xs : List Entry)
    → Lists s xs
    → s.cells p ≡ none
    → (s' : Channels) × (link_channel p c s ≡ some s') × Lists s' (xs ++ ((p, c) ∷ []))
link_channel-Lists p c s [] h e = (
  record {
    cells = update p (some record { conn = c; next = none; prev = none }) s.cells;
    chan_list_head = some p;
    chan_list_end = some p;
  },
  link_first p c s h.head,
  record { segment = (update_same p _ s.cells, tt); head = refl; end = refl; apart = refl },
)
link_channel-Lists p c s ((r, d) ∷ xs) h e =
    let i = free_fresh s.cells none ((r, d) ∷ xs) none p h.segment e in
    let (q, cell, l, j, k, t) = Segment-last s.cells none r d xs none (some p) h.segment h.apart in
    let v : Option Cell = some record { conn = c; next = none; prev = some q } in
    let h' : ℕ → Option Cell = update q (some (record cell { next = some p })) s.cells in
    (
      record s { cells = update p v h'; chan_list_end = some p },
      link_behind_last p q r c s h.head (h.end ∙ l)
          ∙ ap
              (λ o.
                and_then {B = Channels} o
                  (λ s'. some (record s' { cells = update p v s'.cells; chan_list_end = some p })))
              (set_next_step q (some p) s cell k),
      record {
        segment =
            Segment-append (update p v h') none ((r, d) ∷ xs) ((p, c) ∷ []) none
              (Segment-update h' none ((r, d) ∷ xs) (some p) p v i t)
              (
                update_same p v h'
                    ∙ ap (λ o. some record { conn = c; next = none; prev = o }) (sym l),
                tt,
              );
        head = h.head;
        end = sym (last_of-append none ((r, d) ∷ xs) ((p, c) ∷ []));
        apart = distinct_last ((r, d) ∷ xs) p c h.apart i;
      },
    )

-- The first channel of a list that waits for an incoming connection and is for a peer.
unfoldable pub matching : List ℕ → List Entry → Option ℕ
matching id [] = none
matching id ((p, c) ∷ xs) =
    let rest = matching id xs in
    if is_waitingincoming c.chan.directc2c_state && id_eq id c.peer_id then some p else rest

find_step :
    (fuel p : ℕ) (id : List ℕ) (s : Channels) (cell : Cell)
    → s.cells p ≡ some cell
    → find_matching_c2c (suc fuel) id (some p) s ≡ (
        if is_waitingincoming cell.conn.chan.directc2c_state && id_eq id cell.conn.peer_id
        then some (some p)
        else find_matching_c2c fuel id cell.next s)
unfolding find_matching_c2c
find_step fuel p id s cell e = rw (e, and_then) refl

find_from :
    (fuel : ℕ) (id : List ℕ) (s : Channels) (a : Option ℕ) (xs : List Entry)
    → Segment s.cells a xs none
    → length xs ≤ fuel
    → find_matching_c2c fuel id (first xs none) s ≡ some (matching id xs)
unfolding matching find_matching_c2c
find_from fuel id s a [] g l = refl
find_from zero id s a ((p, c) ∷ xs) g l = elim l [ ]
find_from (suc fuel) id s a ((p, c) ∷ xs) g l =
    find_step fuel p id s record { conn = c; next = first xs none; prev = a } g.0
    ∙ elim (Bool-cases (is_waitingincoming c.chan.directc2c_state && id_eq id c.peer_id)) [
      | inl e ↦ rw e refl
      | inr e ↦ rw e (find_from fuel id s (some p) xs g.1 (omega arith))
    ]

-- The search for the channel that an incoming direct connection is for ends, and gives the first one in
-- the list that waits for such a connection from the peer with that id, or none where there is none.
pub find_matching_c2c-matching :
    (id : List ℕ) (s : Channels) (xs : List Entry)
    → Lists s xs
    → find_matching_c2c (length xs) id s.chan_list_head s ≡ some (matching id xs)
find_matching_c2c-matching id s xs h =
    ap (λ o. find_matching_c2c (length xs) id o s) h.head
    ∙ find_from (length xs) id s none xs h.segment (omega arith)
