-- ===== src/C2n/Channels/Loop.antt =====
-- PICA_client.c: the loop of `PICA_event_loop` over the channels, which closes some of them while it
-- goes along.
use pica_pica.Common.{
  ℕ, zero, suc, ◌+◌, ◌≤◌, ◌≡◌, refl, sym, ap, ◌∙◌, subst, List, [], ◌∷◌, ◌++◌, true, Option, none,
  some, if◌then◌else◌, arith, inl, inr, Bool-cases, length, length-append, some_eq,
}
use mathlib.Core.List.{append_assoc}
use pica_pica.C2c.State.{Code, is_ok}
use pica_pica.C2c.Handshake.{Conn, Trust, Answers, Ran, ran, crashed, ended}
use pica_pica.C2c.Handshake.Process.{process_c2c}
use pica_pica.C2n.Channels.{Cell, Channels, update, and_then, close_c2c, process_channels}
use pica_pica.C2n.Channels.Segments.{
  Entry, first, last_of, distinct, Lists, has-append, first-append, last_of-append, update_same,
  Segment-update, Segment-split, Segment-append, distinct-remove,
}
use pica_pica.C2n.Channels.Close.{cell_of, close_c2c-Lists}

-- What the loop is to do, on the list of the channels: each is processed once, in order, those stay
-- that `process_c2c` does not fail for.
unfoldable pub survivors : Trust → (ℕ → Answers) → List Entry → Option (List Entry)
survivors t ready [] = some []
survivors t ready ((p, c) ∷ xs) =
    let rest = survivors t ready xs in
    elim (process_c2c t (ready p) c) [
      | ran ret c' ↦ and_then rest (λ ys. some (if is_ok ret then (p, c') ∷ ys else ys))
      | crashed ↦ none
      | ended ↦ none
    ]

distinct_conn :
    (xs ys : List Entry) (p : ℕ) (c c' : Conn)
    → distinct (xs ++ ((p, c) ∷ ys)) ≡ true
    → distinct (xs ++ ((p, c') ∷ ys)) ≡ true
distinct_conn [] ys p c c' d = d
distinct_conn ((q, e) ∷ xs) ys p c c' d = ground (
  arith,
  distinct_conn xs ys p c c',
  has-append q xs ((p, c) ∷ ys),
  has-append q xs ((p, c') ∷ ys),
)

abbrev pub rewritten : ℕ → Conn → Cell → Channels → Channels
rewritten p c' cell s = record s { cells = update p (some (record cell { conn = c' })) s.cells }

-- A channel that was processed keeps its place.
pub conn_replaced :
    (s : Channels) (xs ys : List Entry) (p : ℕ) (c c' : Conn)
    → Lists s (xs ++ ((p, c) ∷ ys))
    → Lists
        (rewritten p c' record { conn = c; next = first ys none; prev = last_of none xs } s)
        (xs ++ ((p, c') ∷ ys))
conn_replaced s xs ys p c c' h =
    let cell : Cell = record { conn = c; next = first ys none; prev = last_of none xs } in
    let v : Option Cell = some (record cell { conn = c' }) in
    let (l, r) = Segment-split s.cells none xs ((p, c) ∷ ys) none h.segment in
    let i = (distinct-remove xs ys p c h.apart).1 in
    record {
      segment =
          Segment-append (update p v s.cells) none xs ((p, c') ∷ ys) none
            (Segment-update s.cells none xs (some p) p v (ground (arith, has-append p xs ys)) l)
            (
              update_same p v s.cells,
              Segment-update s.cells (some p) ys none p v (ground (arith, has-append p xs ys)) r.1,
            );
      head =
          h.head ∙ first-append xs ((p, c) ∷ ys) none ∙ sym (first-append xs ((p, c') ∷ ys) none);
      end =
          h.end
          ∙ last_of-append none xs ((p, c) ∷ ys)
          ∙ sym (last_of-append none xs ((p, c') ∷ ys));
      apart = distinct_conn xs ys p c c' h.apart;
    }

-- What the loop does with the next channel.
process_step :
    (walk fuel : ℕ) (t : Trust) (ready : ℕ → Answers) (p : ℕ) (s : Channels) (cell : Cell)
    (ret : Code) (c' : Conn)
    → s.cells p ≡ some cell
    → process_c2c t (ready p) cell.conn ≡ ran ret c'
    → process_channels walk (suc fuel) t ready (some p) s ≡ (
        if is_ok ret
        then process_channels walk fuel t ready cell.next (rewritten p c' cell s)
        else and_then
            (close_c2c walk p (rewritten p c' cell s))
            (process_channels walk fuel t ready cell.next))
unfolding process_channels
process_step walk fuel t ready p s cell ret c' e f = rw (e, and_then) (rw f refl)

abbrev pub stays : Code → Entry → List Entry → List Entry
stays ret x ys = if is_ok ret then x ∷ ys else ys

record Processed (t : Trust) (ready : ℕ → Answers) (p : ℕ) (c : Conn) (xs ys : List Entry)
    : Type 0 where
  ret : Code
  after : Conn
  others : List Entry
  came_back : process_c2c t (ready p) c ≡ ran ret after
  rest : survivors t ready xs ≡ some others
  result : ys ≡ stays ret (p, after) others

inverted_by :
    (t : Trust) (ready : ℕ → Answers) (p : ℕ) (c : Conn) (xs ys : List Entry) (r : Ran)
    (o : Option (List Entry))
    → process_c2c t (ready p) c ≡ r
    → survivors t ready xs ≡ o
    → elim r as (λ _. Option (List Entry)) [
      | ran ret c' ↦ and_then o (λ zs. some (stays ret (p, c') zs))
      | crashed ↦ none
      | ended ↦ none
    ]
      ≡ some ys
    → Processed t ready p c xs ys
inverted_by t ready p c xs ys (ran ret c') (some zs) e f h = record {
  ret = ret;
  after = c';
  others = zs;
  came_back = e;
  rest = f;
  result = sym (some_eq h);
}
inverted_by t ready p c xs ys (ran ret c') none e f h = cc
inverted_by t ready p c xs ys crashed o e f h = cc
inverted_by t ready p c xs ys ended o e f h = cc

inverted :
    (t : Trust) (ready : ℕ → Answers) (p : ℕ) (c : Conn) (xs ys : List Entry)
    → survivors t ready ((p, c) ∷ xs) ≡ some ys
    → Processed t ready p c xs ys
unfolding survivors
inverted t ready p c xs ys h =
    inverted_by t ready p c xs ys (process_c2c t (ready p) c) (survivors t ready xs) refl refl h

Loops :
    (walk fuel : ℕ) (t : Trust) (ready : ℕ → Answers) (s : Channels) (at : Option ℕ)
    (ys : List Entry)
    → Type 0
Loops walk fuel t ready s at ys =
    (s' : Channels) × (process_channels walk fuel t ready at s ≡ some s') × Lists s' ys

process_from :
    (walk fuel : ℕ) (t : Trust) (ready : ℕ → Answers) (s : Channels) (zs xs ys : List Entry)
    → Lists s (zs ++ xs)
    → length zs + length xs ≤ walk
    → length xs ≤ fuel
    → survivors t ready xs ≡ some ys
    → Loops walk fuel t ready s (first xs none) (zs ++ ys)
unfolding process_channels survivors Loops
process_from walk fuel t ready s zs [] ys h w l e =
    (s, refl, subst (λ o. Lists s (zs ++ o)) (some_eq e) h)
process_from walk zero t ready s zs ((p, c) ∷ xs) ys h w l e = elim l [ ]
process_from walk (suc fuel) t ready s zs ((p, c) ∷ xs) ys h w l e =
    let v = inverted t ready p c xs ys e in
    let cell : Cell = record { conn = c; next = first xs none; prev = last_of none zs } in
    let s1 = rewritten p v.after cell s in
    let h1 = conn_replaced s zs xs p c v.after h in
    let f =
      process_step walk fuel t ready p s cell v.ret v.after (cell_of s zs xs p c h) v.came_back in
    elim (Bool-cases (is_ok v.ret)) [
      | inl k ↦
          (let x : List Entry = (p, v.after) ∷ [] in
            let (s2, g, h2) =
              process_from walk fuel t ready s1 (zs ++ x) xs v.others
                (subst (Lists s1) (sym (append_assoc zs x xs)) h1)
                (omega (arith, length-append zs x)) (omega arith) v.rest in
            (
              s2,
              f ∙ rw k g,
              subst (Lists s2)
                  (append_assoc zs x v.others ∙ ap (λ o. zs ++ o) (sym (v.result ∙ rw k refl))) h2,
            ))
      | inr k ↦
          (let (s2, g, i, h2) = close_c2c-Lists walk s1 zs xs p v.after h1 (omega arith) in
            let (s3, g', h3) =
              process_from walk fuel t ready s2 zs xs v.others h2 (omega arith) (omega arith)
                v.rest in
            (
              s3,
              f
                  ∙ rw k (
                      ap (λ o. and_then o (process_channels walk fuel t ready (first xs none))) g
                      ∙ g'),
              subst (Lists s3) (ap (λ o. zs ++ o) (sym (v.result ∙ rw k refl))) h3,
            ))
    ]

-- One round of the event loop over the channels of a connection does, on the pointers, what it is to do
-- on the list: each channel is processed once, in order, those that `process_c2c` fails for are closed
-- and the others stay linked in their order with what it has made of them. The loop comes to its end,
-- and uses no memory that was freed. The channels are at different addresses, `process_c2c` ends the
-- process for none of them and uses no memory that it must not, and the fuel is the number of channels.
pub process_channels-Lists :
    (t : Trust) (ready : ℕ → Answers) (s : Channels) (xs ys : List Entry)
    → Lists s xs
    → survivors t ready xs ≡ some ys
    → (s' : Channels) × (process_channels (length xs) (length xs) t ready s.chan_list_head s
        ≡ some s')
      × Lists s' ys
unfolding Loops
process_channels-Lists t ready s xs ys h e =
    let (s', f, h') =
      process_from (length xs) (length xs) t ready s [] xs ys h (omega arith) (omega arith) e in
    (s', ap (λ o. process_channels (length xs) (length xs) t ready o s) h.head ∙ f, h')
