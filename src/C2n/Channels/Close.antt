-- ===== src/C2n/Channels/Close.antt =====
-- PICA_client.c: `PICA_close_c2c` and `PICA_close_c2n` on the list of channels.
use pica_pica.Common.{
  ℕ, zero, suc, ◌<◌, ◌≤◌, ◌≡◌, refl, sym, ap, ◌∙◌, List, [], ◌∷◌, ◌++◌, true, false, Option, none,
  some, ◌==◌, if◌then◌else◌, arith, length,
}
use pica_pica.C2c.Handshake.{Conn}
use pica_pica.C2n.Channels.{
  Cell, Channels, update, set_next, set_prev, link_behind, link_before, and_then, unlink_loop, free,
  close_c2c, close_all,
}
use pica_pica.C2n.Channels.Segments.{
  Entry, first, last_of, has, distinct, Segment, Lists, has-append, first-append, last_of-append,
  update_same, Segment-update, Segment-split, Segment-append, distinct-apart, distinct-left,
  distinct-right, distinct-remove, Segment-last, Segment-first,
}

pub set_next_step :
    (p : ℕ) (q : Option ℕ) (s : Channels) (c : Cell)
    → s.cells p ≡ some c
    → set_next p q s ≡ some (record s { cells = update p (some (record c { next = q })) s.cells })
unfolding set_next
set_next_step p q s c e = rw (e, set_next) refl

set_prev_step :
    (p : ℕ) (q : Option ℕ) (s : Channels) (c : Cell)
    → s.cells p ≡ some c
    → set_prev p q s ≡ some (record s { cells = update p (some (record c { prev = q })) s.cells })
unfolding set_prev
set_prev_step p q s c e = rw (e, set_prev) refl

-- The channels behind one that is taken out point back past it.
before_step :
    (s : Channels) (a : Option ℕ) (p : ℕ) (xs ys : List Entry)
    → Segment s.cells none xs (some p)
    → Segment s.cells (some p) ys none
    → s.chan_list_end ≡ last_of (some p) ys
    → distinct (xs ++ ys) ≡ true
    → (s' : Channels) × (link_before (first ys none) a s ≡ some s')
      × (Segment s'.cells none xs (some p) × Segment s'.cells a ys none)
      × (s'.chan_list_head ≡ s.chan_list_head)
      × (s'.chan_list_end ≡ last_of a ys)
unfolding link_before
before_step s a p xs [] l r e d = (record s { chan_list_end = a }, refl, (l, r), refl, refl)
before_step s a p xs ((q, c) ∷ ys) l r e d =
    let v : Option Cell = some record { conn = c; next = first ys none; prev = a } in
    (
      record s { cells = update q v s.cells },
      set_prev_step q a s record { conn = c; next = first ys none; prev = some p } r.0,
      (
        Segment-update s.cells none xs (some p) q v
            (ground (arith, has-append q xs ys, (distinct-remove xs ys q c d).1)) l,
        Segment-first s.cells (some p) a q c ys none r (distinct-right xs ((q, c) ∷ ys) d),
      ),
      refl,
      e,
    )

-- The one in front points past it.
behind_step :
    (s : Channels) (xs ys : List Entry) (b : Option ℕ)
    → Segment s.cells none xs b
    → Segment s.cells (last_of none xs) ys none
    → s.chan_list_head ≡ first xs b
    → distinct (xs ++ ys) ≡ true
    → (s' : Channels) × (link_behind (last_of none xs) (first ys none) s ≡ some s')
      × (Segment s'.cells none xs (first ys none) × Segment s'.cells (last_of none xs) ys none)
      × (s'.chan_list_head ≡ first xs (first ys none))
      × (s'.chan_list_end ≡ s.chan_list_end)
unfolding link_behind
behind_step s [] ys b l r e d =
    (record s { chan_list_head = first ys none }, refl, (tt, r), refl, refl)
behind_step s ((p, c) ∷ xs) ys b l r e d =
    let (q, cell, last, i, k, t) =
      Segment-last s.cells none p c xs b (first ys none) l (distinct-left ((p, c) ∷ xs) ys d) in
    let v = some (record cell { next = first ys none }) in
    (
      record s { cells = update q v s.cells },
      ap (λ o. link_behind o (first ys none) s) last ∙ set_next_step q (first ys none) s cell k,
      (
        t,
        Segment-update s.cells (last_of (some p) xs) ys none q v
            (distinct-apart ((p, c) ∷ xs) ys q d i) r,
      ),
      e,
      refl,
    )

-- The channel at an address is taken out of the list, which then is the list of the others.
pub unlink_step :
    (s : Channels) (xs ys : List Entry) (p : ℕ) (c : Conn)
    → Lists s (xs ++ ((p, c) ∷ ys))
    → (s' : Channels) × (and_then
          (link_before (first ys none) (last_of none xs) s)
          (link_behind (last_of none xs) (first ys none))
        ≡ some s')
      × Lists (free p s') (xs ++ ys)
unlink_step s xs ys p c h =
    let a = last_of none xs in
    let n = first ys none in
    let (l, r) = Segment-split s.cells none xs ((p, c) ∷ ys) none h.segment in
    let (d, fresh) = distinct-remove xs ys p c h.apart in
    let e : s.chan_list_end ≡ last_of (some p) ys = h.end ∙ last_of-append none xs ((p, c) ∷ ys) in
    let (s1, f1, (l1, r1), h1, e1) = before_step s a p xs ys l r.1 e d in
    let (s2, f2, (l2, r2), h2, e2) =
      behind_step s1 xs ys (some p) l1 r1 (h1 ∙ h.head ∙ first-append xs ((p, c) ∷ ys) none) d in
    (
      s2,
      ap (λ o. and_then o (link_behind a n)) f1 ∙ f2,
      record {
        segment =
            Segment-update s2.cells none (xs ++ ys) none p none fresh
              (Segment-append s2.cells none xs ys none l2 r2);
        head = h2 ∙ sym (first-append xs ys none);
        end = e2 ∙ e1 ∙ sym (last_of-append none xs ys);
        apart = d;
      },
    )

unlink_loop_step :
    (fuel p q : ℕ) (s : Channels) (c : Cell)
    → s.cells q ≡ some c
    → unlink_loop (suc fuel) p (some q) s ≡ (
        if q == p
        then and_then (link_before c.next c.prev s) (link_behind c.prev c.next)
        else unlink_loop fuel p c.next s)
unfolding unlink_loop
unlink_loop_step fuel p q s c e = rw (e, unlink_loop) refl

unlink_loop_finds :
    (fuel : ℕ) (s : Channels) (a : Option ℕ) (xs ys : List Entry) (p : ℕ) (c : Conn)
    → Segment s.cells a (xs ++ ((p, c) ∷ ys)) none
    → has p xs ≡ false
    → length xs < fuel
    → unlink_loop fuel p (first (xs ++ ((p, c) ∷ ys)) none) s
      ≡ and_then
          (link_before (first ys none) (last_of a xs) s)
          (link_behind (last_of a xs) (first ys none))
unlink_loop_finds zero s a xs ys p c g i l = elim l [ ]
unlink_loop_finds (suc fuel) s a [] ys p c g i l =
    let e : (p == p) ≡ true = ground arith in
    unlink_loop_step fuel p p s record { conn = c; next = first ys none; prev = a } g.0 ∙ rw e refl
unlink_loop_finds (suc fuel) s a ((q, d) ∷ xs) ys p c g i l =
    let e : (q == p) ≡ false = ground arith in
    unlink_loop_step fuel p q s
      record { conn = d; next = first (xs ++ ((p, c) ∷ ys)) none; prev = a } g.0
    ∙ rw e (unlink_loop_finds fuel s (some q) xs ys p c g.1 (ground arith) (omega arith))

pub cell_of :
    (s : Channels) (xs ys : List Entry) (p : ℕ) (c : Conn)
    → Lists s (xs ++ ((p, c) ∷ ys))
    → s.cells p ≡ some record { conn = c; next = first ys none; prev = last_of none xs }
cell_of s xs ys p c h = (Segment-split s.cells none xs ((p, c) ∷ ys) none h.segment).1.0

-- Closing a channel, wherever it is in the list, takes exactly it out: the others stay in their order,
-- linked both ways between the head and the end of the list, and the structure of the channel is freed,
-- with no use of memory that was freed before. As many steps as there are channels are enough.
pub close_c2c-Lists :
    (fuel : ℕ) (s : Channels) (xs ys : List Entry) (p : ℕ) (c : Conn)
    → Lists s (xs ++ ((p, c) ∷ ys))
    → length xs < fuel
    → (s' : Channels) × (close_c2c fuel p s ≡ some s') × (s'.cells p ≡ none) × Lists s' (xs ++ ys)
unfolding close_c2c
close_c2c-Lists fuel s xs ys p c h l =
    let (s', e, h') = unlink_step s xs ys p c h in
    let i : has p xs ≡ false =
      ground (arith, has-append p xs ys, (distinct-remove xs ys p c h.apart).1) in
    let f : unlink_loop fuel p s.chan_list_head s ≡ some s' =
      ap (λ o. unlink_loop fuel p o s) h.head
      ∙ unlink_loop_finds fuel s none xs ys p c h.segment i l
      ∙ e in
    (free p s', rw (cell_of s xs ys p c h) (rw f refl), update_same p none s'.cells, h')

close_all_step :
    (fuel : ℕ) (s s' : Channels) (p : ℕ)
    → s.chan_list_head ≡ some p
    → close_c2c (suc fuel) p s ≡ some s'
    → close_all (suc fuel) s ≡ close_all fuel s'
unfolding close_all
close_all_step fuel s s' p e f = rw (e, close_all) (rw f refl)

close_all_done : (fuel : ℕ) (s : Channels) → s.chan_list_head ≡ none → close_all fuel s ≡ some s
unfolding close_all
close_all_done zero s e = simp (e, close_all)
close_all_done (suc fuel) s e = simp (e, close_all)

-- Closing a connection to a node closes all its channels: the loop ends, after as many rounds as there
-- are channels, with an empty list, and uses no memory that was freed.
pub close_all-Lists :
    (fuel : ℕ) (s : Channels) (xs : List Entry)
    → Lists s xs
    → length xs ≤ fuel
    → (s' : Channels) × (close_all fuel s ≡ some s') × Lists s' []
close_all-Lists fuel s [] h l = (s, close_all_done fuel s h.head, h)
close_all-Lists zero s ((p, c) ∷ xs) h l = elim l [ ]
close_all-Lists (suc fuel) s ((p, c) ∷ xs) h l =
    let (s1, e, f, h1) = close_c2c-Lists (suc fuel) s [] xs p c h (omega arith) in
    let (s2, e2, h2) = close_all-Lists fuel s1 xs h1 (omega arith) in
    (s2, close_all_step fuel s s1 p h.head e ∙ e2, h2)
