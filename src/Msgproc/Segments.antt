-- ===== src/Msgproc/Segments.antt =====
-- PICA_msgproc.c: TCP gives the bytes of a connection in pieces, and a caller appends each piece to
-- its buffer and runs `PICA_processdatastream`.
use pica_pica.Common.{
  ℕ, zero, suc, ◌<◌, ◌≡◌, refl, sym, ◌∙◌, ap, inl, inr, List, [], ◌∷◌, ◌++◌, length, drop, arith,
  length-append, length-drop, drop-append,
}
use mathlib.Core.List.{append_assoc, append-nil, flatten}
use pica_pica.Msgproc.Defs.{
  MsgInfo, uint_max, msggetsize, processmsg, fail, again, round, processdatastream,
}
use pica_pica.Msgproc.Size.{msggetsize-append}
use pica_pica.Msgproc.Stream.{Round-cases, round_again, processdatastream_unroll, dispatch-append}

module _ {S : Type 0} where
  round_again-append :
      (buf rest : List ℕ) (s : S) (msgs : List (MsgInfo S)) {uret : ℕ} {s' : S}
      → length buf < uint_max
      → round buf s msgs ≡ again uret s'
      → round (buf ++ rest) s msgs ≡ again uret s'
  unfolding round processmsg msggetsize
  round_again-append [] rest s msgs h e = cc
  round_again-append (x ∷ []) rest s msgs h e = ground arith
  round_again-append (x ∷ y ∷ buf) rest s msgs h e = ground (
    arith,
    msggetsize-append (x ∷ y ∷ buf) rest msgs,
    dispatch-append msgs x (y ∷ buf) rest (msggetsize (x ∷ y ∷ buf) msgs) s,
    length-append buf rest,
  )

  round_fail-append :
      (buf rest : List ℕ) (s : S) (msgs : List (MsgInfo S)) {s' : S}
      → length buf < uint_max
      → round buf s msgs ≡ fail s'
      → round (buf ++ rest) s msgs ≡ fail s'
  unfolding round processmsg msggetsize
  round_fail-append [] rest s msgs h e = cc
  round_fail-append (x ∷ []) rest s msgs h e = ground arith
  round_fail-append (x ∷ y ∷ buf) rest s msgs h e = ground (
    arith,
    msggetsize-append (x ∷ y ∷ buf) rest msgs,
    dispatch-append msgs x (y ∷ buf) rest (msggetsize (x ∷ y ∷ buf) msgs) s,
    length-append buf rest,
  )

  -- A caller's next read: the bytes that came are appended to what the loop left, and the loop runs
  -- again, unless it has failed and the connection is to be closed.
  abbrev pub resume : ℕ × List ℕ × S → List ℕ → List (MsgInfo S) → ℕ × List ℕ × S
  resume (zero, buf, s) rest msgs = (0, buf ++ rest, s)
  resume (suc ok, buf, s) rest msgs = processdatastream (buf ++ rest) s msgs

  resume-append :
      (f : ℕ) (buf rest : List ℕ) (s : S) (msgs : List (MsgInfo S))
      → length buf < f
      → length buf < uint_max
      → resume (processdatastream buf s msgs) rest msgs ≡ processdatastream (buf ++ rest) s msgs
  resume-append zero buf rest s msgs hf h = elim hf [ ]
  resume-append (suc f) buf rest s msgs hf h = elim (Round-cases (round buf s msgs)) [
    | inl (s', e) ↦
        rw (processdatastream_unroll buf s msgs, e)
          (sym (
            rw (
              processdatastream_unroll (buf ++ rest) s msgs,
              round_fail-append buf rest s msgs h e,
            )))
    | inr (inl e) ↦ rw (processdatastream_unroll buf s msgs, e) refl
    | inr (inr (u, s', e)) ↦
        let (pos, within, _) = round_again buf s msgs e in
        rw (processdatastream_unroll buf s msgs, e)
          (rw
            (
              processdatastream_unroll (buf ++ rest) s msgs,
              round_again-append buf rest s msgs h e,
              drop-append u buf rest within,
            )
            (resume-append f (drop u buf) rest s' msgs (omega (arith, length-drop u buf))
              (omega (arith, length-drop u buf))))
  ]

  -- A connection's reads, one after another.
  pub feed : ℕ × List ℕ × S → List (List ℕ) → List (MsgInfo S) → ℕ × List ℕ × S
  feed r [] msgs = r
  feed r (piece ∷ pieces) msgs = feed (resume r piece msgs) pieces msgs

  feed_append :
      (buf : List ℕ) (s : S) (pieces : List (List ℕ)) (msgs : List (MsgInfo S))
      → length (buf ++ flatten pieces) < uint_max
      → feed (processdatastream buf s msgs) pieces msgs
        ≡ processdatastream (buf ++ flatten pieces) s msgs
  unfolding feed flatten
  feed_append buf s [] msgs h = rw append-nil
  feed_append buf s (piece ∷ pieces) msgs h =
      rw
        (resume-append (suc (length buf)) buf piece s msgs (omega arith)
          (omega (arith, length-append buf (piece ++ flatten pieces))))
        (feed_append (buf ++ piece) s pieces msgs (rw (append_assoc buf piece (flatten pieces)) h)
          ∙ ap (λ b. processdatastream b s msgs) (append_assoc buf piece (flatten pieces)))

  -- However the bytes of a connection are cut into reads, the result, the bytes left over and the
  -- state after the handlers are those of one read that brings them all, if there are fewer than
  -- UINT_MAX of them.
  pub feed-flatten :
      (s : S) (pieces : List (List ℕ)) (msgs : List (MsgInfo S))
      → length (flatten pieces) < uint_max
      → feed (1, [], s) pieces msgs ≡ processdatastream (flatten pieces) s msgs
  unfolding round
  feed-flatten s pieces msgs h =
      ap (λ r. feed r pieces msgs) (sym (rw (processdatastream_unroll [] s msgs, round)))
      ∙ feed_append [] s pieces msgs h
