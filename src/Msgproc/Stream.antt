-- ===== src/Msgproc/Stream.antt =====
-- PICA_msgproc.c: the rounds of the loop of `PICA_processdatastream`.
use pica_pica.Common.{
  ℕ, zero, suc, ◌≤◌, ◌<◌, ◌≡◌, refl, ◌⊎◌, inl, inr, List, [], ◌∷◌, ◌++◌, length, take, drop, arith,
  length-drop, take-append,
}
use pica_pica.Msgproc.Defs.{
  MsgInfo, msggetsize, dispatch, processmsg, Round, fail, stop, again, round, stream_loop,
  processdatastream,
}

module _ {S : Type 0} where
  -- A round that goes on takes at least one byte, and no more than there are.
  pub round_again :
      (buf : List ℕ) (s : S) (msgs : List (MsgInfo S)) {uret : ℕ} {s' : S}
      → round buf s msgs ≡ again uret s'
      → (0 < uret) × (uret ≤ length buf) × (uret ≡ msggetsize buf msgs)
  unfolding round
  round_again buf s msgs h = ground arith

  pub Round-cases :
      (r : Round S) → ((s : S) × (r ≡ fail s)) ⊎ (r ≡ stop) ⊎ ((u : ℕ) × (s : S) × (r ≡ again u s))
  Round-cases (fail s) = inl (s, refl)
  Round-cases stop = inr (inl refl)
  Round-cases (again u s) = inr (inr (u, s, refl))

  stream_loop_fuel :
      (f g : ℕ) (buf : List ℕ) (s : S) (msgs : List (MsgInfo S))
      → length buf < f
      → length buf < g
      → stream_loop f buf s msgs ≡ stream_loop g buf s msgs
  unfolding stream_loop
  stream_loop_fuel zero g buf s msgs hf hg = elim hf [ ]
  stream_loop_fuel (suc f) zero buf s msgs hf hg = elim hg [ ]
  stream_loop_fuel (suc f) (suc g) buf s msgs hf hg = elim (Round-cases (round buf s msgs)) [
    | inl (s', e) ↦ rw (e, stream_loop)
    | inr (inl e) ↦ rw (e, stream_loop)
    | inr (inr (u, s', e)) ↦
        let (pos, within, _) = round_again buf s msgs e in
        rw (e, stream_loop)
          (stream_loop_fuel f g (drop u buf) s' msgs (omega (arith, length-drop u buf))
            (omega (arith, length-drop u buf)))
  ]

  -- What a round leads to.
  abbrev pub finish : List ℕ → S → List (MsgInfo S) → Round S → ℕ × List ℕ × S
  finish buf s msgs (fail s') = (0, buf, s')
  finish buf s msgs stop = (1, buf, s)
  finish buf s msgs (again uret s') = processdatastream (drop uret buf) s' msgs

  -- The loop always ends: `processdatastream` satisfies the equation of its `while`, with no bound on
  -- the rounds, for every table of messages, all handlers and all bytes.
  pub processdatastream_unroll :
      (buf : List ℕ) (s : S) (msgs : List (MsgInfo S))
      → processdatastream buf s msgs ≡ finish buf s msgs (round buf s msgs)
  unfolding processdatastream stream_loop
  processdatastream_unroll buf s msgs = elim (Round-cases (round buf s msgs)) [
    | inl (s', e) ↦ rw (e, stream_loop)
    | inr (inl e) ↦ rw (e, stream_loop)
    | inr (inr (u, s', e)) ↦
        let (pos, within, _) = round_again buf s msgs e in
        rw (e, stream_loop)
          (stream_loop_fuel (length buf) (suc (length (drop u buf))) (drop u buf) s' msgs
            (omega (arith, length-drop u buf)) (omega arith))
  ]

  pub dispatch-append :
      (msgs : List (MsgInfo S)) (x : ℕ) (buf rest : List ℕ) (size : ℕ) (s : S)
      → size ≤ suc (length buf)
      → dispatch msgs (x ∷ buf ++ rest) size s ≡ dispatch msgs (x ∷ buf) size s
  unfolding dispatch
  dispatch-append [] x buf rest size s h = refl
  dispatch-append (m ∷ msgs) x buf rest size s h =
      rw (take-append size (x ∷ buf) rest h)
        (ground (arith, dispatch-append msgs x buf rest size s))

  round_stop :
      (buf : List ℕ) (s : S) (msgs : List (MsgInfo S))
      → round buf s msgs ≡ stop
      → (buf ≡ []) ⊎ (length buf < msggetsize buf msgs)
  unfolding round
  round_stop [] s msgs h = inl refl
  round_stop (x ∷ buf) s msgs h = ground arith

  -- Of a result: no more bytes are left over than there were, and the result is a failure, or none are
  -- left, or fewer than their first message has.
  abbrev pub Leftover : List (MsgInfo S) → ℕ → ℕ × List ℕ × S → Type 0
  Leftover msgs n r =
      (length r.1 ≤ n) × ((r.0 ≡ 0) ⊎ (r.1 ≡ []) ⊎ (length r.1 < msggetsize r.1 msgs))

  leftover :
      (fuel : ℕ) (buf : List ℕ) (s : S) (msgs : List (MsgInfo S))
      → length buf < fuel
      → Leftover msgs (length buf) (processdatastream buf s msgs)
  leftover zero buf s msgs hf = elim hf [ ]
  leftover (suc fuel) buf s msgs hf = elim (Round-cases (round buf s msgs)) [
    | inl (s', e) ↦ rw (processdatastream_unroll buf s msgs, e) (omega arith, inl refl)
    | inr (inl e) ↦
        rw (processdatastream_unroll buf s msgs, e) (omega arith, inr (round_stop buf s msgs e))
    | inr (inr (u, s', e)) ↦
        let (pos, within, _) = round_again buf s msgs e in
        let (fewer, done) = leftover fuel (drop u buf) s' msgs (omega (arith, length-drop u buf)) in
        rw (processdatastream_unroll buf s msgs, e) (omega (arith, length-drop u buf), done)
  ]

  -- What `processdatastream` leaves in the buffer is no more than it was given, and either it fails,
  -- or what it leaves holds no complete message.
  pub processdatastream-Leftover :
      (buf : List ℕ) (s : S) (msgs : List (MsgInfo S))
      → Leftover msgs (length buf) (processdatastream buf s msgs)
  processdatastream-Leftover buf s msgs = leftover (suc (length buf)) buf s msgs (omega arith)

  -- Every handler of a table keeps a property of the state.
  abbrev pub Keeps {κ} : (S → Type κ) → List (MsgInfo S) → Type κ
  Keeps P [] = Unit
  Keeps P (m ∷ msgs) =
      ((msg : List ℕ) (size : ℕ) (s : S) → P s → P (m.msgprocfn msg size s).1) × Keeps P msgs

  dispatch_inv {κ} :
      (P : S → Type κ) (msgs : List (MsgInfo S)) (buf : List ℕ) (size : ℕ) (s : S)
      → Keeps P msgs
      → P s
      → P (dispatch msgs buf size s).1
  unfolding dispatch
  dispatch_inv P [] buf size s k p = p
  dispatch_inv P (m ∷ msgs) buf size s (k, ks) p =
      ground (arith, k (take size buf) size s p, dispatch_inv P msgs buf size s ks p)

  -- The state that a round leaves.
  abbrev RoundKeeps {κ} : (S → Type κ) → S → Round S → Type κ
  RoundKeeps P s (fail s') = P s'
  RoundKeeps P s stop = P s
  RoundKeeps P s (again u s') = P s'

  round_inv {κ} :
      (P : S → Type κ) (msgs : List (MsgInfo S)) (buf : List ℕ) (s : S)
      → Keeps P msgs
      → P s
      → RoundKeeps P s (round buf s msgs)
  unfolding round processmsg
  round_inv P msgs buf s k p = ground (arith, dispatch_inv P msgs buf (msggetsize buf msgs) s k p)

  stream_loop_inv {κ} :
      (P : S → Type κ) (fuel : ℕ) (buf : List ℕ) (s : S) (msgs : List (MsgInfo S))
      → Keeps P msgs
      → P s
      → P (stream_loop fuel buf s msgs).2
  unfolding stream_loop
  stream_loop_inv P zero buf s msgs k p = p
  stream_loop_inv P (suc fuel) buf s msgs k p = elim (Round-cases (round buf s msgs)) [
    | inl (s', e) ↦ rw (e, stream_loop) (rw e at (round_inv P msgs buf s k p))
    | inr (inl e) ↦ rw (e, stream_loop) p
    | inr (inr (u, s', e)) ↦
        rw (e, stream_loop)
          (stream_loop_inv P fuel (drop u buf) s' msgs k (rw e at (round_inv P msgs buf s k p)))
  ]

  -- What every handler keeps, the whole loop keeps.
  pub processdatastream_inv {κ} :
      (P : S → Type κ) (buf : List ℕ) (s : S) (msgs : List (MsgInfo S))
      → Keeps P msgs
      → P s
      → P (processdatastream buf s msgs).2
  unfolding processdatastream
  processdatastream_inv P buf s msgs k p = stream_loop_inv P (suc (length buf)) buf s msgs k p
