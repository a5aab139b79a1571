-- ===== src/C2c/Write/Order.antt =====
-- PICA_client.c: the bytes of a channel keep their order, and their connection, when the channel
-- switches from the connection through the nodes to a direct one.
use pica_pica.Common.{
  ℕ, zero, suc, ◌+◌, ◌-◌, ◌≤◌, ◌≡◌, ◌≢◌, refl, ap, sym, ◌∙◌, List, [], ◌∷◌, ◌++◌, Bool, true, false,
  not, ◌&&◌, ◌||◌, ◌==◌, length, if◌then◌else◌, take, drop, arith, Bool-cases, inl, inr,
}
use mathlib.Core.List.{append-nil, append_assoc}
use pica_pica.C2c.Write.{
  SslAnswer, asked, Written, ret_ok, Writer, before, before_barrier, no_barrier, write_either,
}
use pica_pica.C2c.Write.Moves.{
  Within, Writes, write_ssl-Writes, take-nil, length-memmove, take-memmove,
}

-- How many bytes the next write is about.
abbrev pub limit : Writer → ℕ
limit w = if w.barrier_pos == 0 then w.write_pos else before w

pub record IsValid (w : Writer) : Type 0 where
  pub fits : w.write_pos ≤ length w.buf
  pub barrier_within : w.barrier_pos ≤ w.write_pos
  pub before_within : w.before_barrier_pos ≤ w.barrier_pos
  pub asked_within : w.sslbytestowrite ≤ limit w
  pub one_switch : w.switched ≡ true → w.barrier_pos ≡ 0
  pub direct_later : w.switched ≡ false → w.direct ≡ []

-- All the bytes that are meant for a connection, those that it has taken and those still in the
-- buffer.
abbrev pub to_relay : Writer → List ℕ
to_relay w = w.relay ++ (if w.switched then [] else take (limit w) w.buf)

abbrev pub to_direct : Writer → List ℕ
to_direct w =
    w.direct
    ++ (if w.switched
        then take w.write_pos w.buf
        else if w.barrier_pos == 0
        then []
        else drop w.barrier_pos (take w.write_pos w.buf))

-- Whether the bytes that are pushed next are meant for the direct connection.
abbrev pub announced : Writer → Bool
announced w = w.switched || not (w.barrier_pos == 0)

-- The buffer is valid after, and each connection is meant the same bytes.
pub record SameBytes (w w' : Writer) : Type 0 where
  pub valid : IsValid w'
  pub same_relay : to_relay w' ≡ to_relay w
  pub same_direct : to_direct w' ≡ to_direct w
  pub same_announced : announced w' ≡ announced w

written-IsValid :
    (w w' : Writer) (r : Written)
    → IsValid w
    → w.barrier_pos ≡ 0
    → Writes w.buf w.write_pos r
    → w'.buf ≡ r.after
    → w'.write_pos ≡ r.pos
    → w'.sslbytestowrite ≡ r.btw
    → w'.barrier_pos ≡ w.barrier_pos
    → w'.before_barrier_pos ≡ w.before_barrier_pos
    → (w'.switched ≡ false → w'.direct ≡ [])
    → IsValid w'
written-IsValid w w' r v z k b p a c d f =
    let len : length w'.buf ≡ length w.buf = ap length b ∙ k.same_length in
    record {
      fits = omega (arith, k.fewer, v.fits, len, p);
      barrier_within = omega (arith, c, z);
      before_within = omega (arith, c, d, v.before_within);
      asked_within = ground (arith, k.again, p, a, c, z);
      one_switch = λ s. c ∙ z;
      direct_later = f;
    }

no_barrier-SameBytes :
    (w : Writer) (r : Written)
    → IsValid w
    → w.barrier_pos ≡ 0
    → Writes w.buf w.write_pos r
    → SameBytes w (no_barrier r w).1
unfolding no_barrier
no_barrier-SameBytes w r v z k =
    let y : w.barrier_pos == 0 ≡ true = ground arith in
    elim (Bool-cases w.switched) [
      | inl s ↦ rw s record {
        valid = written-IsValid w _ r v z k refl refl refl refl refl (λ f. cc);
        same_relay = refl;
        same_direct =
            append_assoc w.direct r.taken (take r.pos r.after) ∙ ap (◌++◌ w.direct) k.in_order;
        same_announced = refl;
      }
      | inr s ↦ rw s record {
        valid = written-IsValid w _ r v z k refl refl refl refl refl (λ f. v.direct_later s);
        same_relay =
            rw y (append_assoc w.relay r.taken (take r.pos r.after) ∙ ap (◌++◌ w.relay) k.in_order);
        same_direct = rw y refl;
        same_announced = refl;
      }
    ]

pub drop-take : (q p : ℕ) (b : List ℕ) → drop q (take p b) ≡ take (p - q) (drop q b)
drop-take zero p b = ap (λ (k : ℕ). take k b) (omega arith)
drop-take (suc q) zero b = let e : 0 - suc q ≡ 0 = omega arith in rw e refl
drop-take (suc q) (suc p) [] = sym (take-nil (suc p - suc q))
drop-take (suc q) (suc p) (x ∷ b) =
    let e : suc p - suc q ≡ p - q = omega arith in rw e (drop-take q p b)

pub before-within : (w : Writer) → IsValid w → before w ≤ w.barrier_pos
before-within w v = ground (arith, v.before_within)

not_switched : (w : Writer) → IsValid w → w.barrier_pos ≢ 0 → w.switched ≡ false
not_switched w v z = elim (Bool-cases w.switched) [
  | inl s ↦ elim (z (v.one_switch s)) [ ]
  | inr s ↦ s
]

-- What lies behind the barrier is as it was.
behind :
    (w : Writer) (r : Written)
    → IsValid w
    → Writes w.buf (before w) r
    → take (w.write_pos - w.barrier_pos) (drop w.barrier_pos r.after)
      ≡ drop w.barrier_pos (take w.write_pos w.buf)
behind w r v k =
    ap (take (w.write_pos - w.barrier_pos)) (k.untouched w.barrier_pos (before-within w v))
    ∙ sym (drop-take w.barrier_pos w.write_pos w.buf)

before_barrier-done :
    (w : Writer) (r : Written)
    → IsValid w
    → w.barrier_pos ≢ 0
    → Writes w.buf (before w) r
    → r.pos ≡ 0
    → SameBytes w (before_barrier r w).1
unfolding before_barrier
before_barrier-done w r v z k e =
    let n = w.write_pos - w.barrier_pos in
    let y : w.barrier_pos == 0 ≡ false = ground arith in
    let ok : ret_ok r.ret && r.pos == 0 ≡ true = rw (k.all_written e, e) refl in
    let sw : w.switched ≡ false = not_switched w v z in
    let fit : w.barrier_pos + n ≤ length r.after =
      omega (arith, v.fits, v.barrier_within, k.same_length) in
    rw ok record {
      valid = record {
        fits = omega (arith, fit, v.barrier_within, length-memmove w.barrier_pos n r.after fit);
        barrier_within = omega arith;
        before_within = omega (arith, e);
        asked_within = omega (arith, k.again, e);
        one_switch = λ s. refl;
        direct_later = λ f. cc;
      };
      same_relay =
          rw (sw, y)
            (append-nil (w.relay ++ r.taken)
              ∙ ap (◌++◌ w.relay) (sym (append-nil r.taken) ∙ rw e at k.in_order));
      same_direct =
          rw (sw, y)
            (ap (◌++◌ w.direct) (take-memmove w.barrier_pos n r.after fit ∙ behind w r v k));
      same_announced = rw (sw, y) refl;
    }

before_barrier-more :
    (w : Writer) (r : Written)
    → IsValid w
    → w.barrier_pos ≢ 0
    → Writes w.buf (before w) r
    → r.pos ≢ 0
    → SameBytes w (before_barrier r w).1
unfolding before_barrier
before_barrier-more w r v z k e =
    let y : w.barrier_pos == 0 ≡ false = ground arith in
    let u : r.pos == 0 ≡ false = ground arith in
    let ok : ret_ok r.ret && r.pos == 0 ≡ false = ground arith in
    let sw : w.switched ≡ false = not_switched w v z in
    rw ok record {
      valid = record {
        fits = omega (arith, v.fits, k.same_length);
        barrier_within = v.barrier_within;
        before_within = omega (arith, k.fewer, before-within w v);
        asked_within = rw (y, u) k.again;
        one_switch = v.one_switch;
        direct_later = v.direct_later;
      };
      same_relay =
          rw (sw, y)
            (rw u
              (append_assoc w.relay r.taken (take r.pos r.after) ∙ ap (◌++◌ w.relay) k.in_order));
      same_direct =
          rw (sw, y)
            (ap (◌++◌ w.direct) (drop-take w.barrier_pos w.write_pos r.after ∙ behind w r v k));
      same_announced = refl;
    }

before_barrier-SameBytes :
    (w : Writer) (r : Written)
    → IsValid w
    → w.barrier_pos ≢ 0
    → Writes w.buf (before w) r
    → SameBytes w (before_barrier r w).1
before_barrier-SameBytes w r v z k = elim (Bool-cases (r.pos == 0)) [
  | inl e ↦ before_barrier-done w r v z k (ground arith)
  | inr e ↦ before_barrier-more w r v z k (ground arith)
]

pub write_either-SameBytes :
    (answer : SslAnswer) (w : Writer)
    → IsValid w
    → Within answer (asked (limit w) w.sslbytestowrite)
    → SameBytes w (write_either answer w).1
unfolding write_either
write_either-SameBytes answer w v a = elim (Bool-cases (w.barrier_pos == 0)) [
  | inl z ↦
      let l : limit w ≡ w.write_pos = rw z refl in
      rw z (
        no_barrier-SameBytes w _ v (ground arith) (
          write_ssl-Writes answer w.buf w.write_pos w.sslbytestowrite v.fits
            (rw l at v.asked_within) (rw l at a)))
  | inr z ↦
      let l : limit w ≡ before w = rw z refl in
      rw z (
        before_barrier-SameBytes w _ v (ground arith) (
          write_ssl-Writes answer w.buf (before w) w.sslbytestowrite
            (omega (arith, before-within w v, v.barrier_within, v.fits)) (rw l at v.asked_within)
            (rw l at a)))
]
