-- ===== src/C2c/Write/Moves.antt =====
-- PICA_client.c: what PICA_write_ssl leaves in the buffer.
use pica_pica.Common.{
  ℕ, zero, suc, ◌+◌, ◌-◌, ◌≤◌, ◌≡◌, refl, ap, sym, ◌∙◌, List, [], ◌∷◌, ◌++◌, true, ◌==◌, ltb,
  length, if◌then◌else◌, take, drop, arith, length-append, length-take, length-drop, Bool-cases,
  inl, inr,
}
use mathlib.Core.List.{append-nil}
use pica_pica.C2c.State.{pica_ok}
use pica_pica.C2c.Write.{
  SslAnswer, wrote, want_io, failed, closed_by_peer, memmove, asked, Written, write_ssl, ret_ok,
}

module _ {A : Type 0} where
  pub take-nil : (k : ℕ) → take {A = A} k [] ≡ []
  take-nil zero = refl
  take-nil (suc k) = refl

  pub take-split : (n p : ℕ) (b : List A) → n ≤ p → take n b ++ take (p - n) (drop n b) ≡ take p b
  take-split zero p b h = ap (λ (k : ℕ). take k b) (omega arith)
  take-split (suc n) zero b h = elim h [ ]
  take-split (suc n) (suc p) [] h = take-nil (suc p - suc n)
  take-split (suc n) (suc p) (x ∷ b) h =
      let e : suc p - suc n ≡ p - n = omega arith in
      ap (◌∷◌ x) (rw e (take-split n p b (omega arith)))

  take-front : (k : ℕ) (xs ys : List A) → k ≤ length xs → take k (take k xs ++ ys) ≡ take k xs
  take-front zero xs ys h = refl
  take-front (suc k) [] ys h = elim h [ ]
  take-front (suc k) (x ∷ xs) ys h = ap (◌∷◌ x) (take-front k xs ys (omega arith))

  drop-behind :
      (k q : ℕ) (xs b : List A)
      → k ≤ length xs
      → k ≤ length b
      → k ≤ q
      → drop q (take k xs ++ drop k b) ≡ drop q b
  drop-behind zero q xs b h g l = refl
  drop-behind (suc k) q [] b h g l = elim h [ ]
  drop-behind (suc k) q (x ∷ xs) [] h g l = elim g [ ]
  drop-behind (suc k) zero (x ∷ xs) (y ∷ b) h g l = elim l [ ]
  drop-behind (suc k) (suc q) (x ∷ xs) (y ∷ b) h g l =
      drop-behind k q xs b (omega arith) (omega arith) (omega arith)

pub length-memmove :
    (from n : ℕ) (b : List ℕ) → from + n ≤ length b → length (memmove from n b) ≡ length b
length-memmove from n b h = omega (
  arith,
  length-append (take n (drop from b)) (drop n b),
  length-take n (drop from b),
  length-drop from b,
  length-drop n b,
)

pub take-memmove :
    (from n : ℕ) (b : List ℕ)
    → from + n ≤ length b
    → take n (memmove from n b) ≡ take n (drop from b)
take-memmove from n b h = take-front n (drop from b) (drop n b) (omega (arith, length-drop from b))

pub drop-memmove :
    (from n q : ℕ) (b : List ℕ) → from + n ≤ length b → n ≤ q → drop q (memmove from n b) ≡ drop q b
drop-memmove from n q b h l =
    drop-behind n q (drop from b) b (omega (arith, length-drop from b)) (omega arith) l

-- What SSL_write may answer: it takes no more bytes than it was asked to.
abbrev pub Within : SslAnswer → ℕ → Type 0
Within (wrote n) most = n ≤ most
Within want_io most = Unit
Within failed most = Unit
Within closed_by_peer most = Unit

-- The outcome of writing the first `pos` bytes of a buffer.
pub record Writes (buf : List ℕ) (pos : ℕ) (r : Written) : Type 0 where
  pub fewer : r.pos ≤ pos
  pub again : r.btw ≤ r.pos
  pub same_length : length r.after ≡ length buf
  pub in_order : r.taken ++ take r.pos r.after ≡ take pos buf
  pub untouched : (q : ℕ) → pos ≤ q → drop q r.after ≡ drop q buf
  pub all_written : r.pos ≡ 0 → ret_ok r.ret ≡ true

unwritten-Writes :
    (buf : List ℕ) (pos btw : ℕ) (r : Written)
    → r.pos ≡ pos
    → btw ≤ pos
    → r.btw ≡ btw
    → r.after ≡ buf
    → r.taken ≡ []
    → (pos ≡ 0 → ret_ok r.ret ≡ true)
    → Writes buf pos r
unwritten-Writes buf pos btw r p b e a t k = record {
  fewer = omega (arith, p);
  again = omega (arith, p, e);
  same_length = ap length a;
  in_order = rw (t, a, p) refl;
  untouched = λ q l. rw a refl;
  all_written = λ z. k (sym p ∙ z);
}

wrote-Writes :
    (n : ℕ) (buf : List ℕ) (pos : ℕ) (r : Written)
    → pos ≤ length buf
    → n ≤ pos
    → r ≡ record {
      ret = pica_ok;
      after = if ltb n pos then memmove n (pos - n) buf else buf;
      pos = pos - n;
      btw = 0;
      taken = take n buf;
    }
    → Writes buf pos r
wrote-Writes n buf pos r h l e = elim (Bool-cases (ltb n pos)) [
  | inl z ↦
      let within : n + (pos - n) ≤ length buf = omega arith in
      rw (e, z)
        record {
          fewer = omega arith;
          again = omega arith;
          same_length = length-memmove n (pos - n) buf within;
          in_order =
              ap (λ (t : List ℕ). take n buf ++ t) (take-memmove n (pos - n) buf within)
              ∙ take-split n pos buf l;
          untouched = λ q k. drop-memmove n (pos - n) q buf within (omega arith);
          all_written = λ z. refl;
        }
  | inr z ↦
      let all : pos ≡ n = ground arith in
      let none : pos - n ≡ 0 = omega arith in
      rw (e, z)
        record {
          fewer = omega arith;
          again = omega arith;
          same_length = refl;
          in_order = rw none (append-nil (take n buf) ∙ ap (λ (k : ℕ). take k buf) (sym all));
          untouched = λ q k. refl;
          all_written = λ z. refl;
        }
]

pub write_ssl-Writes :
    (answer : SslAnswer) (buf : List ℕ) (pos btw : ℕ)
    → pos ≤ length buf
    → btw ≤ pos
    → Within answer (asked pos btw)
    → Writes buf pos (write_ssl answer buf pos btw)
unfolding write_ssl
write_ssl-Writes (wrote n) buf pos btw h g l = elim (Bool-cases (pos == 0)) [
  | inl z ↦ rw z (unwritten-Writes buf pos btw _ refl g refl refl refl (λ e. refl))
  | inr z ↦ rw z (wrote-Writes n buf pos _ h (ground arith) refl)
]
write_ssl-Writes want_io buf pos btw h g l = elim (Bool-cases (pos == 0)) [
  | inl z ↦ rw z (unwritten-Writes buf pos btw _ refl g refl refl refl (λ e. refl))
  | inr z ↦
      rw z
        (unwritten-Writes buf pos (asked pos btw) _ refl (ground arith) refl refl refl (λ e. refl))
]
write_ssl-Writes failed buf pos btw h g l = elim (Bool-cases (pos == 0)) [
  | inl z ↦ rw z (unwritten-Writes buf pos btw _ refl g refl refl refl (λ e. refl))
  | inr z ↦ rw z (
      unwritten-Writes buf pos (asked pos btw) _ refl (ground arith) refl refl refl
        (λ e. ground arith))
]
write_ssl-Writes closed_by_peer buf pos btw h g l = elim (Bool-cases (pos == 0)) [
  | inl z ↦ rw z (unwritten-Writes buf pos btw _ refl g refl refl refl (λ e. refl))
  | inr z ↦ rw z (
      unwritten-Writes buf pos (asked pos btw) _ refl (ground arith) refl refl refl
        (λ e. ground arith))
]
