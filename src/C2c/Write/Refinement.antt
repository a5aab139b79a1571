-- ===== src/C2c/Write/Refinement.antt =====
-- PICA_client.c: the two connections of a channel as two sequences of bytes, and the output buffer as
-- an implementation of them.
use pica_pica.Common.{
  ℕ, ◌+◌, ◌≤◌, ◌≡◌, ◌≢◌, refl, ap, sym, subst, ◌∙◌, List, [], ◌∷◌, ◌++◌, Bool, true, false, ◌==◌,
  length, if◌then◌else◌, take, drop, arith, length-append, length-take, length-drop, take_whole,
  drop-append, zero, suc, Bool-cases, inl, inr,
}
use mathlib.Core.List.{append-nil, append_assoc}
use pica_pica.C2c.Write.{SslAnswer, Writer, before, asked, write_either, push, send_switch}
use pica_pica.C2c.Write.Moves.{Within}
use pica_pica.C2c.Write.Order.{
  before-within, limit, IsValid, to_relay, to_direct, announced, write_either-SameBytes,
}

-- What a channel promises: the bytes pushed so far, up to the message that announces the switch, and
-- behind it.
pub record Wire : Type 0 where
  pub relayed : List ℕ
  pub directed : List ℕ
  pub announced : Bool

abbrev pub wire_of : Writer → Wire
wire_of w = record { relayed = to_relay w; directed = to_direct w; announced = announced w }

pub data Op : Type 0 where
  push_op switch_op : List ℕ → Op
  write_op : SslAnswer → Op

abbrev pub apply : Op → Writer → Writer
apply (push_op msg) w = push msg w
apply (switch_op msg) w = send_switch msg w
apply (write_op answer) w = (write_either answer w).1

-- A switch is announced once, and SSL_write takes no more than it is given.
abbrev pub Legal : Op → Writer → Type 0
Legal (push_op msg) w = Unit
Legal (switch_op msg) w = (w.switched ≡ false) × (w.barrier_pos ≡ 0) × (length msg ≢ 0)
Legal (write_op answer) w = Within answer (asked (limit w) w.sslbytestowrite)

abbrev pub promise : Op → Wire → Wire
promise (push_op msg) v =
    if v.announced
    then record v { directed = v.directed ++ msg }
    else record v { relayed = v.relayed ++ msg }
promise (switch_op msg) v = record v { relayed = v.relayed ++ msg; announced = true }
promise (write_op answer) v = v

abbrev pub promises : List Op → Wire → Wire
promises [] v = v
promises (op ∷ ops) v = promises ops (promise op v)

pub data Runs : Writer → List Op → Writer → Type 0 where
  stop : {w : Writer} → Runs w [] w
  next :
      {w w' : Writer} {op : Op} {ops : List Op}
      → Legal op w
      → Runs (apply op w) ops w'
      → Runs w (op ∷ ops) w'

wire_eq :
    {v v' : Wire}
    → v.relayed ≡ v'.relayed
    → v.directed ≡ v'.directed
    → v.announced ≡ v'.announced
    → v ≡ v'
wire_eq p q r = λ i. record { relayed = p i; directed = q i; announced = r i }

take-prefix :
    (l n : ℕ) (b msg : List ℕ) → l ≤ n → n ≤ length b → take l (take n b ++ msg) ≡ take l b
take-prefix zero n b msg h g = refl
take-prefix (suc l) zero b msg h g = elim h [ ]
take-prefix (suc l) (suc n) [] msg h g = elim g [ ]
take-prefix (suc l) (suc n) (x ∷ b) msg h g =
    ap (◌∷◌ x) (take-prefix l n b msg (omega arith) (omega arith))

-- All of the buffer, with a message behind what was there.
take-pushed :
    (n : ℕ) (b msg : List ℕ)
    → n ≤ length b
    → take (n + length msg) (take n b ++ msg) ≡ take n b ++ msg
take-pushed n b msg h = take_whole (n + length msg) (take n b ++ msg) (
    omega (
      arith,
      length-drop (n + length msg) (take n b ++ msg),
      length-append (take n b) msg,
      length-take n b,
    ))

pushed-IsValid : (msg : List ℕ) (w : Writer) → IsValid w → IsValid (push msg w)
unfolding push
pushed-IsValid msg w v = record {
  fits =
      omega
        (arith, length-append (take w.write_pos w.buf) msg, length-take w.write_pos w.buf, v.fits);
  barrier_within = omega (arith, v.barrier_within);
  before_within = v.before_within;
  asked_within = ground (arith, v.asked_within);
  one_switch = v.one_switch;
  direct_later = v.direct_later;
}

drop-all : (n : ℕ) (b : List ℕ) → drop n (take n b) ≡ []
drop-all zero b = refl
drop-all (suc n) [] = refl
drop-all (suc n) (x ∷ b) = drop-all n b

push-promise :
    (msg : List ℕ) (w : Writer)
    → IsValid w
    → wire_of (push msg w) ≡ promise (push_op msg) (wire_of w)
unfolding push
push-promise msg w v = elim (Bool-cases w.switched) [
  | inl s ↦ rw s (
      wire_eq refl
        (ap (◌++◌ w.direct) (take-pushed w.write_pos w.buf msg v.fits)
          ∙ sym (append_assoc w.direct (take w.write_pos w.buf) msg))
        refl)
  | inr s ↦ elim (Bool-cases (w.barrier_pos == 0)) [
    | inl z ↦
        rw (s, z)
          (wire_eq
            (ap (◌++◌ w.relay) (take-pushed w.write_pos w.buf msg v.fits)
              ∙ sym (append_assoc w.relay (take w.write_pos w.buf) msg))
            refl refl)
    | inr z ↦
        rw (s, z)
          (wire_eq
            (ap (◌++◌ w.relay) (
              take-prefix (before w) w.write_pos w.buf msg
                (omega (arith, before-within w v, v.barrier_within)) v.fits))
            (ap (◌++◌ w.direct) (
                ap (drop w.barrier_pos) (take-pushed w.write_pos w.buf msg v.fits)
                ∙ drop-append w.barrier_pos (take w.write_pos w.buf) msg
                    (omega (arith, length-take w.write_pos w.buf, v.barrier_within, v.fits)))
              ∙ sym (append_assoc w.direct (drop w.barrier_pos (take w.write_pos w.buf)) msg))
            refl)
  ]
]

switch-promise :
    (msg : List ℕ) (w : Writer)
    → IsValid w
    → Legal (switch_op msg) w
    → IsValid (send_switch msg w)
      × (wire_of (send_switch msg w) ≡ promise (switch_op msg) (wire_of w))
unfolding send_switch push
switch-promise msg w v (s, z, l) =
    let n = w.write_pos + length msg in
    let b : w.barrier_pos == 0 ≡ true = ground arith in
    let y : n == 0 ≡ false = ground arith in
    let none : w.before_barrier_pos == 0 ≡ true = ground (arith, v.before_within) in
    let pushed = pushed-IsValid msg w v in
    (
      record {
        fits = pushed.fits;
        barrier_within = omega arith;
        before_within = omega (arith, v.before_within);
        asked_within = rw (y, none) (omega (arith, rw b at v.asked_within));
        one_switch = λ t. (let f : false ≡ true = sym s ∙ t in cc);
        direct_later = v.direct_later;
      },
      wire_eq
          (rw (s, b, y, none)
            (ap (◌++◌ w.relay) (take-pushed w.write_pos w.buf msg v.fits)
              ∙ sym (append_assoc w.relay (take w.write_pos w.buf) msg)))
          (rw (s, b, y) (ap (◌++◌ w.direct) (drop-all n (take w.write_pos w.buf ++ msg))))
          (rw (s, y) refl),
    )

write-promise :
    (answer : SslAnswer) (w : Writer)
    → IsValid w
    → Legal (write_op answer) w
    → IsValid (write_either answer w).1 × (wire_of (write_either answer w).1 ≡ wire_of w)
write-promise answer w v l =
    let same = write_either-SameBytes answer w v l in
    (same.valid, wire_eq same.same_relay same.same_direct same.same_announced)

op-promise :
    (op : Op) (w : Writer)
    → IsValid w
    → Legal op w
    → IsValid (apply op w) × (wire_of (apply op w) ≡ promise op (wire_of w))
op-promise (push_op msg) w v l = (pushed-IsValid msg w v, push-promise msg w v)
op-promise (switch_op msg) w v l = switch-promise msg w v l
op-promise (write_op answer) w v l = write-promise answer w v l

-- What the two connections have taken, against what was promised.
pub record Delivers (w : Writer) (v : Wire) : Type 0 where
  pub relay_prefix : (rest : List ℕ) × (w.relay ++ rest ≡ v.relayed)
  pub direct_prefix : (rest : List ℕ) × (w.direct ++ rest ≡ v.directed)
  pub relay_first : w.direct ≢ [] → w.relay ≡ v.relayed
  pub all_delivered : w.write_pos ≡ 0 → (w.relay ≡ v.relayed) × (w.direct ≡ v.directed)

relay-first : (w : Writer) → IsValid w → w.direct ≢ [] → w.relay ≡ to_relay w
relay-first w v d = elim (Bool-cases w.switched) [
  | inl s ↦ rw s (sym (append-nil w.relay))
  | inr s ↦ elim (d (v.direct_later s)) [ ]
]

all-delivered :
    (w : Writer) → IsValid w → w.write_pos ≡ 0 → (w.relay ≡ to_relay w) × (w.direct ≡ to_direct w)
all-delivered w v e =
    let l : limit w ≡ 0 = ground (arith, v.barrier_within) in
    let z : w.barrier_pos == 0 ≡ true = ground (arith, v.barrier_within) in
    elim (Bool-cases w.switched) [
      | inl s ↦ (
        rw s (sym (append-nil w.relay)),
        rw (s, ap (λ (k : ℕ). take k w.buf) e) (sym (append-nil w.direct)),
      )
      | inr s ↦ (
        rw (s, ap (λ (k : ℕ). take k w.buf) l) (sym (append-nil w.relay)),
        rw (s, z) (sym (append-nil w.direct)),
      )
    ]

wire_of-Delivers : (w : Writer) → IsValid w → Delivers w (wire_of w)
wire_of-Delivers w v = record {
  relay_prefix = (_, refl);
  direct_prefix = (_, refl);
  relay_first = relay-first w v;
  all_delivered = all-delivered w v;
}

Runs-wire :
    {w w' : Writer} {ops : List Op}
    → IsValid w
    → Runs w ops w'
    → IsValid w' × (wire_of w' ≡ promises ops (wire_of w))
Runs-wire v stop = (v, refl)
Runs-wire {w} {w'} {ops} v (next {op = op} {ops = rest} l r) =
    let (v', e) = op-promise op w v l in
    let (v'', f) = Runs-wire v' r in (v'', f ∙ ap (promises rest) e)

-- The output buffer with its barrier refines two sequences of bytes. From a valid buffer, after any
-- run of pushes, of at most one announced switch, and of writes that take as many bytes as SSL_write
-- likes, are to be called again or fail, the connection through the nodes has taken a prefix of the
-- bytes pushed up to the announcement and the direct one a prefix of those pushed behind it; the
-- direct one has taken none before the other has all of its own; and where the buffer is empty, both
-- have everything.
pub Runs-Delivers :
    (w w' : Writer) (ops : List Op)
    → IsValid w
    → Runs w ops w'
    → Delivers w' (promises ops (wire_of w))
Runs-Delivers w w' ops v r =
    let (v', e) = Runs-wire v r in subst (Delivers w') e (wire_of-Delivers w' v')
