-- ===== src/Msgproc/Encode.antt =====
-- Messages as doc/proto.txt lays them out, against the reader of PICA_msgproc.c.
use pica_pica.Common.{
  ℕ, zero, suc, ◌+◌, ◌^◌, ◌%◌, ◌/◌, ◌<◌, ◌≡◌, refl, ap, ◌⊎◌, List, [], ◌∷◌, ◌++◌, length, arith,
  ◌==◌, if◌then◌else◌, length-append, Option, none, some, take-length, drop-length,
}
use mathlib.Core.List.{append_assoc}
use native.Mathlib.Nat.{pow-suc}
use pica_pica.Msgproc.Defs.{
  MsgInfo, uint_max, msg_fixed_size, msg_var_size, tail_len, getsize_loop, msggetsize, dispatch,
  processmsg, Round, fail, again, round, processdatastream,
}
use pica_pica.Msgproc.Stream.{finish, processdatastream_unroll}

-- The stored size of the tail: `sz` bytes, low byte first.
unfoldable pub size_bytes : ℕ → ℕ → List ℕ
size_bytes zero n = []
size_bytes (suc j) n = n % 256 ∷ size_bytes j (n / 256)

pub length-size_bytes : (j n : ℕ) → length (size_bytes j n) ≡ j
unfolding size_bytes
length-size_bytes zero n = refl
length-size_bytes (suc j) n = ap suc (length-size_bytes j (n / 256))

pub tail_len-size_bytes :
    (j n : ℕ) (rest : List ℕ) → n < 256 ^ j → tail_len j (size_bytes j n ++ rest) ≡ n
unfolding tail_len size_bytes
tail_len-size_bytes zero n rest h = omega arith
tail_len-size_bytes (suc j) n rest h =
    omega (arith, tail_len-size_bytes j (n / 256) rest (omega (arith, pow-suc 256 j)))

module _ {S : Type 0} where
  -- The entry that the reader takes for a message's identifier: the first of that number.
  unfoldable pub find_msg : List (MsgInfo S) → ℕ → Option (MsgInfo S)
  find_msg [] id = none
  find_msg (m ∷ msgs) id = if id == m.msgid % 256 then some m else find_msg msgs id

  -- A message: the identifier twice, the size of the tail where the table says that it is stored,
  -- and the tail.
  unfoldable pub encode : MsgInfo S → List ℕ → List ℕ
  encode m tail =
      m.msgid
      ∷ m.msgid
      ∷ (if m.fixedsz == msg_fixed_size then tail else size_bytes m.sz (length tail) ++ tail)

  -- A tail that the entry can carry.
  pub record Fits (m : MsgInfo S) (tail : List ℕ) : Type 0 where
    pub id_byte : m.msgid < 256
    pub layout :
        ((m.fixedsz ≡ msg_fixed_size) × (m.sz ≡ 2 + length tail))
        ⊎ ((m.fixedsz ≡ msg_var_size) × (length tail < 256 ^ m.sz))
    pub small : 2 + m.sz + length tail < uint_max

  length-encode :
      (m : MsgInfo S) (tail : List ℕ)
      → Fits m tail
      → length (encode m tail)
        ≡ (if m.fixedsz == msg_fixed_size then m.sz else 2 + m.sz + length tail)
  unfolding encode
  length-encode m tail f = ground (
    arith,
    length-append (size_bytes m.sz (length tail)) tail,
    length-size_bytes m.sz (length tail),
  )

  getsize_loop-encode :
      (msgs : List (MsgInfo S)) (m : MsgInfo S) (tail rest : List ℕ)
      → find_msg msgs m.msgid ≡ some m
      → Fits m tail
      → getsize_loop msgs (encode m tail ++ rest) ≡ length (encode m tail)
  unfolding getsize_loop find_msg encode
  getsize_loop-encode [] m tail rest e f = cc
  getsize_loop-encode (k ∷ msgs) m tail rest e f = ground (
    arith,
    getsize_loop-encode msgs m tail rest,
    length-append (size_bytes m.sz (length tail)) tail,
    length-append (size_bytes m.sz (length tail) ++ tail) rest,
    append_assoc (size_bytes m.sz (length tail)) tail rest,
    length-size_bytes m.sz (length tail),
    tail_len-size_bytes m.sz (length tail) (tail ++ rest),
  )

  dispatch-encode :
      (msgs : List (MsgInfo S)) (m : MsgInfo S) (tail rest : List ℕ) (s : S)
      → find_msg msgs m.msgid ≡ some m
      → dispatch msgs (encode m tail ++ rest) (length (encode m tail)) s
        ≡ m.msgprocfn (encode m tail) (length (encode m tail)) s
  unfolding dispatch find_msg encode
  dispatch-encode [] m tail rest s e = cc
  dispatch-encode (k ∷ msgs) m tail rest s e =
      ground (arith, dispatch-encode msgs m tail rest s, take-length (encode m tail) rest)

  abbrev outcome : ℕ → ℕ × S → Round S
  outcome size (zero, s) = fail s
  outcome size (suc _, s) = again size s

  outcome_lem :
      (size : ℕ) (r : ℕ × S) → (if r.0 == 0 then fail r.1 else again size r.1) ≡ outcome size r
  outcome_lem size (zero, s) = refl
  outcome_lem size (suc _, s) = ground arith

  round-encode :
      (msgs : List (MsgInfo S)) (m : MsgInfo S) (tail rest : List ℕ) (s : S)
      → find_msg msgs m.msgid ≡ some m
      → Fits m tail
      → round (encode m tail ++ rest) s msgs
        ≡ outcome (length (encode m tail)) (m.msgprocfn (encode m tail) (length (encode m tail)) s)
  unfolding round processmsg msggetsize encode
  round-encode msgs m tail rest s e f = ground (
    arith,
    getsize_loop-encode msgs m tail rest e f,
    dispatch-encode msgs m tail rest s e,
    length-append (encode m tail) rest,
    outcome_lem (length (encode m tail)) (m.msgprocfn (encode m tail) (length (encode m tail)) s),
  )

  -- What the handler of one message leads to.
  abbrev pub deliver : List ℕ → List ℕ → List (MsgInfo S) → ℕ × S → ℕ × List ℕ × S
  deliver msg rest msgs (zero, s) = (0, msg ++ rest, s)
  deliver msg rest msgs (suc _, s) = processdatastream rest s msgs

  finish-outcome :
      (msg rest : List ℕ) (s : S) (msgs : List (MsgInfo S)) (r : ℕ × S)
      → finish (msg ++ rest) s msgs (outcome (length msg) r) ≡ deliver msg rest msgs r
  finish-outcome msg rest s msgs (zero, s') = refl
  finish-outcome msg rest s msgs (suc _, s') = rw (drop-length msg rest)

  -- The reader takes a message laid out as the protocol says, of whatever entry of the table and
  -- with whatever bytes behind it: the entry's handler gets exactly its bytes, and, if the handler
  -- accepts, the loop goes on with the bytes behind the message. The entry has to be the first of its
  -- identifier, and the tail has to fit its layout.
  pub processdatastream-encode :
      (msgs : List (MsgInfo S)) (m : MsgInfo S) (tail rest : List ℕ) (s : S)
      → find_msg msgs m.msgid ≡ some m
      → Fits m tail
      → processdatastream (encode m tail ++ rest) s msgs
        ≡ deliver (encode m tail) rest msgs (m.msgprocfn (encode m tail) (length (encode m tail)) s)
  processdatastream-encode msgs m tail rest s e f =
      rw
        (
          processdatastream_unroll (encode m tail ++ rest) s msgs,
          round-encode msgs m tail rest s e f,
        )
        (finish-outcome (encode m tail) rest s msgs _)
