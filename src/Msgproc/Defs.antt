-- ===== src/Msgproc/Defs.antt =====
-- PICA_msgproc.c: the size of the message at the head of a buffer, the dispatch of a message to its
-- handler, and the loop over the messages of a receive buffer.
-- A buffer is the list of the bytes received so far, so `*read_pos` is its length and the shift by
-- `memmove` is `drop`. A handler is given the bytes of its message, their number and the argument.
use pica_pica.Common.{
  ℕ, zero, suc, ◌+◌, ◌*◌, ◌%◌, List, [], ◌∷◌, not, ltb, leb, ◌==◌, if◌then◌else◌, length, get_or,
  take, drop,
}

-- `UINT_MAX` for a 32-bit `unsigned int`.
abbrev pub uint_max : ℕ
uint_max = 4294967295

abbrev pub u32 : ℕ → ℕ
u32 n = n % 4294967296

abbrev pub msg_fixed_size : ℕ
msg_fixed_size = 0

abbrev pub msg_var_size : ℕ
msg_var_size = 1

abbrev pub msg_varsize_int8 : ℕ
msg_varsize_int8 = 1

abbrev pub msg_varsize_int16 : ℕ
msg_varsize_int16 = 2

-- `struct PICA_msginfo`. `S` is the state behind the handler's `void *` argument.
pub record MsgInfo (S : Type 0) : Type 0 where
  pub msgid : ℕ
  pub fixedsz : ℕ
  pub sz : ℕ
  pub msgprocfn : List ℕ → ℕ → S → ℕ × S

-- `buf[i]`; what lies beyond the bytes received is never read.
abbrev pub byte : List ℕ → ℕ → ℕ
byte buf i = get_or buf i 0

-- The loop that copies `sz` bytes into `tail_len`, low byte first.
unfoldable pub tail_len : ℕ → List ℕ → ℕ
tail_len zero buf = 0
tail_len (suc j) buf = byte buf 0 + 256 * tail_len j (drop 1 buf)

-- The loop over the table in `PICA_msggetsize`.
unfoldable pub getsize_loop : {S : Type 0} → List (MsgInfo S) → List ℕ → ℕ
getsize_loop [] buf = 0
getsize_loop (m ∷ msgs) buf =
    let rest = getsize_loop msgs buf in
    if byte buf 0 == m.msgid % 256
    then (if m.fixedsz == msg_fixed_size
        then m.sz
        else if m.fixedsz == msg_var_size
        then (if leb (m.sz + 2) (length buf)
            then u32 (2 + m.sz + tail_len m.sz (drop 2 buf))
            else uint_max)
        else rest)
    else rest

-- `PICA_msggetsize`: the size of the first message, `uint_max` while there are too few bytes to
-- tell, and 0 for erroneous data.
unfoldable pub msggetsize : {S : Type 0} → List ℕ → List (MsgInfo S) → ℕ
msggetsize buf msgs =
    if ltb (length buf) 2
    then uint_max
    else if not (byte buf 0 == byte buf 1)
    then 0
    else getsize_loop msgs buf

-- The loop over the table in `PICA_processmsg`.
unfoldable pub dispatch : {S : Type 0} → List (MsgInfo S) → List ℕ → ℕ → S → ℕ × S
dispatch [] buf size s = (0, s)
dispatch (m ∷ msgs) buf size s =
    let rest = dispatch msgs buf size s in
    if byte buf 0 == m.msgid % 256 then m.msgprocfn (take size buf) size s else rest

-- `PICA_processmsg`.
unfoldable pub processmsg : {S : Type 0} → List ℕ → ℕ → S → List (MsgInfo S) → ℕ × S
processmsg buf size s msgs =
    if not (byte buf 0 == byte buf 1) then (0, s) else dispatch msgs buf size s

-- One round of the `while` of `PICA_processdatastream`: what it leaves in the buffer and the state,
-- and whether the loop goes on.
pub data Round (S : Type 0) : Type 0 where
  fail : S → Round S
  stop : Round S
  again : ℕ → S → Round S

unfoldable pub round : {S : Type 0} → List ℕ → S → List (MsgInfo S) → Round S
round buf s msgs =
    let uret = msggetsize buf msgs in
    if length buf == 0
    then stop
    else if uret == 0
    then fail s
    else if ltb (length buf) uret
    then stop
    else (let (ok, s') = processmsg buf uret s msgs in if ok == 0 then fail s' else again uret s')

-- The loop, on fuel: the result, the bytes left and the state.
unfoldable pub stream_loop : {S : Type 0} → ℕ → List ℕ → S → List (MsgInfo S) → ℕ × List ℕ × S
stream_loop zero buf s msgs = (0, buf, s)
stream_loop (suc fuel) buf s msgs = elim (round buf s msgs) [
  | fail s' ↦ (0, buf, s')
  | stop ↦ (1, buf, s)
  | again uret s' ↦ stream_loop fuel (drop uret buf) s' msgs
]

-- `PICA_processdatastream`. A round that goes on removes a byte at least, so that as many rounds as
-- bytes, and one more, are enough.
unfoldable pub processdatastream : {S : Type 0} → List ℕ → S → List (MsgInfo S) → ℕ × List ℕ × S
processdatastream buf s msgs = stream_loop (suc (length buf)) buf s msgs
