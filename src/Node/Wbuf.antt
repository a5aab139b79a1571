-- ===== src/Node/Wbuf.antt =====
-- PICA_node.c: the output buffer of a client and of a node link, `client_wbuf_push` and
-- `nodelink_wbuf_push`. `bytes` are the first `w_pos` bytes of `w_buf`, so `w_pos` is their number;
-- what lies behind them is never sent. Every caller fills the whole area that it reserves at once, so
-- a push takes the tail of the message. An allocator is the list of its next answers, each whether
-- the call succeeds; past the list every call does.
pub mod Laws
use pica_pica.Common.{
  ℕ, ◌+◌, ◌*◌, ◌/◌, ◌-◌, ◌%◌, List, [], ◌∷◌, ◌++◌, Bool, true, false, not, ltb, if◌then◌else◌,
  length,
}
use pica_pica.Msgproc.Defs.{u32}

abbrev pub default_buf_size : ℕ
default_buf_size = 4096

-- `malloc`, `calloc` or `realloc`: the answer, and the answers to come.
unfoldable pub malloc : List Bool → Bool × List Bool
malloc [] = (true, [])
malloc (answer ∷ mem) = (answer, mem)

pub record Wbuf : Type 0 where
  pub allocated : Bool
  pub buflen_w : ℕ
  pub bytes : List ℕ

abbrev pub empty_wbuf : Wbuf
empty_wbuf = record { allocated = false; buflen_w = 0; bytes = [] }

abbrev pub w_pos : Wbuf → ℕ
w_pos w = length w.bytes

-- `if (!c->w_buf) { c->w_buf = calloc(…); … }`, with the size of the new buffer.
unfoldable pub first_alloc : ℕ → Wbuf → List Bool → Bool × Wbuf × List Bool
unfolding malloc
first_alloc size w mem =
    if w.allocated
    then (true, w, mem)
    else (let (answer, mem') = malloc mem in
        if answer
        then (true, record w { allocated = true; buflen_w = size }, mem')
        else (false, w, mem'))

-- `if ((c->buflen_w - c->w_pos) < size) { p = realloc(…); … }`.
unfoldable pub make_room : ℕ → Wbuf → List Bool → Bool × Wbuf × List Bool
unfolding malloc
make_room size w mem =
    if ltb (u32 (w.buflen_w + 4294967296 - w_pos w)) size
    then (let (answer, mem') = malloc mem in
        if answer
        then (true, record w { buflen_w = u32 (size + w_pos w) }, mem')
        else (false, w, mem'))
    else (true, w, mem)

-- The header and the tail, behind what is there.
unfoldable pub put_msg : ℕ → List ℕ → Wbuf → Wbuf
put_msg msgid tail w = record w { bytes = w.bytes ++ (msgid ∷ msgid ∷ tail) }

unfoldable pub wbuf_push : ℕ → Wbuf → ℕ → List ℕ → List Bool → Bool × Wbuf × List Bool
unfolding first_alloc make_room put_msg
wbuf_push first w msgid tail mem =
    let (got, w', mem') = first_alloc first w mem in
    if not got
    then (false, w', mem')
    else (let (room, w'', mem'') = make_room (2 + length tail) w' mem' in
        if not room then (false, w'', mem'') else (true, put_msg msgid tail w'', mem''))

-- `client_wbuf_push`: the first buffer is as large as the message needs, in steps of 4096.
unfoldable pub client_wbuf_push : Wbuf → ℕ → List ℕ → List Bool → Bool × Wbuf × List Bool
unfolding wbuf_push
client_wbuf_push w msgid tail mem =
    wbuf_push (default_buf_size + (2 + length tail) / default_buf_size * default_buf_size) w msgid
      tail mem

-- `nodelink_wbuf_push`: the first buffer has 4096 bytes.
unfoldable pub nodelink_wbuf_push : Wbuf → ℕ → List ℕ → List Bool → Bool × Wbuf × List Bool
unfolding wbuf_push
nodelink_wbuf_push w msgid tail mem = wbuf_push default_buf_size w msgid tail mem
