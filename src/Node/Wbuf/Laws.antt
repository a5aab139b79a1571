-- ===== src/Node/Wbuf/Laws.antt =====
-- PICA_node.c: the outcomes of `client_wbuf_push` and `nodelink_wbuf_push`.
use pica_pica.Common.{
  ℕ, ◌+◌, ◌≤◌, ◌<◌, ◌≡◌, ◌⊎◌, ◌≢◌, List, [], ◌∷◌, ◌++◌, Bool, true, false, length, arith,
  length-append,
}
use pica_pica.Node.Wbuf.{Wbuf, w_pos, wbuf_push, client_wbuf_push, nodelink_wbuf_push}

-- What is to be sent lies within the buffer, and an unallocated buffer has no bytes.
pub record IsValid (w : Wbuf) : Type 0 where
  pub within : w_pos w ≤ w.buflen_w
  pub word : w.buflen_w < 4294967296
  pub unallocated : w.allocated ≡ false → w.buflen_w ≡ 0

-- The outcome of a push of a message: the buffer is valid, and either the push succeeds and the
-- message stands whole behind the bytes that were there, or it fails, an allocation with it, and the
-- bytes are as before.
pub record Pushes (w : Wbuf) (msgid : ℕ) (tail : List ℕ) (mem : List Bool)
    (r : Bool × Wbuf × List Bool) : Type 0 where
  pub valid : IsValid r.1
  pub outcome :
      ((r.0 ≡ true) × (r.1.bytes ≡ w.bytes ++ (msgid ∷ msgid ∷ tail)))
      ⊎ ((r.0 ≡ false) × (r.1.bytes ≡ w.bytes) × (mem ≢ []))

wbuf_push-Pushes :
    (first : ℕ) (w : Wbuf) (msgid : ℕ) (tail : List ℕ) (mem : List Bool)
    → first < 4294967296
    → IsValid w
    → w_pos w + 2 + length tail < 4294967296
    → Pushes w msgid tail mem (wbuf_push first w msgid tail mem)
unfolding wbuf_push
wbuf_push-Pushes first w msgid tail mem f v h =
    ground (arith, length-append w.bytes (msgid ∷ msgid ∷ tail))

-- A push to a client's output buffer appends the whole message, or fails for want of memory and
-- leaves the bytes to be sent as they are; `w_pos` stays within the buffer. The buffer has to be
-- valid before, and the sizes have to stay 4096 below the range of `unsigned int`.
pub client_wbuf_push-Pushes :
    (w : Wbuf) (msgid : ℕ) (tail : List ℕ) (mem : List Bool)
    → IsValid w
    → w_pos w + 2 + length tail < 4294963200
    → Pushes w msgid tail mem (client_wbuf_push w msgid tail mem)
unfolding client_wbuf_push
client_wbuf_push-Pushes w msgid tail mem v h =
    wbuf_push-Pushes _ w msgid tail mem (omega arith) v (omega arith)

-- A push to a node link's output buffer appends the whole message, or fails for want of memory and
-- leaves the bytes to be sent as they are; `w_pos` stays within the buffer. The buffer has to be
-- valid before, and the sizes have to stay within the range of `unsigned int`.
pub nodelink_wbuf_push-Pushes :
    (w : Wbuf) (msgid : ℕ) (tail : List ℕ) (mem : List Bool)
    → IsValid w
    → w_pos w + 2 + length tail < 4294967296
    → Pushes w msgid tail mem (nodelink_wbuf_push w msgid tail mem)
unfolding nodelink_wbuf_push
nodelink_wbuf_push-Pushes w msgid tail mem v h =
    wbuf_push-Pushes _ w msgid tail mem (omega arith) v h
