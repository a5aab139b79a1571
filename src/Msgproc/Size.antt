-- ===== src/Msgproc/Size.antt =====
-- PICA_msgproc.c: what `PICA_msggetsize` answers as more bytes arrive.
use pica_pica.Common.{
  ℕ, zero, suc, ◌≤◌, ◌≡◌, refl, ◌≢◌, List, [], ◌∷◌, ◌++◌, length, arith, length-append,
}
use pica_pica.Msgproc.Defs.{MsgInfo, uint_max, tail_len, getsize_loop, msggetsize}

pub tail_len-append :
    (j : ℕ) (buf rest : List ℕ) → j ≤ length buf → tail_len j (buf ++ rest) ≡ tail_len j buf
unfolding tail_len
tail_len-append zero buf rest h = refl
tail_len-append (suc j) [] rest h = elim h [ ]
tail_len-append (suc j) (x ∷ buf) rest h = ground (arith, tail_len-append j buf rest)

getsize_loop-append :
    {S : Type 0} (msgs : List (MsgInfo S)) (x y : ℕ) (buf rest : List ℕ)
    → getsize_loop msgs (x ∷ y ∷ buf) ≢ uint_max
    → getsize_loop msgs (x ∷ y ∷ buf ++ rest) ≡ getsize_loop msgs (x ∷ y ∷ buf)
unfolding getsize_loop
getsize_loop-append [] x y buf rest h = refl
getsize_loop-append (m ∷ msgs) x y buf rest h = ground (
  arith,
  getsize_loop-append msgs x y buf rest,
  tail_len-append m.sz buf rest,
  length-append buf rest,
)

-- Once the size of the first message is told, further bytes do not change it.
pub msggetsize-append :
    {S : Type 0} (buf rest : List ℕ) (msgs : List (MsgInfo S))
    → msggetsize buf msgs ≢ uint_max
    → msggetsize (buf ++ rest) msgs ≡ msggetsize buf msgs
unfolding msggetsize
msggetsize-append [] rest msgs h = absurd (h refl)
msggetsize-append (x ∷ []) rest msgs h = absurd (h refl)
msggetsize-append (x ∷ y ∷ buf) rest msgs h =
    ground (arith, getsize_loop-append msgs x y buf rest, length-append buf rest)
