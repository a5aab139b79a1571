-- ===== src/C2c/Messages/Steps.antt =====
-- PICA_client.c: the steps of `procmsg_FILEFRAGMENT`.
use pica_pica.Common.{
  ℕ, ◌-◌, ◌≡◌, refl, List, ◌++◌, Bool, true, false, ◌&&◌, ◌||◌, not, some, ◌==◌, if◌then◌else◌,
  length, take, drop, arith,
}
use pica_pica.Msgproc.Defs.{tail_len}
use pica_pica.Node.Wbuf.{malloc}
use pica_pica.C2c.State.{Chan, M, done, ◌>>=◌, when, fwrite}
use pica_pica.C2c.Files.{is_receiving, is_recv_paused}
use pica_pica.C2c.Messages.{procmsg_filefragment, fragment_received, fragment_unwritten}

fwrite_open :
    (bytes written : List ℕ) (c : Chan) {answer : Bool} {writes' : List Bool}
    → c.recvfile_stream ≡ some written
    → malloc c.writes ≡ (answer, writes')
    → fwrite bytes c ≡ (
        if length bytes == 0
        then done false c
        else if answer
        then done true (record c { recvfile_stream = some (written ++ bytes); writes = writes' })
        else done false (record c { writes = writes' }))
unfolding fwrite
fwrite_open bytes written c e f = rw (e, f) refl

written_then :
    (empty answer : Bool) (f : Bool → M ℕ) (c c1 c2 : Chan)
    → ((λ (c' : Chan).
            if empty then done false c else if answer then done true c1 else done false c2)
          >>= f)
        c
      ≡ (if empty then f false c else if answer then f true c1 else f false c2)
written_then true answer f c c1 c2 = refl
written_then false true f c c1 c2 = refl
written_then false false f c c1 c2 = refl

-- Whether the handler goes as far as the write.
abbrev pub takes_fragment : List ℕ → ℕ → Chan → Bool
takes_fragment buf nb c =
    (is_receiving c.recvfilestate || is_recv_paused c.recvfilestate)
    && nb - 4 == tail_len 2 (drop 2 buf)

pub filefragment_step :
    (buf written : List ℕ) (nb : ℕ) (c : Chan) {answer : Bool} {writes' : List Bool}
    → takes_fragment buf nb c ≡ true
    → c.recvfile_stream ≡ some written
    → malloc c.writes ≡ (answer, writes')
    → let bytes = take (nb - 4) (drop 4 buf) in
      procmsg_filefragment buf nb c ≡ (
        if length bytes == 0
        then fragment_unwritten (nb - 4) c
        else if answer
        then fragment_received
            (nb - 4)
            (record c { recvfile_stream = some (written ++ bytes); writes = writes' })
        else fragment_unwritten (nb - 4) (record c { writes = writes' }))
unfolding procmsg_filefragment fwrite
filefragment_step buf written nb c {answer} {writes'} t e f =
    let a : (not (is_receiving c.recvfilestate) && not (is_recv_paused c.recvfilestate)) ≡ false =
      ground arith in
    let b : not (nb - 4 == tail_len 2 (drop 2 buf)) ≡ false = ground arith in
    rw (a, b)
      (rw (fwrite_open (take (nb - 4) (drop 4 buf)) written c e f, ◌>>=◌)
        (written_then (length (take (nb - 4) (drop 4 buf)) == 0) answer
          (λ w. when w (fragment_received (nb - 4)) (fragment_unwritten (nb - 4))) _ _ _))
