-- ===== src/C2c/Transfer/Complete.antt =====
-- PICA_client.c: a file that is sent arrives.
use pica_pica.Common.{
  ℕ, zero, suc, ◌-◌, ◌<◌, ◌≤◌, ◌≡◌, ◌≢◌, refl, ap, ◌∙◌, List, [], ◌∷◌, ◌++◌, Bool, true, false,
  ◌&&◌, not, none, ◌==◌, length, take, drop, arith, inl, inr, Bool-cases, length-take,
  length-take-drop, take-drop, take_whole,
}
use mathlib.Core.List.{append_assoc}
use pica_pica.Msgproc.Defs.{processdatastream}
use pica_pica.C2c.State.{send_idle, recv_idle, Callback, file_finished_cb, Chan, Res, done}
use pica_pica.C2c.Messages.{Decision}
use pica_pica.C2c.Table.{c2c_messages}
use pica_pica.C2c.Transfer.{exchange, process_write}
use pica_pica.C2c.Transfer.Send.{
  Sends, got, fragment, sent_more, sent_last, process_write-more, process_write-last,
}
use pica_pica.C2c.Transfer.Receive.{
  Receives, received_more, received_last, received_more-Receives, fragment_handled-more,
  fragment_handled-last, processdatastream-fragment, processdatastream_nil,
}

-- No read of the file fails.
abbrev pub readable : List ℕ → Bool
readable [] = true
readable (most ∷ reads) = not (most == 0) && readable reads

-- The sender is done with the file, has closed it and has told the application so.
pub record Sent (s : Chan) : Type 0 where
  pub idle : s.sendfilestate ≡ send_idle
  pub closed : s.sendfile_stream ≡ none
  pub told : (calls : List Callback) × (s.called ≡ calls ++ (file_finished_cb true ∷ []))

-- The receiver is done with the file, has closed it with these bytes, and has told the application so.
pub record Received (bytes : List ℕ) (files : List (List ℕ)) (r : Chan) : Type 0 where
  pub idle : r.recvfilestate ≡ recv_idle
  pub closed : r.recvfile_stream ≡ none
  pub file : r.closed_files ≡ files ++ (bytes ∷ [])
  pub told : (calls : List Callback) × (r.called ≡ calls ++ (file_finished_cb false ∷ []))

readable-drop : (reads : List ℕ) → readable reads ≡ true → readable (drop 1 reads) ≡ true
readable-drop [] h = refl
readable-drop (most ∷ reads) h = ground arith

got-pos : (s : Chan) → readable s.reads ≡ true → (got s ≢ 0) × (got s < 65536)
got-pos s h = ground arith

abbrev pub Completes : List ℕ → List (List ℕ) → Res (Unit {0}) × Res (Unit {0}) → Type 0
Completes bytes files outcome =
    (s' : Chan) × (r' : Chan) × (outcome ≡ (done tt s', done tt r'))
    × Sent s'
    × Received bytes files r'

exchange_idle :
    (decide : ℕ → List ℕ → Decision) (n : ℕ) (s r : Chan)
    → process_write s ≡ done [] s
    → exchange decide n s (done tt r) ≡ (done tt s, done tt r)
unfolding exchange
exchange_idle decide zero s r e = refl
exchange_idle decide (suc n) s r e =
    rw (e, exchange) (rw (processdatastream_nil decide (done tt r)) (exchange_idle decide n s r e))

sent_last_idle :
    (rest : List ℕ) (s : Chan) → process_write (sent_last rest s) ≡ done [] (sent_last rest s)
unfolding process_write
sent_last_idle rest s = refl

exchange_step :
    (decide : ℕ → List ℕ → Decision) (n : ℕ) (chunk : List ℕ) (s s' r r' : Chan)
    → process_write s ≡ done (fragment chunk) s'
    → processdatastream (fragment chunk) (done tt r) (c2c_messages decide) ≡ (1, [], done tt r')
    → exchange decide (suc n) s (done tt r) ≡ exchange decide n s' (done tt r')
unfolding exchange
exchange_step decide n chunk s s' r r' e f = rw (e, exchange) (rw f refl)

last_round :
    (decide : ℕ → List ℕ → Decision) (n : ℕ) (rest written : List ℕ) (s r : Chan)
    → length (take (got s) rest) ≢ 0
    → length (take (got s) rest) < 65536
    → length (drop (got s) rest) ≡ 0
    → Sends rest s
    → Receives written (length rest) r
    → Completes (written ++ rest) r.closed_files (exchange decide (suc n) s (done tt r))
last_round decide n rest written s r ne small last hs hr =
    let chunk = take (got s) rest in
    let whole : chunk ≡ rest = take_whole (got s) rest last in
    let len : length chunk ≡ length rest = ap length whole in
    let handled = fragment_handled-last chunk written r (rw len hr) ne small in
    (
      sent_last rest s,
      received_last chunk written r,
      exchange_step decide n chunk s (sent_last rest s) r (received_last chunk written r)
            (process_write-last rest s hs ne last)
            (processdatastream-fragment decide chunk r _ small handled)
          ∙ exchange_idle decide n (sent_last rest s) (received_last chunk written r)
              (sent_last_idle rest s),
      record { idle = refl; closed = refl; told = (_, refl) },
      record { idle = refl; closed = refl; file = rw whole refl; told = (_, refl) },
    )

-- A file of at least one byte arrives whole. The sender has memory and its reads do not fail, the
-- receiver's disk takes every write, and the size that was announced is that of the file and below
-- 2 ^ 64. Then as many rounds of the sender's event loop as the file has bytes, or more, leave both
-- clients idle and told of the end, and leave the receiver one more closed file, which holds what it
-- had written before and then exactly the bytes that were still to be sent.
pub transfer-Completes :
    (decide : ℕ → List ℕ → Decision) (n : ℕ) (rest written : List ℕ) (s r : Chan)
    → length rest ≢ 0
    → length rest ≤ n
    → readable s.reads ≡ true
    → Sends rest s
    → Receives written (length rest) r
    → Completes (written ++ rest) r.closed_files (exchange decide n s (done tt r))
transfer-Completes decide zero rest written s r ne h rd hs hr = elim (ne (omega arith)) [ ]
transfer-Completes decide (suc n) rest written s r ne h rd hs hr =
    let (pos, small) = got-pos s rd in
    let cut = length-take (got s) rest in
    let sum = length-take-drop (got s) rest in
    let ne' : length (take (got s) rest) ≢ 0 = omega arith in
    let small' : length (take (got s) rest) < 65536 = omega arith in
    elim (Bool-cases (length (drop (got s) rest) == 0)) [
      | inl last ↦ last_round decide n rest written s r ne' small' (ground arith) hs hr
      | inr more ↦
          let more' : length (drop (got s) rest) ≢ 0 = ground arith in
          let chunk = take (got s) rest in
          let (e, hs') = process_write-more rest s hs ne' more' in
          let lt : length chunk < length rest = omega arith in
          let hr' = received_more-Receives chunk written (length rest) r hr lt in
          let handled = fragment_handled-more chunk written (length rest) r hr ne' small' lt in
          let step =
            exchange_step decide n chunk s (sent_more rest s) r (received_more chunk written r) e
              (processdatastream-fragment decide chunk r _ small' handled) in
          let left : length rest - length chunk ≡ length (drop (got s) rest) = omega arith in
          let bytes : (written ++ chunk) ++ drop (got s) rest ≡ written ++ rest =
            append_assoc written chunk (drop (got s) rest)
            ∙ ap (λ (l : List ℕ). written ++ l) (take-drop (got s) rest) in
          let ih =
            transfer-Completes decide n (drop (got s) rest) (written ++ chunk) (sent_more rest s)
              (received_more chunk written r) more' (omega arith) (readable-drop s.reads rd) hs'
              (rw left at hr') in
          rw step (rw bytes at ih)
    ]
