-- ===== src/C2c/Transfer/Receive.antt =====
-- PICA_client.c: what the receiver's reader makes of a fragment of a file.
use pica_pica.Common.{
  ℕ, ◌+◌, ◌-◌, ◌<◌, ◌≡◌, ◌≢◌, refl, sym, ap, ◌∙◌, List, [], ◌∷◌, ◌++◌, true, false, ◌||◌, none,
  some, ◌==◌, ltb, length, take, drop, arith, inr,
}
use mathlib.Core.List.{append-nil}
use pica_pica.Proto.C2c.{filefragment}
use pica_pica.Msgproc.Defs.{
  msg_var_size, msg_varsize_int16, MsgInfo, tail_len, processdatastream, stream_loop, round,
}
use pica_pica.Msgproc.Encode.{
  size_bytes, tail_len-size_bytes, find_msg, encode, Fits, deliver, processdatastream-encode,
}
use pica_pica.Node.Wbuf.{malloc}
use pica_pica.C2c.State.{
  recv_idle, file_progress_cb, file_finished_cb, Chan, Res, M, done, u64, close_recv,
}
use pica_pica.C2c.Files.{is_receiving, is_recv_paused}
use pica_pica.C2c.Messages.{Decision, fragment_received, procmsg_filefragment}
use pica_pica.C2c.Table.{entry, on_chan, c2c_messages}
use pica_pica.C2c.Messages.Steps.{takes_fragment, filefragment_step}
use pica_pica.C2c.Transfer.Send.{fragment}

-- The channel of a client that has written `written` of a file, and that has `todo` bytes to come.
-- Every write succeeds.
pub record Receives (written : List ℕ) (todo : ℕ) (r : Chan) : Type 0 where
  pub receiving : is_receiving r.recvfilestate || is_recv_paused r.recvfilestate ≡ true
  pub stream : r.recvfile_stream ≡ some written
  pub position : r.recvfile_pos + todo ≡ r.recvfile_size
  pub size : r.recvfile_size < 18446744073709551616
  pub writable : r.writes ≡ []

drop_4 : (chunk : List ℕ) → drop 4 (fragment chunk) ≡ chunk
unfolding size_bytes
drop_4 chunk = refl

fragment_size :
    (chunk : List ℕ) → length chunk < 65536 → tail_len 2 (drop 2 (fragment chunk)) ≡ length chunk
fragment_size chunk h = tail_len-size_bytes 2 (length chunk) chunk (omega arith)

length-fragment : (chunk : List ℕ) → length (fragment chunk) ≡ 4 + length chunk
unfolding size_bytes
length-fragment chunk = omega arith

pub take_all : (chunk : List ℕ) → take (length chunk) chunk ≡ chunk
take_all [] = refl
take_all (x ∷ xs) = ap (◌∷◌ x) (take_all xs)

-- The handler, given a fragment.
fragment_handled :
    (chunk written : List ℕ) (todo : ℕ) (r : Chan)
    → Receives written todo r
    → length chunk ≢ 0
    → length chunk < 65536
    → procmsg_filefragment (fragment chunk) (length (fragment chunk)) r
      ≡ fragment_received
          (length chunk)
          (record r { recvfile_stream = some (written ++ chunk); writes = [] })
unfolding malloc
fragment_handled chunk written todo r h ne small =
    let n : 4 + length chunk - 4 ≡ length chunk = omega arith in
    let e : length chunk == 0 ≡ false = ground arith in
    let t : takes_fragment (fragment chunk) (4 + length chunk) r ≡ true =
      ground (arith, h.receiving, fragment_size chunk small) in
    let m : malloc r.writes ≡ (true, []) = rw h.writable refl in
    rw (length-fragment chunk) (
      filefragment_step (fragment chunk) written (4 + length chunk) r t h.stream m
      ∙ rw n (rw (drop_4 chunk) (rw (take_all chunk) (rw e refl))))

-- The channel after a fragment that is not the last.
abbrev pub received_more : List ℕ → List ℕ → Chan → Chan
received_more chunk written r =
    let pos = u64 (r.recvfile_pos + length chunk) in
    record r {
      recvfile_stream = some (written ++ chunk);
      writes = [];
      recvfile_pos = pos;
      called = r.called ++ (file_progress_cb 0 pos ∷ []);
    }

pub fragment_handled-more :
    (chunk written : List ℕ) (todo : ℕ) (r : Chan)
    → Receives written todo r
    → length chunk ≢ 0
    → length chunk < 65536
    → length chunk < todo
    → procmsg_filefragment (fragment chunk) (length (fragment chunk)) r
      ≡ done 1 (received_more chunk written r)
unfolding fragment_received
fragment_handled-more chunk written todo r h ne small more =
    let a : ltb r.recvfile_size (u64 (r.recvfile_pos + length chunk)) ≡ false =
      ground (arith, h.position, h.size) in
    let b : u64 (r.recvfile_pos + length chunk) == r.recvfile_size ≡ false =
      ground (arith, h.position, h.size) in
    fragment_handled chunk written todo r h ne small ∙ rw a (rw b refl)

pub received_more-Receives :
    (chunk written : List ℕ) (todo : ℕ) (r : Chan)
    → Receives written todo r
    → length chunk < todo
    → Receives (written ++ chunk) (todo - length chunk) (received_more chunk written r)
received_more-Receives chunk written todo r h more = record {
  receiving = h.receiving;
  stream = refl;
  position = omega (arith, h.position, h.size);
  size = h.size;
  writable = refl;
}

-- The channel after the last fragment.
abbrev pub received_last : List ℕ → List ℕ → Chan → Chan
received_last chunk written r = record r {
  recvfile_stream = none;
  writes = [];
  recvfile_pos = r.recvfile_size;
  recvfilestate = recv_idle;
  closed_files = r.closed_files ++ ((written ++ chunk) ∷ []);
  called = (r.called ++ (file_progress_cb 0 r.recvfile_size ∷ [])) ++ (file_finished_cb false ∷ []);
}

pub fragment_handled-last :
    (chunk written : List ℕ) (r : Chan)
    → Receives written (length chunk) r
    → length chunk ≢ 0
    → length chunk < 65536
    → procmsg_filefragment (fragment chunk) (length (fragment chunk)) r
      ≡ done 1 (received_last chunk written r)
unfolding fragment_received close_recv
fragment_handled-last chunk written r h ne small =
    let p : u64 (r.recvfile_pos + length chunk) ≡ r.recvfile_size =
      omega (arith, h.position, h.size) in
    let a : ltb r.recvfile_size r.recvfile_size ≡ false = ground arith in
    let b : r.recvfile_size == r.recvfile_size ≡ true = ground arith in
    fragment_handled chunk written (length chunk) r h ne small ∙ rw p (rw a (rw b refl))

-- The handler's answer becomes the reader's, which has no byte left.
module _ (decide : ℕ → List ℕ → Decision) where
  abbrev entry_of : MsgInfo (Res (Unit {0}))
  entry_of = entry filefragment msg_var_size msg_varsize_int16 procmsg_filefragment

  fragment-Fits : (chunk : List ℕ) → length chunk < 65536 → Fits entry_of chunk
  fragment-Fits chunk small = record {
    id_byte = omega arith;
    layout = inr (refl, omega arith);
    small = omega arith;
  }

  pub processdatastream_nil :
      (r : Res (Unit {0})) → processdatastream [] r (c2c_messages decide) ≡ (1, [], r)
  unfolding processdatastream stream_loop round
  processdatastream_nil r = refl

  on_chan_then :
      (h : List ℕ → ℕ → M ℕ) (msg : List ℕ) (r r' : Chan)
      → h msg (length msg) r ≡ done 1 r'
      → deliver msg [] (c2c_messages decide) (on_chan h msg (length msg) (done tt r))
        ≡ (1, [], done tt r')
  unfolding on_chan
  on_chan_then h msg r r' e = rw (e, on_chan) (processdatastream_nil (done tt r'))

  -- A message whose handler accepts it.
  pub processdatastream-handled :
      (id kind sz : ℕ) (h : List ℕ → ℕ → M ℕ) (tail : List ℕ) (r r' : Chan)
      → let m = entry id kind sz h in
        find_msg (c2c_messages decide) id ≡ some m
        → Fits m tail
        → h (encode m tail) (length (encode m tail)) r ≡ done 1 r'
        → processdatastream (encode m tail) (done tt r) (c2c_messages decide) ≡ (1, [], done tt r')
  processdatastream-handled id kind sz h tail r r' found fits e =
      let m = entry id kind sz h in
      ap (λ (b : List ℕ). processdatastream b (done tt r) (c2c_messages decide))
        (sym (append-nil (encode m tail)))
      ∙ processdatastream-encode (c2c_messages decide) m tail [] (done tt r) found fits
      ∙ on_chan_then h (encode m tail) r r' e

  pub processdatastream-fragment :
      (chunk : List ℕ) (r r' : Chan)
      → length chunk < 65536
      → procmsg_filefragment (fragment chunk) (length (fragment chunk)) r ≡ done 1 r'
      → processdatastream (fragment chunk) (done tt r) (c2c_messages decide) ≡ (1, [], done tt r')
  unfolding find_msg encode
  processdatastream-fragment chunk r r' small e =
      processdatastream-handled filefragment msg_var_size msg_varsize_int16 procmsg_filefragment
        chunk r r' refl (fragment-Fits chunk small) e
