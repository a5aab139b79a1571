-- ===== src/C2c/Transfer/Send.antt =====
-- PICA_client.c: what one round of the sender's event loop sends of a file.
use pica_pica.Common.{
  ℕ, ◌+◌, ◌-◌, ◌<◌, ◌≡◌, ◌≢◌, refl, ap, ◌∙◌, List, [], ◌∷◌, ◌++◌, true, false, ◌&&◌, none, some,
  ◌==◌, leb, ltb, length, take, drop, length-take-drop, arith,
}
use pica_pica.Proto.C2c.{filefragment}
use pica_pica.Msgproc.Encode.{size_bytes}
use pica_pica.Node.Wbuf.{Wbuf, wbuf_push, first_alloc, make_room, put_msg, malloc}
use pica_pica.C2c.State.{
  send_idle, send_sending, pica_ok, Callback, file_progress_cb, file_finished_cb, Chan, Res, done,
  fault, ◌>>=◌, u64, c2c_writebuf_push, close_send, fread, read_limit, chanwritebufsize,
}
use pica_pica.C2c.Files.{is_sending, send_file_fragment, fragment_sent, filefragmentsize}
use pica_pica.C2c.Transfer.{process_write, flush}

-- A fragment of a file, as it is sent.
abbrev pub fragment : List ℕ → List ℕ
fragment chunk = filefragment ∷ filefragment ∷ (size_bytes 2 (length chunk) ++ chunk)

-- The channel of a client that has `rest` of a file to send, with nothing else to send before and
-- memory for all it needs.
pub record Sends (rest : List ℕ) (s : Chan) : Type 0 where
  pub sending : s.sendfilestate ≡ send_sending
  pub stream : s.sendfile_stream ≡ some rest
  pub position : s.sendfile_pos + length rest ≡ s.sendfile_size
  pub size : s.sendfile_size < 18446744073709551616
  pub flushed : s.wbuf.bytes ≡ []
  pub memory : s.mem ≡ []

pub wbuf_push-enough :
    (first : ℕ) (w : Wbuf) (msgid : ℕ) (tail : List ℕ)
    → (wbuf_push first w msgid tail [] ≡ (true, (wbuf_push first w msgid tail []).1, []))
      × ((wbuf_push first w msgid tail []).1.bytes ≡ w.bytes ++ (msgid ∷ msgid ∷ tail))
unfolding wbuf_push first_alloc make_room put_msg malloc
wbuf_push-enough first w msgid tail = (ground arith, ground arith)

-- The next chunk of the file, and how many bytes are read for it.
abbrev pub got : Chan → ℕ
got s = read_limit (filefragmentsize - 4) s.reads

-- The channel when the next fragment has been pushed.
abbrev pub pushed_fragment : List ℕ → Chan → Chan
pushed_fragment rest s =
    let chunk = take (got s) rest in
    record s {
      sendfile_stream = some (drop (got s) rest);
      reads = drop 1 s.reads;
      wbuf =
          (wbuf_push chanwritebufsize s.wbuf filefragment (size_bytes 2 (length chunk) ++ chunk)
            []).1;
      mem = [];
    }

fread_step :
    (n : ℕ) (rest : List ℕ) (s : Chan)
    → s.sendfile_stream ≡ some rest
    → fread n s
      ≡ done (take (read_limit n s.reads) rest) (record s {
        sendfile_stream = some (drop (read_limit n s.reads) rest);
        reads = drop 1 s.reads;
      })
unfolding fread
fread_step n rest s e = rw e refl

pub c2c_writebuf_push_step :
    (msgid : ℕ) (tail : List ℕ) (s : Chan)
    → s.mem ≡ []
    → c2c_writebuf_push msgid tail s
      ≡ done true
          (record s { wbuf = (wbuf_push chanwritebufsize s.wbuf msgid tail []).1; mem = [] })
unfolding c2c_writebuf_push
c2c_writebuf_push_step msgid tail s e =
    rw e (rw ((wbuf_push-enough chanwritebufsize s.wbuf msgid tail).0) refl)

send_file_fragment_step :
    (rest : List ℕ) (s : Chan)
    → Sends rest s
    → length (take (got s) rest) ≢ 0
    → send_file_fragment s ≡ fragment_sent (length (take (got s) rest)) (pushed_fragment rest s)
unfolding send_file_fragment
send_file_fragment_step rest s h ne =
    let a : is_sending s.sendfilestate ≡ true = rw h.sending refl in
    let b : (length (take (got s) rest) == 0) ≡ false = ground arith in
    rw a (
      rw (fread_step 49148 rest s h.stream, ◌>>=◌)
        (rw b (
          rw
            (
              c2c_writebuf_push_step filefragment
                  (size_bytes 2 (length (take (got s) rest)) ++ take (got s) rest)
                  (record s { sendfile_stream = some (drop (got s) rest); reads = drop 1 s.reads })
                  h.memory,
              ◌>>=◌,
            )
            refl)))

fragment_sent_more :
    (n : ℕ) (c : Chan)
    → leb c.sendfile_size (u64 (c.sendfile_pos + n)) ≡ false
    → fragment_sent n c
      ≡ done pica_ok (record c {
        sendfile_pos = u64 (c.sendfile_pos + n);
        called = c.called ++ (file_progress_cb (u64 (c.sendfile_pos + n)) 0 ∷ []);
      })
unfolding fragment_sent
fragment_sent_more n c e =
    let b : ltb c.sendfile_size (u64 (c.sendfile_pos + n)) ≡ false = ground arith in rw (e, b) refl

-- What the sender has told the application when the file is sent.
abbrev pub sent_calls : ℕ → List Callback → List Callback
sent_calls size called = (called ++ (file_progress_cb size 0 ∷ [])) ++ (file_finished_cb true ∷ [])

fragment_sent_last :
    (n : ℕ) (rest : List ℕ) (c : Chan)
    → u64 (c.sendfile_pos + n) ≡ c.sendfile_size
    → c.sendfile_stream ≡ some rest
    → fragment_sent n c
      ≡ done pica_ok (record c {
        sendfile_pos = u64 (c.sendfile_pos + n);
        sendfilestate = send_idle;
        sendfile_stream = none;
        called = sent_calls (u64 (c.sendfile_pos + n)) c.called;
      })
unfolding fragment_sent close_send
fragment_sent_last n rest c e f =
    let a : leb c.sendfile_size (u64 (c.sendfile_pos + n)) ≡ true = ground arith in
    let b : ltb c.sendfile_size (u64 (c.sendfile_pos + n)) ≡ false = ground arith in
    rw a (rw (f, ◌>>=◌) (rw b refl))

process_write_step :
    (rest : List ℕ) (s : Chan)
    → Sends rest s
    → length (take (got s) rest) ≢ 0
    → process_write s
      ≡ elim (fragment_sent (length (take (got s) rest)) (pushed_fragment rest s))
          as (λ _. Res (List ℕ)) [ done _ c ↦ flush c | fault ↦ fault ]
unfolding process_write
process_write_step rest s h ne =
    let a : is_sending s.sendfilestate && length s.wbuf.bytes == 0 ≡ true =
      rw (h.sending, h.flushed) refl in
    rw a (rw (send_file_fragment_step rest s h ne, ◌>>=◌) refl)

fragment_bytes :
    (rest : List ℕ) (s : Chan)
    → Sends rest s
    → (pushed_fragment rest s).wbuf.bytes ≡ fragment (take (got s) rest)
fragment_bytes rest s h =
    (wbuf_push-enough chanwritebufsize s.wbuf filefragment
      (size_bytes 2 (length (take (got s) rest)) ++ take (got s) rest)).1
    ∙ ap (λ (w : List ℕ). w ++ fragment (take (got s) rest)) h.flushed

-- The channel after a fragment that is not the last.
abbrev pub sent_more : List ℕ → Chan → Chan
sent_more rest s =
    let c = pushed_fragment rest s in
    let pos = u64 (s.sendfile_pos + length (take (got s) rest)) in
    record c {
      sendfile_pos = pos;
      called = c.called ++ (file_progress_cb pos 0 ∷ []);
      wbuf = record c.wbuf { bytes = [] };
    }

pub process_write-more :
    (rest : List ℕ) (s : Chan)
    → Sends rest s
    → length (take (got s) rest) ≢ 0
    → length (drop (got s) rest) ≢ 0
    → (process_write s ≡ done (fragment (take (got s) rest)) (sent_more rest s))
      × Sends (drop (got s) rest) (sent_more rest s)
process_write-more rest s h ne more =
    let sum : length (take (got s) rest) + length (drop (got s) rest) ≡ length rest =
      length-take-drop (got s) rest in
    let e : leb s.sendfile_size (u64 (s.sendfile_pos + length (take (got s) rest))) ≡ false =
      ground (arith, h.position, h.size) in
    (
      process_write_step rest s h ne
          ∙ rw (fragment_sent_more _ (pushed_fragment rest s) e, fragment_bytes rest s h) refl,
      record {
        sending = h.sending;
        stream = refl;
        position = omega (arith, h.position, h.size);
        size = h.size;
        flushed = refl;
        memory = refl;
      },
    )

-- The channel after the last fragment.
abbrev pub sent_last : List ℕ → Chan → Chan
sent_last rest s =
    let c = pushed_fragment rest s in
    record c {
      sendfile_pos = s.sendfile_size;
      sendfilestate = send_idle;
      sendfile_stream = none;
      called = sent_calls s.sendfile_size c.called;
      wbuf = record c.wbuf { bytes = [] };
    }

pub process_write-last :
    (rest : List ℕ) (s : Chan)
    → Sends rest s
    → length (take (got s) rest) ≢ 0
    → length (drop (got s) rest) ≡ 0
    → process_write s ≡ done (fragment (take (got s) rest)) (sent_last rest s)
process_write-last rest s h ne last =
    let sum : length (take (got s) rest) + length (drop (got s) rest) ≡ length rest =
      length-take-drop (got s) rest in
    let e : u64 (s.sendfile_pos + length (take (got s) rest)) ≡ s.sendfile_size =
      omega (arith, h.position, h.size) in
    process_write_step rest s h ne
    ∙ rw (fragment_sent_last _ _ (pushed_fragment rest s) e refl, fragment_bytes rest s h, e) refl
