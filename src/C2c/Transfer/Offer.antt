-- ===== src/C2c/Transfer/Offer.antt =====
-- PICA_client.c: a request to send a file, and its handler where the application accepts at once.
use pica_pica.Common.{
  ℕ, ◌+◌, ◌<◌, ◌≤◌, ◌≡◌, ◌≢◌, refl, List, [], ◌∷◌, ◌++◌, true, false, ◌||◌, some, ◌==◌, ltb, length,
  take, drop, arith,
}
use pica_pica.Proto.C2c.{sendfilerequest, acceptedfile, c2cmsg_maxfilenamesize}
use pica_pica.Msgproc.Defs.{tail_len}
use pica_pica.Msgproc.Encode.{size_bytes, tail_len-size_bytes}
use pica_pica.Node.Wbuf.{malloc, wbuf_push}
use pica_pica.C2c.State.{
  send_idle, send_sentreq, recv_idle, recv_receiving, recv_waitaccept, pica_ok, accept_file_cb,
  Chan, done, ◌>>=◌, chanwritebufsize,
}
use pica_pica.C2c.Files.{
  is_send_idle, is_recv_idle, is_waitaccept, after_slash, c_string, send_file, sendfile_open_read,
  accept_file,
}
use pica_pica.C2c.Files.Kept.{recvfile_opened}
use pica_pica.C2c.Messages.{
  Decision, accept_now, on_decision, procmsg_sendfilerequest, validate_file_name, filenamesize,
}
use pica_pica.C2c.Transfer.Send.{c2c_writebuf_push_step}
use pica_pica.C2c.Transfer.Receive.{take_all}

-- The name that the receiver is told.
abbrev pub name_of : List ℕ → List ℕ
name_of path = after_slash (c_string path) (c_string path)

abbrev pub pushed : ℕ → List ℕ → Chan → Chan
pushed msgid tail s = record s {
  wbuf = (wbuf_push chanwritebufsize s.wbuf msgid tail []).1;
  mem = [];
}

-- The tail of the request.
abbrev pub request : List ℕ → List ℕ → List ℕ
request path content =
    size_bytes 2 (length (name_of path) + 8) ++ size_bytes 8 (length content) ++ name_of path

abbrev pub offered : List ℕ → List ℕ → Chan → Chan
offered path content s =
    record (pushed sendfilerequest (request path content)
      (record s { sendfile_stream = some content })) {
        sendfilestate = send_sentreq;
        sendfile_size = length content;
        sendfile_pos = 0;
      }

pub send_file-offered :
    (path content : List ℕ) (s : Chan)
    → s.sendfilestate ≡ send_idle
    → s.mem ≡ []
    → length (name_of path) ≢ 0
    → length (name_of path) ≤ 255
    → send_file (some path) (some content) s ≡ done pica_ok (offered path content s)
unfolding send_file sendfile_open_read
send_file-offered path content s i m ne le =
    let a : is_send_idle s.sendfilestate ≡ true = rw i refl in
    let b : (length (name_of path) == 0 || ltb c2cmsg_maxfilenamesize (length (name_of path)))
        ≡ false =
      ground arith in
    rw a (
      rw b (
        rw
          (
            c2c_writebuf_push_step sendfilerequest (request path content)
                (record s { sendfile_stream = some content }) m,
            ◌>>=◌,
          )
          refl))

-- The channel of the receiver when the application has accepted the file.
abbrev pub opened_file : List ℕ → Chan → Chan
opened_file name r = record r {
  recvfile_stream = some [];
  opens = [];
  opened = r.opened ++ (c_string name ∷ []);
}

abbrev pub accepted : List ℕ → Chan → Chan
accepted name r = record (pushed acceptedfile r.random (opened_file name r)) {
  recvfilestate = recv_receiving;
}

accept_file-accepted :
    (name : List ℕ) (r : Chan)
    → r.recvfilestate ≡ recv_waitaccept
    → r.mem ≡ []
    → r.opens ≡ []
    → accept_file name r ≡ done pica_ok (accepted name r)
unfolding accept_file malloc
accept_file-accepted name r w m o =
    let a : is_waitaccept r.recvfilestate ≡ true = rw w refl in
    let b : malloc r.opens ≡ (true, []) = rw o refl in
    rw a (
      rw (recvfile_opened name r b, ◌>>=◌)
        (rw (c2c_writebuf_push_step acceptedfile r.random (opened_file name r) m, ◌>>=◌) refl))

on_decision_accepted :
    (name : List ℕ) (r r' : Chan)
    → accept_file name r ≡ done pica_ok r'
    → on_decision accept_now name r ≡ done 1 r'
unfolding on_decision
on_decision_accepted name r r' e = rw (e, ◌>>=◌) refl

-- The request, as a message.
abbrev pub request_msg : List ℕ → List ℕ → List ℕ
request_msg path content = sendfilerequest ∷ sendfilerequest ∷ request path content

length-request_msg :
    (path content : List ℕ) → length (request_msg path content) ≡ 12 + length (name_of path)
unfolding size_bytes
length-request_msg path content = omega arith

filenamesize-request_msg :
    (path content : List ℕ)
    → length (name_of path) ≤ 255
    → filenamesize (request_msg path content) ≡ length (name_of path)
unfolding size_bytes
filenamesize-request_msg path content le =
    let e : tail_len 2 (drop 2 (request_msg path content)) ≡ length (name_of path) + 8 =
      tail_len-size_bytes 2 (length (name_of path) + 8)
        (size_bytes 8 (length content) ++ name_of path) (omega arith) in
    rw e (omega arith)

name-request_msg : (path content : List ℕ) → drop 12 (request_msg path content) ≡ name_of path
unfolding size_bytes
name-request_msg path content = refl

size-request_msg :
    (path content : List ℕ)
    → length content < 18446744073709551616
    → tail_len 8 (drop 4 (request_msg path content)) ≡ length content
unfolding size_bytes
size-request_msg path content small = tail_len-size_bytes 8 (length content) (name_of path) small

-- The channel of the receiver when the application is asked.
abbrev pub asked : ℕ → List ℕ → Chan → Chan
asked size name r = record r {
  recvfilestate = recv_waitaccept;
  recvfile_size = size;
  recvfile_pos = 0;
  called = r.called ++ (accept_file_cb size name ∷ []);
}

pub request_handled :
    (decide : ℕ → List ℕ → Decision) (path content : List ℕ) (r : Chan)
    → length content < 18446744073709551616
    → length (name_of path) ≤ 255
    → validate_file_name (name_of path) ≡ true
    → decide (length content) (name_of path) ≡ accept_now
    → r.recvfilestate ≡ recv_idle
    → r.mem ≡ []
    → r.opens ≡ []
    → procmsg_sendfilerequest decide
        (request_msg path content)
        (length (request_msg path content))
        r
      ≡ done 1 (accepted (name_of path) (asked (length content) (name_of path) r))
unfolding procmsg_sendfilerequest
request_handled decide path content r small le v d i m o =
    let name = name_of path in
    let a : is_recv_idle r.recvfilestate ≡ true = rw i refl in
    let b : ltb (length (request_msg path content)) (12 + filenamesize (request_msg path content))
        ≡ false =
      ground (arith, length-request_msg path content, filenamesize-request_msg path content le) in
    let n : take (filenamesize (request_msg path content)) (drop 12 (request_msg path content))
        ≡ name =
      rw (filenamesize-request_msg path content le)
        (rw (name-request_msg path content) (take_all name)) in
    rw (a, b)
      (rw n (
        rw v (
          rw (size-request_msg path content small) (
            rw d (
              on_decision_accepted name _ _
                (accept_file-accepted name (asked (length content) name r) refl m o))))))
