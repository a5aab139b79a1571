-- ===== src/C2c/Files/Kept.antt =====
-- PICA_client.c: the streams of a channel through the calls of the application.
use pica_pica.Common.{
  ℕ, ◌≡◌, refl, List, [], ◌∷◌, ◌++◌, Bool, true, false, ◌||◌, Option, none, some, ◌==◌, ltb,
  if◌then◌else◌, length, arith, inl, inr, Bool-cases,
}
use pica_pica.Proto.C2c.{c2cmsg_maxfilenamesize}
use pica_pica.Node.Wbuf.{malloc}
use pica_pica.C2c.State.{
  pica_ok, errfileopen, Chan, done, ◌>>=◌, c2c_writebuf_push, close_send, close_recv, fread,
}
use pica_pica.C2c.Files.{
  is_waitaccept, is_send_idle, after_slash, c_string, deny_file, accept_file, send_filecontrol,
  recvfile_open_write, sendfile_open_read, send_file, pause_file, resume_file, cancel_file,
  send_file_fragment, fragment_sent, send_msg,
}
use pica_pica.C2c.Streams.{streams, kept}

pub deny_file-kept : (c : Chan) → streams c ≡ true → kept (deny_file c) ≡ true
unfolding deny_file c2c_writebuf_push
deny_file-kept c h = ground arith

pub recvfile_opened :
    (name : List ℕ) (c : Chan) {answer : Bool} {opens' : List Bool}
    → malloc c.opens ≡ (answer, opens')
    → let c' = record c { opens = opens'; opened = c.opened ++ (c_string name ∷ []) } in
      recvfile_open_write name c ≡ (
        if answer
        then done pica_ok (record c' { recvfile_stream = some [] })
        else done errfileopen (record c' { recvfile_stream = none }))
unfolding recvfile_open_write
recvfile_opened name c e = rw e refl

accept_opened-kept :
    (name : List ℕ) (c : Chan) (answer : Bool × List Bool)
    → streams c ≡ true
    → is_waitaccept c.recvfilestate ≡ true
    → malloc c.opens ≡ answer
    → kept (accept_file name c) ≡ true
unfolding accept_file c2c_writebuf_push
accept_opened-kept name c (true, opens') h k e =
    rw k (rw (recvfile_opened name c e, kept) (ground arith))
accept_opened-kept name c (false, opens') h k e =
    rw k (rw (recvfile_opened name c e, ◌>>=◌) (ground arith))

pub accept_file-kept :
    (name : List ℕ) (c : Chan) → streams c ≡ true → kept (accept_file name c) ≡ true
unfolding accept_file
accept_file-kept name c h = elim (Bool-cases (is_waitaccept c.recvfilestate)) [
  | inl e ↦ accept_opened-kept name c (malloc c.opens) h e refl
  | inr e ↦ rw e h
]

pub send_file_fragment-kept : (c : Chan) → streams c ≡ true → kept (send_file_fragment c) ≡ true
unfolding send_file_fragment fread close_send send_filecontrol c2c_writebuf_push fragment_sent
send_file_fragment-kept c h = ground arith

send_file_opened-kept :
    (path bytes : List ℕ) (c : Chan)
    → streams c ≡ true
    → kept (send_file (some path) (some bytes) c) ≡ true
unfolding send_file sendfile_open_read c2c_writebuf_push
send_file_opened-kept path bytes c h = elim (Bool-cases (is_send_idle c.sendfilestate)) [
  | inl e ↦
      elim (Bool-cases (
        length (after_slash (c_string path) (c_string path)) == 0
        || ltb c2cmsg_maxfilenamesize (length (after_slash (c_string path) (c_string path))))) [
          | inl k ↦ rw (e, k) h
          | inr k ↦ rw (e, k) (ground arith)
        ]
  | inr e ↦ rw e h
]

pub send_file-kept :
    (path content : Option (List ℕ)) (c : Chan)
    → streams c ≡ true
    → kept (send_file path content c) ≡ true
unfolding send_file sendfile_open_read
send_file-kept none content c h = ground arith
send_file-kept (some path) none c h = ground arith
send_file-kept (some path) (some bytes) c h = send_file_opened-kept path bytes c h

pub pause_file-kept :
    (sending : Bool) (c : Chan) → streams c ≡ true → kept (pause_file sending c) ≡ true
unfolding pause_file send_filecontrol c2c_writebuf_push
pause_file-kept true c h = ground arith
pause_file-kept false c h = ground arith

pub resume_file-kept :
    (sending : Bool) (c : Chan) → streams c ≡ true → kept (resume_file sending c) ≡ true
unfolding resume_file send_filecontrol c2c_writebuf_push
resume_file-kept true c h = ground arith
resume_file-kept false c h = ground arith

pub cancel_file-kept :
    (sending : Bool) (c : Chan) → streams c ≡ true → kept (cancel_file sending c) ≡ true
unfolding cancel_file close_send close_recv send_filecontrol c2c_writebuf_push
cancel_file-kept true c h = ground arith
cancel_file-kept false c h = ground arith

pub send_msg-kept : (buf : List ℕ) (c : Chan) → streams c ≡ true → kept (send_msg buf c) ≡ true
unfolding send_msg c2c_writebuf_push
send_msg-kept buf c h = ground arith
