-- ===== src/C2c/Files.antt =====
-- PICA_client.c: the functions by which a client sends, accepts and controls files, `PICA_…_file`.
pub mod Kept
use pica_pica.Common.{
  ℕ, zero, suc, ◌+◌, ◌-◌, ◌%◌, List, [], ◌∷◌, ◌++◌, Bool, true, false, ◌&&◌, ◌||◌, not, Option,
  none, some, ◌==◌, ltb, leb, if◌then◌else◌, length, take, drop,
}
use pica_pica.Proto.C2c.{
  acceptedfile, deniedfile, sendfilerequest, filefragment, filecontrol, filecontrol_void,
  filecontrol_pause, filecontrol_resume, filecontrol_cancel, filecontrol_ioerror,
  c2cmsg_maxfilenamesize, c2cmsg_maxdatasize, msgutf8,
}
use pica_pica.Node.Wbuf.{malloc}
use pica_pica.Msgproc.Encode.{size_bytes}
use pica_pica.C2c.State.{
  SendFileState, send_idle, send_sentreq, send_sending, send_paused, RecvFileState, recv_idle,
  recv_receiving, recv_paused, recv_waitaccept, Code, pica_ok, errinvarg, errnomem, errmsgsize,
  errinvfilename, errfiletransferinprogress, errfiletransfernotinprogress,
  errfilefragmentcrossedsize, errfileopen, errfileio, is_ok, Callback, file_progress_cb,
  file_finished_cb, Chan, M, done, fault, ◌>>=◌, ◌>>◌, return, get, modify, when, u64, callback,
  c2c_writebuf_push, close_send, close_recv, fread,
}

-- `PICA_FILEFRAGMENTSIZE`, and what a fragment carries at most.
abbrev pub filefragmentsize : ℕ
filefragmentsize = 49152

abbrev pub is_waitaccept : RecvFileState → Bool
is_waitaccept recv_waitaccept = true
is_waitaccept _ = false

abbrev pub is_recv_idle : RecvFileState → Bool
is_recv_idle recv_idle = true
is_recv_idle _ = false

abbrev pub is_receiving : RecvFileState → Bool
is_receiving recv_receiving = true
is_receiving _ = false

abbrev pub is_recv_paused : RecvFileState → Bool
is_recv_paused recv_paused = true
is_recv_paused _ = false

abbrev pub is_send_idle : SendFileState → Bool
is_send_idle send_idle = true
is_send_idle _ = false

abbrev pub is_sentreq : SendFileState → Bool
is_sentreq send_sentreq = true
is_sentreq _ = false

abbrev pub is_sending : SendFileState → Bool
is_sending send_sending = true
is_sending _ = false

abbrev pub is_send_paused : SendFileState → Bool
is_send_paused send_paused = true
is_send_paused _ = false

abbrev pub set_recv : RecvFileState → M (Unit {0})
set_recv s = modify (λ c. record c { recvfilestate = s })

abbrev pub set_send : SendFileState → M (Unit {0})
set_send s = modify (λ c. record c { sendfilestate = s })

-- The end of a function that has pushed a message: `PICA_OK`, or `PICA_ERRNOMEM`.
abbrev pub pushed_code : Bool → Code
pushed_code true = pica_ok
pushed_code false = errnomem

unfoldable pub deny_file : M Code
deny_file = do
  c ← get
  when (not (is_waitaccept c.recvfilestate)) (return errinvarg) (do
    set_recv recv_idle
    pushed ← c2c_writebuf_push deniedfile c.random
    return (pushed_code pushed))

-- The bytes of a C string that starts with them.
abbrev pub c_string : List ℕ → List ℕ
c_string [] = []
c_string (x ∷ xs) = if x == 0 then [] else x ∷ c_string xs

-- `PICA_recvfile_open_write`, but for the conversion of the name on Windows. It keeps the name that
-- it opens.
unfoldable pub recvfile_open_write : List ℕ → M Code
unfolding malloc
recvfile_open_write filename c =
    let (answer, opens') = malloc c.opens in
    let c' = record c { opens = opens'; opened = c.opened ++ (c_string filename ∷ []) } in
    if answer
    then done pica_ok (record c' { recvfile_stream = some [] })
    else done errfileopen (record c' { recvfile_stream = none })

unfoldable pub accept_file : List ℕ → M Code
accept_file filename = do
  c ← get
  when (not (is_waitaccept c.recvfilestate)) (return errinvarg) (do
    ret ← recvfile_open_write filename
    when (not (is_ok ret)) (return ret) (do
      pushed ← c2c_writebuf_push acceptedfile c.random
      when pushed (do set_recv recv_receiving; return pica_ok) (return errnomem)))

-- What follows the last `/` of a path.
unfoldable pub after_slash : List ℕ → List ℕ → List ℕ
after_slash name [] = name
after_slash name (x ∷ xs) = if x == 47 then after_slash xs xs else after_slash name xs

-- `PICA_sendfile_open_read`: the file's bytes, where it can be opened; its size is their number.
unfoldable pub sendfile_open_read : Option (List ℕ) → M Code
sendfile_open_read content c = elim content [
  | none ↦ done errfileopen (record c { sendfile_stream = none })
  | some bytes ↦ done pica_ok (record c { sendfile_stream = some bytes })
]

abbrev pub size_of : Option (List ℕ) → ℕ
size_of none = 0
size_of (some bytes) = length bytes

-- `PICA_send_file`, of a path and what the file system has there.
unfoldable pub send_file : Option (List ℕ) → Option (List ℕ) → M Code
unfolding after_slash
send_file none content = do
  c ← get
  when (not (is_send_idle c.sendfilestate)) (return errfiletransferinprogress)
      (return errinvfilename)
send_file (some path) content =
    let filename = after_slash (c_string path) (c_string path) in
    let namelen = length filename in
    do
      c ← get
      when (not (is_send_idle c.sendfilestate)) (return errfiletransferinprogress) (
          when (namelen == 0 || ltb c2cmsg_maxfilenamesize namelen) (return errinvfilename) (do
            ret ← sendfile_open_read content
            when (not (is_ok ret)) (return ret) (do
              pushed ←
                  c2c_writebuf_push sendfilerequest
                    (size_bytes 2 (namelen + 8) ++ size_bytes 8 (size_of content) ++ filename)
              when (not pushed) (return errnomem) (do
                modify (λ c. record c {
                  sendfilestate = send_sentreq;
                  sendfile_size = size_of content;
                  sendfile_pos = 0;
                })
                return pica_ok))))

unfoldable pub send_filecontrol : ℕ → ℕ → M Code
send_filecontrol senderctl receiverctl = do
  pushed ← c2c_writebuf_push filecontrol (senderctl ∷ receiverctl ∷ [])
  return (pushed_code pushed)

unfoldable pub pause_file : Bool → M Code
pause_file true = do
  c ← get
  when (not (is_sending c.sendfilestate)) (return errinvarg)
      (do set_send send_paused; send_filecontrol filecontrol_pause filecontrol_void)
pause_file false = do
  c ← get
  when (not (is_receiving c.recvfilestate)) (return errinvarg)
      (do set_recv recv_paused; send_filecontrol filecontrol_void filecontrol_pause)

unfoldable pub resume_file : Bool → M Code
resume_file true = do
  c ← get
  when (not (is_send_paused c.sendfilestate)) (return errinvarg)
      (do set_send send_sending; send_filecontrol filecontrol_resume filecontrol_void)
resume_file false = do
  c ← get
  when (not (is_recv_paused c.recvfilestate)) (return errinvarg)
      (do set_recv recv_receiving; send_filecontrol filecontrol_void filecontrol_resume)

unfoldable pub cancel_file : Bool → M Code
cancel_file true = do
  c ← get
  when (not (is_sending c.sendfilestate) && not (is_send_paused c.sendfilestate)) (return errinvarg)
      (do close_send; set_send send_idle; send_filecontrol filecontrol_cancel filecontrol_void)
cancel_file false = do
  c ← get
  when (not (is_receiving c.recvfilestate) && not (is_recv_paused c.recvfilestate))
      (return errinvarg)
      (do close_recv; set_recv recv_idle; send_filecontrol filecontrol_void filecontrol_cancel)

-- `PICA_send_file_fragment` after a fragment was pushed.
unfoldable pub fragment_sent : ℕ → M Code
fragment_sent fragment_size = do
  modify (λ c. record c { sendfile_pos = u64 (c.sendfile_pos + fragment_size) })
  c ← get
  callback (file_progress_cb c.sendfile_pos 0)
  when (leb c.sendfile_size c.sendfile_pos)
      (do set_send send_idle; close_send; callback (file_finished_cb true)) (return tt)
  return (if ltb c.sendfile_size c.sendfile_pos then errfilefragmentcrossedsize else pica_ok)

unfoldable pub send_file_fragment : M Code
send_file_fragment = do
  c ← get
  when (not (is_sending c.sendfilestate)) (return errfiletransfernotinprogress) (do
    buf ← fread (filefragmentsize - 4)
    when (length buf == 0)
        (do
          close_send
          set_send send_idle
          send_filecontrol filecontrol_ioerror filecontrol_void
          return errfileio)
        (do
          pushed ← c2c_writebuf_push filefragment (size_bytes 2 (length buf) ++ buf)
          when pushed (fragment_sent (length buf)) (return errnomem)))

-- `PICA_send_msg`.
unfoldable pub send_msg : List ℕ → M Code
send_msg buf = when (ltb c2cmsg_maxdatasize (length buf)) (return errmsgsize) (do
  pushed ← c2c_writebuf_push msgutf8 (size_bytes 2 (length buf) ++ buf)
  return (pushed_code pushed))
