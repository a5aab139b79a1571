-- ===== src/C2c/Messages.antt =====
-- PICA_client.c: the handlers of the messages between two clients, `procmsg_…`, less those of
-- C2c.Direct. A handler is given its message and its size. `decide`
-- stands for the answer of the application's `accept_file_cb`.
pub mod Steps
pub mod Kept
pub mod Names
pub mod Faults
use pica_pica.Common.{
  ℕ, zero, suc, ◌+◌, ◌-◌, ◌*◌, ◌%◌, List, [], ◌∷◌, ◌++◌, Bool, true, false, ◌&&◌, ◌||◌, not, Option,
  none, some, ◌==◌, ltb, leb, if◌then◌else◌, length, take, drop,
}
use pica_pica.Proto.{initrespok, verdiffer, initrespok_size, verdiffer_size}
use pica_pica.Proto.C2c.{
  msgutf8, msgok, sendfilerequest, acceptedfile, deniedfile, filefragment, filecontrol,
  filecontrol_void, filecontrol_pause, filecontrol_resume, filecontrol_cancel, filecontrol_ioerror,
  msgok_size, acceptedfile_size, deniedfile_size, filecontrol_size,
}
use pica_pica.Msgproc.Defs.{
  MsgInfo, byte, u32, tail_len, msg_fixed_size, msg_var_size, msg_varsize_int16,
}
use pica_pica.C2c.State.{
  C2cState, c2c_active, c2c_waitingc2cprotover, c2c_waitingrep, SendFileState, send_idle,
  send_sending, send_paused, RecvFileState, recv_idle, recv_receiving, recv_paused, recv_waitaccept,
  Code, pica_ok, is_ok, Callback, newmsg_cb, msgok_cb, accepted_file_cb, denied_file_cb,
  c2c_established_cb, accept_file_cb, file_progress_cb, file_finished_cb, file_control_cb, Chan,
  Res, M, done, fault, ◌>>=◌, ◌>>◌, return, get, modify, when, crash, u64, callback,
  c2c_writebuf_push, close_send, close_recv, fwrite,
}
use pica_pica.C2c.Files.{
  is_recv_idle, is_receiving, is_recv_paused, is_send_idle, is_sentreq, is_sending, is_send_paused,
  set_recv, set_send, c_string, deny_file, accept_file, send_filecontrol,
}

abbrev pub is_active : C2cState → Bool
is_active c2c_active = true
is_active _ = false

unfoldable pub procmsg_msgutf8 : List ℕ → ℕ → M ℕ
procmsg_msgutf8 buf nb = do
  c ← get
  when (not (is_active c.state)) (return 0) (do
    callback (newmsg_cb (drop 4 buf) (byte buf 0))
    pushed ← c2c_writebuf_push msgok c.random
    return (if pushed then 1 else 0))

unfoldable pub procmsg_msgok : List ℕ → ℕ → M ℕ
procmsg_msgok buf nb = do callback msgok_cb; return 1

-- `strchr(str, x) != NULL` and `strstr(str, "..") != NULL`.
unfoldable pub has_byte : ℕ → List ℕ → Bool
has_byte x [] = false
has_byte x (y ∷ ys) = x == y || has_byte x ys

unfoldable pub has_dots : List ℕ → Bool
has_dots [] = false
has_dots (x ∷ []) = false
has_dots (x ∷ y ∷ ys) = (x == 46 && y == 46) || has_dots (y ∷ ys)

-- `validate_file_name`, of the name's bytes; whether it is `PICA_OK`.
unfoldable pub validate_file_name : List ℕ → Bool
validate_file_name name =
    let str = c_string name in
    not (has_byte 42 str || has_byte 58 str || has_byte 47 str || has_dots str)

-- What the application answers: `accept_file_cb` gives 1, another positive number, or neither.
pub data Decision : Type 0 where
  accept_now ask_later deny_now : Decision

-- What `procmsg_SENDFILEREQUEST` does with the answer.
unfoldable pub deny_or_fail : M ℕ
deny_or_fail = do ret ← deny_file; return (if is_ok ret then 1 else 0)

unfoldable pub on_decision : Decision → List ℕ → M ℕ
on_decision accept_now filename = do
  ret ← accept_file filename
  when (is_ok ret) (return 1) deny_or_fail
on_decision ask_later filename = return 1
on_decision deny_now filename = deny_or_fail

-- The size of the name as the source computes it, in an `unsigned int`.
abbrev pub filenamesize : List ℕ → ℕ
filenamesize buf = u32 (tail_len 2 (drop 2 buf) + 4294967296 - 8)

-- The name is copied by its size, from byte 12 of the message.
unfoldable pub procmsg_sendfilerequest : (ℕ → List ℕ → Decision) → List ℕ → ℕ → M ℕ
procmsg_sendfilerequest decide buf nb =
    let filename = take (filenamesize buf) (drop 12 buf) in
    let size = tail_len 8 (drop 4 buf) in
    do
      c ← get
      when (not (is_recv_idle c.recvfilestate)) (return 0) (
          when (ltb nb (12 + filenamesize buf)) crash (
            when (not (validate_file_name filename)) (return 0) (do
              modify (λ c. record c {
                recvfilestate = recv_waitaccept;
                recvfile_size = size;
                recvfile_pos = 0;
              })
              callback (accept_file_cb size filename)
              on_decision (decide size filename) filename)))

unfoldable pub procmsg_acceptedfile : List ℕ → ℕ → M ℕ
procmsg_acceptedfile buf nb = do
  c ← get
  when (not (is_sentreq c.sendfilestate)) (return 0)
      (do callback accepted_file_cb; set_send send_sending; return 1)

unfoldable pub procmsg_deniedfile : List ℕ → ℕ → M ℕ
procmsg_deniedfile buf nb = do
  c ← get
  when (not (is_sentreq c.sendfilestate)) (return 0)
      (do callback denied_file_cb; set_send send_idle; close_send; return 1)

-- What `procmsg_FILEFRAGMENT` does after it has written, or failed to.
unfoldable pub fragment_received : ℕ → M ℕ
fragment_received written = do
  modify (λ c. record c { recvfile_pos = u64 (c.recvfile_pos + written) })
  c ← get
  when (ltb c.recvfile_size c.recvfile_pos) (return 0) (do
    callback (file_progress_cb 0 c.recvfile_pos)
    when (c.recvfile_pos == c.recvfile_size)
        (do set_recv recv_idle; close_recv; callback (file_finished_cb false); return 1) (return 1))

-- What it does where the write fails.
unfoldable pub fragment_unwritten : ℕ → M ℕ
fragment_unwritten written = do
  close_recv
  set_recv recv_idle
  ret ← send_filecontrol filecontrol_void filecontrol_ioerror
  when (is_ok ret) (fragment_received written) (return 0)

unfoldable pub procmsg_filefragment : List ℕ → ℕ → M ℕ
procmsg_filefragment buf nb = do
  c ← get
  when (not (is_receiving c.recvfilestate) && not (is_recv_paused c.recvfilestate)) (return 0) (
      when (not (nb - 4 == tail_len 2 (drop 2 buf))) (return 0) (do
        written ← fwrite (take (nb - 4) (drop 4 buf))
        when written (fragment_received (nb - 4)) (fragment_unwritten (nb - 4))))

-- The `switch` on the sender's command; `k` is what follows it.
unfoldable pub sender_command : ℕ → M ℕ → M ℕ
sender_command cmd k = do
  c ← get
  when (cmd == filecontrol_pause)
      (when (is_receiving c.recvfilestate) (do set_recv recv_paused; k) (return 0))
      (when (cmd == filecontrol_resume)
        (when (is_recv_paused c.recvfilestate) (do set_recv recv_receiving; k) (return 0))
        (when (cmd == filecontrol_cancel || cmd == filecontrol_ioerror)
          (do set_recv recv_idle; close_recv; k) (when (cmd == filecontrol_void) k (return 0))))

-- The `switch` on the receiver's command.
unfoldable pub receiver_command : ℕ → M ℕ → M ℕ
receiver_command cmd k = do
  c ← get
  when (cmd == filecontrol_pause)
      (when (is_sending c.sendfilestate) (do set_send send_paused; k) (return 0))
      (when (cmd == filecontrol_resume)
        (when (is_send_paused c.sendfilestate) (do set_send send_sending; k) (return 0))
        (when (cmd == filecontrol_cancel || cmd == filecontrol_ioerror)
          (do set_send send_idle; close_send; k) (when (cmd == filecontrol_void) k (return 0))))

unfoldable pub procmsg_filecontrol : List ℕ → ℕ → M ℕ
procmsg_filecontrol buf nb =
    let sender_cmd = byte buf 2 in
    let receiver_cmd = byte buf 3 in
    do
      c ← get
      when
          ((is_send_idle c.sendfilestate || is_sentreq c.sendfilestate)
            && not (receiver_cmd == filecontrol_void))
          (return 0)
          (when (is_recv_idle c.recvfilestate && not (sender_cmd == filecontrol_void)) (return 0) (
            sender_command sender_cmd (
              receiver_command receiver_cmd
                (do callback (file_control_cb sender_cmd receiver_cmd); return 1))))
