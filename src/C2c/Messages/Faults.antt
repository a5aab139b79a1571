-- ===== src/C2c/Messages/Faults.antt =====
-- PICA_client.c: messages of the peer that a handler is at fault with, or refuses though both sides
-- keep to the protocol.
use pica_pica.Common.{
  ℕ, ◌+◌, ◌-◌, ◌<◌, ◌≡◌, refl, List, [], ◌∷◌, Bool, true, false, inl, inr, ◌||◌, some, ◌==◌, drop,
  arith, Option-cases,
}
use pica_pica.Proto.C2c.{filecontrol}
use pica_pica.Msgproc.Defs.{byte, tail_len}
use pica_pica.Node.Wbuf.{malloc}
use pica_pica.C2c.State.{Chan, Res, done, fault, ◌>>◌, c2c_writebuf_push, close_recv, u64}
use pica_pica.C2c.Files.{
  is_recv_idle, pause_file, cancel_file, is_recv_paused, send_filecontrol, is_sending, is_receiving,
}
use pica_pica.C2c.Streams.{is_open, streams}
use pica_pica.C2c.Messages.{
  Decision, procmsg_sendfilerequest, procmsg_filefragment, procmsg_filecontrol, sender_command,
  receiver_command, fragment_received, fragment_unwritten,
}
use pica_pica.C2c.Messages.Steps.{takes_fragment, filefragment_step}
use pica_pica.C2c.Messages.Kept.{last_write_fails, cancels_unaccepted}

-- A peer that has asked to send a file, and that cancels or reports an error before the application
-- has answered, makes the client close a stream that is not open, where no stream is open from
-- before. The message has no command for a receiver.
pub filecontrol_unaccepted-fault :
    (buf : List ℕ) (nb : ℕ) (c : Chan)
    → cancels_unaccepted buf c ≡ true
    → byte buf 3 ≡ 0
    → procmsg_filecontrol buf nb c ≡ fault
unfolding procmsg_filecontrol sender_command receiver_command close_recv
filecontrol_unaccepted-fault buf nb c h k = ground arith

-- While no file is received, a request whose tail is shorter than the size of the file that it must
-- hold makes the client read past the message, whatever the bytes: the size of the name is computed
-- as a difference below 0. The message is shorter than 4 GB.
pub sendfilerequest_short-fault :
    (decide : ℕ → List ℕ → Decision) (buf : List ℕ) (nb : ℕ) (c : Chan)
    → is_recv_idle c.recvfilestate ≡ true
    → tail_len 2 (drop 2 buf) < 8
    → nb < 4294967296
    → procmsg_sendfilerequest decide buf nb c ≡ fault
unfolding procmsg_sendfilerequest
sendfilerequest_short-fault decide buf nb c e h k = ground arith

fragment_unwritten-fault :
    (n : ℕ) (c : Chan)
    → is_open c.recvfile_stream ≡ true
    → c.mem ≡ []
    → (u64 (c.recvfile_pos + n) == c.recvfile_size) ≡ true
    → fragment_unwritten n c ≡ fault
unfolding fragment_unwritten fragment_received close_recv send_filecontrol c2c_writebuf_push
fragment_unwritten-fault n c h m e = ground arith

unwritten_open-fault :
    (buf written : List ℕ) (nb : ℕ) (c : Chan) {answer : Bool} {writes' : List Bool}
    → takes_fragment buf nb c ≡ true
    → c.recvfile_stream ≡ some written
    → malloc c.writes ≡ (answer, writes')
    → last_write_fails buf nb c ≡ true
    → c.mem ≡ []
    → procmsg_filefragment buf nb c ≡ fault
unfolding last_write_fails
unwritten_open-fault buf written nb c {answer} {writes'} t z f e m =
    rw (filefragment_step buf written nb c t z f) (
      ground (
        arith,
        f,
        z,
        fragment_unwritten-fault (nb - 4) c,
        fragment_unwritten-fault (nb - 4) (record c { writes = writes' }),
      ))

-- A fragment that the handler takes, that ends the file and that cannot be written, where the file
-- is open and the memory for the report is there, is a fault: the client closes the file, counts the
-- fragment all the same, and closes the file once more.
pub filefragment_unwritten-fault :
    (buf : List ℕ) (nb : ℕ) (c : Chan)
    → takes_fragment buf nb c ≡ true
    → is_open c.recvfile_stream ≡ true
    → last_write_fails buf nb c ≡ true
    → c.mem ≡ []
    → procmsg_filefragment buf nb c ≡ fault
filefragment_unwritten-fault buf nb c t o e m = elim (Option-cases c.recvfile_stream) [
  | inl z ↦ (let y : false ≡ true = rw z at o in cc)
  | inr (w, z) ↦ unwritten_open-fault buf w nb c t z refl e m
]

-- The answer of a handler, and whether it is a fault.
abbrev pub Answers : ℕ → Res ℕ → Type 0
Answers n (done a c) = a ≡ n
Answers n fault = ⊥

-- Two clients that pause the same transfer at the same time, each before it has the message of the
-- other: both handlers refuse that message. The one client is sending and the other receiving.
pub pauses-refused :
    (sender receiver : Chan)
    → is_sending sender.sendfilestate ≡ true
    → is_receiving receiver.recvfilestate ≡ true
    → Answers 0
        ((pause_file true >> procmsg_filecontrol (filecontrol ∷ filecontrol ∷ 0 ∷ 1 ∷ []) 4) sender)
      × Answers 0 (
          (pause_file false >> procmsg_filecontrol (filecontrol ∷ filecontrol ∷ 1 ∷ 0 ∷ []) 4)
            receiver)
unfolding pause_file send_filecontrol procmsg_filecontrol sender_command receiver_command
    c2c_writebuf_push
pauses-refused sender receiver h k = (ground arith, ground arith)

-- A client that cancels a file while it receives it, or has it paused, refuses every fragment that
-- comes next, as those do that the sender sent before it heard of that. The streams are open that
-- the states of the channel use.
pub cancelled-refused :
    (buf : List ℕ) (nb : ℕ) (c : Chan)
    → streams c ≡ true
    → is_receiving c.recvfilestate || is_recv_paused c.recvfilestate ≡ true
    → Answers 0 ((cancel_file false >> procmsg_filefragment buf nb) c)
unfolding cancel_file close_recv send_filecontrol procmsg_filefragment c2c_writebuf_push
cancelled-refused buf nb c h k = ground arith
