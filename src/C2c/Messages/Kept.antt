-- ===== src/C2c/Messages/Kept.antt =====
-- PICA_client.c: the streams of a channel through the messages of the peer.
use pica_pica.Common.{
  ℕ, ◌+◌, ◌-◌, ◌≡◌, refl, List, ◌++◌, Bool, true, false, ◌&&◌, ◌||◌, not, some, ◌==◌, ltb, length,
  take, drop, arith, inl, inr, Bool-cases, Option-cases,
}
use pica_pica.Msgproc.Defs.{byte}
use pica_pica.Node.Wbuf.{malloc}
use pica_pica.C2c.State.{
  Code, is_ok, Chan, return, when, u64, c2c_writebuf_push, close_send, close_recv,
}
use pica_pica.C2c.Files.{is_waitaccept, is_recv_idle, deny_file, accept_file, send_filecontrol}
use pica_pica.C2c.Messages.{
  Decision, accept_now, ask_later, deny_now, procmsg_msgutf8, procmsg_msgok,
  procmsg_sendfilerequest, procmsg_acceptedfile, procmsg_deniedfile, procmsg_filefragment,
  procmsg_filecontrol, fragment_received, fragment_unwritten, sender_command, receiver_command,
  on_decision, deny_or_fail, filenamesize, validate_file_name,
}
use pica_pica.C2c.Messages.Steps.{takes_fragment, filefragment_step}
use pica_pica.C2c.Files.Kept.{accept_file-kept}
use pica_pica.C2c.Streams.{is_open, send_ok, streams, kept, bind-kept}

pub acceptedfile-kept :
    (buf : List ℕ) (nb : ℕ) (c : Chan)
    → streams c ≡ true
    → kept (procmsg_acceptedfile buf nb c) ≡ true
unfolding procmsg_acceptedfile
acceptedfile-kept buf nb c h = ground arith

pub deniedfile-kept :
    (buf : List ℕ) (nb : ℕ) (c : Chan)
    → streams c ≡ true
    → kept (procmsg_deniedfile buf nb c) ≡ true
unfolding procmsg_deniedfile close_send
deniedfile-kept buf nb c h = ground arith

-- A cancellation that comes while the application has not yet accepted the file.
abbrev pub cancels_unaccepted : List ℕ → Chan → Bool
cancels_unaccepted buf c =
    is_waitaccept c.recvfilestate
    && not (is_open c.recvfile_stream)
    && (byte buf 2 == 3 || byte buf 2 == 4)

pub filecontrol-kept :
    (buf : List ℕ) (nb : ℕ) (c : Chan)
    → streams c ≡ true
    → cancels_unaccepted buf c ≡ false
    → kept (procmsg_filecontrol buf nb c) ≡ true
unfolding procmsg_filecontrol sender_command receiver_command close_send close_recv
filecontrol-kept buf nb c h k = ground arith

pub msgutf8-kept :
    (buf : List ℕ) (nb : ℕ) (c : Chan) → streams c ≡ true → kept (procmsg_msgutf8 buf nb c) ≡ true
unfolding procmsg_msgutf8 c2c_writebuf_push
msgutf8-kept buf nb c h = ground arith

pub msgok-kept :
    (buf : List ℕ) (nb : ℕ) (c : Chan) → streams c ≡ true → kept (procmsg_msgok buf nb c) ≡ true
unfolding procmsg_msgok
msgok-kept buf nb c h = ground arith

-- A fragment that ends the file and cannot be written.
unfoldable pub last_write_fails : List ℕ → ℕ → Chan → Bool
unfolding malloc
last_write_fails buf nb c =
    u64 (c.recvfile_pos + (nb - 4)) == c.recvfile_size
    && (length (take (nb - 4) (drop 4 buf)) == 0 || not (malloc c.writes).0)

fragment_received-kept :
    (n : ℕ) (c : Chan)
    → streams c ≡ true
    → is_open c.recvfile_stream ≡ true
    → kept (fragment_received n c) ≡ true
unfolding fragment_received close_recv
fragment_received-kept n c h k = ground arith

fragment_received-idle-kept :
    (n : ℕ) (c : Chan)
    → send_ok c ≡ true
    → is_recv_idle c.recvfilestate ≡ true
    → (u64 (c.recvfile_pos + n) == c.recvfile_size) ≡ false
    → kept (fragment_received n c) ≡ true
unfolding fragment_received close_recv
fragment_received-idle-kept n c h k e = ground arith

fragment_unwritten-kept :
    (n : ℕ) (c : Chan)
    → streams c ≡ true
    → is_open c.recvfile_stream ≡ true
    → (u64 (c.recvfile_pos + n) == c.recvfile_size) ≡ false
    → kept (fragment_unwritten n c) ≡ true
unfolding fragment_unwritten close_recv send_filecontrol c2c_writebuf_push fragment_received
fragment_unwritten-kept n c h k e = ground arith

filefragment_open-kept :
    (buf : List ℕ) (written : List ℕ) (nb : ℕ) (c : Chan) {answer : Bool} {writes' : List Bool}
    → streams c ≡ true
    → last_write_fails buf nb c ≡ false
    → takes_fragment buf nb c ≡ true
    → c.recvfile_stream ≡ some written
    → malloc c.writes ≡ (answer, writes')
    → kept (procmsg_filefragment buf nb c) ≡ true
unfolding last_write_fails
filefragment_open-kept buf written nb c {answer} {writes'} h k t e f =
    let c' = record c { writes = writes' } in
    rw (filefragment_step buf written nb c t e f) (
      ground (
        arith,
        f,
        e,
        fragment_unwritten-kept (nb - 4) c h,
        fragment_unwritten-kept (nb - 4) c' h,
        fragment_received-kept (nb - 4)
            (record c' { recvfile_stream = some (written ++ take (nb - 4) (drop 4 buf)) }),
      ))

not_taken-kept :
    (buf : List ℕ) (nb : ℕ) (c : Chan)
    → streams c ≡ true
    → takes_fragment buf nb c ≡ false
    → kept (procmsg_filefragment buf nb c) ≡ true
unfolding procmsg_filefragment
not_taken-kept buf nb c h t = ground arith

taken-open :
    (buf : List ℕ) (nb : ℕ) (c : Chan)
    → streams c ≡ true
    → takes_fragment buf nb c ≡ true
    → is_open c.recvfile_stream ≡ true
taken-open buf nb c h t = ground arith

pub filefragment-kept :
    (buf : List ℕ) (nb : ℕ) (c : Chan)
    → streams c ≡ true
    → last_write_fails buf nb c ≡ false
    → kept (procmsg_filefragment buf nb c) ≡ true
unfolding procmsg_filefragment
filefragment-kept buf nb c h k = elim (Bool-cases (takes_fragment buf nb c)) [
  | inl t ↦ elim (Option-cases c.recvfile_stream) [
    | inl e ↦ (let o : false ≡ true = rw e at (taken-open buf nb c h t) in cc)
    | inr (w, e) ↦ filefragment_open-kept buf w nb c h k t e refl
  ]
  | inr t ↦ not_taken-kept buf nb c h t
]

deny_or_fail-kept : (c : Chan) → streams c ≡ true → kept (deny_or_fail c) ≡ true
unfolding deny_or_fail deny_file c2c_writebuf_push
deny_or_fail-kept c h = ground arith

accepted_or_denied-kept :
    (ret : Code) (c : Chan)
    → streams c ≡ true
    → kept (when (is_ok ret) (return {A = ℕ} 1) deny_or_fail c) ≡ true
accepted_or_denied-kept ret c h = ground (arith, deny_or_fail-kept c h)

on_decision-kept :
    (d : Decision) (name : List ℕ) (c : Chan)
    → streams c ≡ true
    → kept (on_decision d name c) ≡ true
unfolding on_decision
on_decision-kept accept_now name c h =
    bind-kept (accept_file name) _ c (accept_file-kept name c h) accepted_or_denied-kept
on_decision-kept ask_later name c h = h
on_decision-kept deny_now name c h = deny_or_fail-kept c h

pub sendfilerequest-kept :
    (decide : ℕ → List ℕ → Decision) (buf : List ℕ) (nb : ℕ) (c : Chan)
    → streams c ≡ true
    → ltb nb (12 + filenamesize buf) ≡ false
    → kept (procmsg_sendfilerequest decide buf nb c) ≡ true
unfolding procmsg_sendfilerequest
sendfilerequest-kept decide buf nb c h k = elim (Bool-cases (is_recv_idle c.recvfilestate)) [
  | inl e ↦ elim (Bool-cases (validate_file_name (take (filenamesize buf) (drop 12 buf)))) [
    | inl v ↦ rw (e, k, v) (on_decision-kept _ _ _ (ground arith))
    | inr v ↦ rw (e, k, v) h
  ]
  | inr e ↦ rw e h
]
