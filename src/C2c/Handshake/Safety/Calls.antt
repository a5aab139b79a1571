-- ===== src/C2c/Handshake/Safety/Calls.antt =====
-- PICA_client.c: the functions that the application calls leave the state of the channel.
use pica_pica.Common.{
  ℕ, ◌≡◌, refl, List, Bool, true, false, ◌||◌, none, some, ltb, ◌==◌, length, arith, inl, inr,
  Bool-cases,
}
use pica_pica.Proto.C2c.{c2cmsg_maxfilenamesize}
use pica_pica.Node.Wbuf.{malloc}
use pica_pica.C2c.State.{
  C2cState, Chan, Res, done, fault, ◌>>=◌, c2c_writebuf_push, close_send, close_recv, fread,
}
use pica_pica.C2c.Files.{
  is_waitaccept, is_send_idle, after_slash, c_string, deny_file, accept_file, send_filecontrol,
  sendfile_open_read, send_file, pause_file, resume_file, cancel_file, send_file_fragment,
  fragment_sent, send_msg,
}
use pica_pica.C2c.Files.Kept.{recvfile_opened}
use pica_pica.C2c.Invariant.{
  Call, call, send_msg_call, send_file_call, accept_file_call, deny_file_call,
  send_file_fragment_call, pause_file_call, resume_file_call, cancel_file_call,
}

-- Whether the channel that comes back has a state with a property.
abbrev pub state_is : {A : Type 0} → (C2cState → Bool) → Res A → Bool
state_is p (done a c) = p c.state
state_is p fault = true

accept_file_state :
    (p : C2cState → Bool) (name : List ℕ) (c : Chan) (answer : Bool × List Bool)
    → p c.state ≡ true
    → malloc c.opens ≡ answer
    → state_is p (accept_file name c) ≡ true
unfolding accept_file c2c_writebuf_push
accept_file_state p name c (true, opens') h e = elim (Bool-cases (is_waitaccept c.recvfilestate)) [
  | inl k ↦ rw k (rw (recvfile_opened name c e, state_is) (ground arith))
  | inr k ↦ rw k h
]
accept_file_state p name c (false, opens') h e = elim (Bool-cases (is_waitaccept c.recvfilestate)) [
  | inl k ↦ rw k (rw (recvfile_opened name c e, ◌>>=◌) (ground arith))
  | inr k ↦ rw k h
]

send_file_state :
    (p : C2cState → Bool) (path bytes : List ℕ) (c : Chan)
    → p c.state ≡ true
    → state_is p (send_file (some path) (some bytes) c) ≡ true
unfolding send_file sendfile_open_read c2c_writebuf_push
send_file_state p path bytes c h = elim (Bool-cases (is_send_idle c.sendfilestate)) [
  | inl e ↦
      elim (Bool-cases (
        length (after_slash (c_string path) (c_string path)) == 0
        || ltb c2cmsg_maxfilenamesize (length (after_slash (c_string path) (c_string path))))) [
          | inl k ↦ rw (e, k) h
          | inr k ↦ rw (e, k) (ground arith)
        ]
  | inr e ↦ rw e h
]

pub call_state :
    (p : C2cState → Bool) (k : Call) (c : Chan) → p c.state ≡ true → state_is p (call k c) ≡ true
unfolding send_msg deny_file send_file send_file_fragment fread close_send close_recv
    send_filecontrol c2c_writebuf_push fragment_sent pause_file resume_file cancel_file
    sendfile_open_read
call_state p (send_msg_call buf) c h = ground arith
call_state p (send_file_call none content) c h = ground arith
call_state p (send_file_call (some path) none) c h = ground arith
call_state p (send_file_call (some path) (some bytes)) c h = send_file_state p path bytes c h
call_state p (accept_file_call filename) c h =
    accept_file_state p filename c (malloc c.opens) h refl
call_state p deny_file_call c h = ground arith
call_state p send_file_fragment_call c h = ground arith
call_state p (pause_file_call true) c h = ground arith
call_state p (pause_file_call false) c h = ground arith
call_state p (resume_file_call true) c h = ground arith
call_state p (resume_file_call false) c h = ground arith
call_state p (cancel_file_call true) c h = ground arith
call_state p (cancel_file_call false) c h = ground arith
