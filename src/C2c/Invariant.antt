-- ===== src/C2c/Invariant.antt =====
-- PICA_client.c: what may happen to a channel, and that no stream is used that is not open. A call is
-- one of the application's; a message comes from the peer, and `nb` is its size.
use pica_pica.Common.{ℕ, ◌+◌, List, [], ◌∷◌, ◌≡◌, Bool, true, false, ◌&&◌, not, Option, ltb, refl}
use pica_pica.C2c.State.{Code, Chan, Res, done, fault, M, ◌>>◌, return}
use pica_pica.C2c.Files.{
  deny_file, accept_file, send_file, pause_file, resume_file, cancel_file, send_file_fragment,
  send_msg,
}
use pica_pica.C2c.Files.Kept.{
  deny_file-kept, accept_file-kept, send_file-kept, pause_file-kept, resume_file-kept,
  cancel_file-kept, send_file_fragment-kept, send_msg-kept,
}
use pica_pica.C2c.Messages.{
  Decision, procmsg_msgutf8, procmsg_msgok, procmsg_sendfilerequest, procmsg_acceptedfile,
  procmsg_deniedfile, procmsg_filefragment, procmsg_filecontrol, filenamesize,
}
use pica_pica.C2c.Messages.Kept.{
  msgutf8-kept, msgok-kept, sendfilerequest-kept, acceptedfile-kept, deniedfile-kept,
  filefragment-kept, filecontrol-kept, last_write_fails, cancels_unaccepted,
}
use pica_pica.C2c.Streams.{streams, kept, bind-kept}

pub data Call : Type 0 where
  send_msg_call : List ℕ → Call
  send_file_call : Option (List ℕ) → Option (List ℕ) → Call
  accept_file_call : List ℕ → Call
  deny_file_call send_file_fragment_call : Call
  pause_file_call resume_file_call cancel_file_call : Bool → Call

abbrev pub call : Call → M Code
call (send_msg_call buf) = send_msg buf
call (send_file_call path content) = send_file path content
call (accept_file_call filename) = accept_file filename
call deny_file_call = deny_file
call send_file_fragment_call = send_file_fragment
call (pause_file_call sending) = pause_file sending
call (resume_file_call sending) = resume_file sending
call (cancel_file_call sending) = cancel_file sending

-- Every call, in every state, keeps to the streams that are open: where the states of both transfers
-- have their streams, no stream is used that is not open, and the states have their streams again,
-- whatever the call returns.
pub call-kept : (k : Call) (c : Chan) → streams c ≡ true → kept (call k c) ≡ true
call-kept (send_msg_call buf) c h = send_msg-kept buf c h
call-kept (send_file_call path content) c h = send_file-kept path content c h
call-kept (accept_file_call filename) c h = accept_file-kept filename c h
call-kept deny_file_call c h = deny_file-kept c h
call-kept send_file_fragment_call c h = send_file_fragment-kept c h
call-kept (pause_file_call sending) c h = pause_file-kept sending c h
call-kept (resume_file_call sending) c h = resume_file-kept sending c h
call-kept (cancel_file_call sending) c h = cancel_file-kept sending c h

pub data Message : Type 0 where
  msgutf8_from msgok_from acceptedfile_from deniedfile_from filefragment_from : Message
  filecontrol_from : Message
  sendfilerequest_from : (ℕ → List ℕ → Decision) → Message

abbrev pub handle : Message → List ℕ → ℕ → M ℕ
handle msgutf8_from = procmsg_msgutf8
handle msgok_from = procmsg_msgok
handle acceptedfile_from = procmsg_acceptedfile
handle deniedfile_from = procmsg_deniedfile
handle filefragment_from = procmsg_filefragment
handle filecontrol_from = procmsg_filecontrol
handle (sendfilerequest_from decide) = procmsg_sendfilerequest decide

-- Not one of the messages that the handlers are at fault with.
abbrev pub harmless : Message → List ℕ → ℕ → Chan → Bool
harmless filefragment_from buf nb c = not (last_write_fails buf nb c)
harmless filecontrol_from buf nb c = not (cancels_unaccepted buf c)
harmless (sendfilerequest_from decide) buf nb c = not (ltb nb (12 + filenamesize buf))
harmless msgutf8_from buf nb c = true
harmless msgok_from buf nb c = true
harmless acceptedfile_from buf nb c = true
harmless deniedfile_from buf nb c = true

negated : {b : Bool} → not b ≡ true → b ≡ false
negated {b = true} h = cc
negated {b = false} h = refl

both : (a b : Bool) → a && b ≡ true → (a ≡ true) × (b ≡ true)
both true b h = (refl, h)
both false b h = cc

handle-kept :
    (m : Message) (buf : List ℕ) (nb : ℕ) (c : Chan)
    → streams c ≡ true
    → harmless m buf nb c ≡ true
    → kept (handle m buf nb c) ≡ true
handle-kept msgutf8_from buf nb c h k = msgutf8-kept buf nb c h
handle-kept msgok_from buf nb c h k = msgok-kept buf nb c h
handle-kept acceptedfile_from buf nb c h k = acceptedfile-kept buf nb c h
handle-kept deniedfile_from buf nb c h k = deniedfile-kept buf nb c h
handle-kept filefragment_from buf nb c h k = filefragment-kept buf nb c h (negated k)
handle-kept filecontrol_from buf nb c h k = filecontrol-kept buf nb c h (negated k)
handle-kept (sendfilerequest_from decide) buf nb c h k =
    sendfilerequest-kept decide buf nb c h (negated k)

pub data Event : Type 0 where
  called_by : Call → Event
  received : Message → List ℕ → ℕ → Event

abbrev pub happens : Event → M (Unit {0})
happens (called_by k) = call k >> return tt
happens (received m buf nb) = handle m buf nb >> return tt

abbrev pub event_harmless : Event → Chan → Bool
event_harmless (called_by k) c = true
event_harmless (received m buf nb) c = harmless m buf nb c

unfoldable pub run : List Event → M (Unit {0})
run [] = return tt
run (e ∷ es) = happens e >> run es

-- Whether each event of a run is harmless in the state that it finds.
unfoldable pub all_harmless : List Event → Chan → Bool
all_harmless [] c = true
all_harmless (e ∷ es) c =
    event_harmless e c && elim (happens e c) [ done _ c' ↦ all_harmless es c' | fault ↦ true ]

happens-kept :
    (e : Event) (c : Chan)
    → streams c ≡ true
    → event_harmless e c ≡ true
    → kept (happens e c) ≡ true
happens-kept (called_by k) c h g = bind-kept (call k) _ c (call-kept k c h) (λ a c' h'. h')
happens-kept (received m buf nb) c h g =
    bind-kept (handle m buf nb) _ c (handle-kept m buf nb c h g) (λ a c' h'. h')

next-kept :
    (es : List Event) (r : Res (Unit {0}))
    → kept r ≡ true
    → elim r [ done _ c' ↦ all_harmless es c' | fault ↦ true ] ≡ true
    → ((c : Chan) → streams c ≡ true → all_harmless es c ≡ true → kept (run es c) ≡ true)
    → kept (elim r as (λ _. Res (Unit {0})) [ done _ c' ↦ run es c' | fault ↦ fault ]) ≡ true
next-kept es (done _ c') h k ih = ih c' h k
next-kept es fault h k ih = cc

-- Of any run of calls and of messages about texts and files, each of which is harmless in the state
-- that it finds, the channel comes out with the streams open that its states use, and no stream was
-- used that is not open. A message is harmful only where it is a fragment that ends the file and cannot
-- be written, a cancellation of a file not yet accepted, or a request that claims more bytes than it
-- has.
pub run-kept :
    (es : List Event) (c : Chan)
    → streams c ≡ true
    → all_harmless es c ≡ true
    → kept (run es c) ≡ true
unfolding run all_harmless
run-kept [] c h k = h
run-kept (e ∷ es) c h k =
    next-kept es (happens e c) (happens-kept e c h (both _ _ k).0) (both _ _ k).1 (run-kept es)
