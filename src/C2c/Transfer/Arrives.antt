-- ===== src/C2c/Transfer/Arrives.antt =====
-- PICA_client.c: a file that is offered and accepted at once is sent and arrives.
use pica_pica.Common.{
  ℕ, ◌+◌, ◌<◌, ◌≤◌, ◌≡◌, ◌≢◌, refl, sym, ap, ◌∙◌, List, [], ◌∷◌, ◌++◌, true, length, arith, inl,
  inr,
}
use mathlib.Core.List.{append_assoc}
use pica_pica.Proto.C2c.{sendfilerequest, acceptedfile, acceptedfile_size}
use pica_pica.Msgproc.Defs.{
  MsgInfo, processdatastream, msg_var_size, msg_varsize_int16, msg_fixed_size,
}
use pica_pica.Msgproc.Encode.{size_bytes, find_msg, encode}
use pica_pica.C2c.State.{
  send_idle, send_sending, recv_idle, accepted_file_cb, Chan, Res, done, ◌>>=◌, chanwritebufsize,
}
use pica_pica.C2c.Messages.{
  Decision, accept_now, procmsg_sendfilerequest, procmsg_acceptedfile, validate_file_name,
}
use pica_pica.C2c.Table.{c2c_messages, entry}
use pica_pica.C2c.Transfer.{pass, offer, offer_and_send, then_send}
use pica_pica.C2c.Transfer.Send.{wbuf_push-enough}
use pica_pica.C2c.Transfer.Receive.{processdatastream-handled}
use pica_pica.C2c.Transfer.Complete.{readable, Completes, transfer-Completes}
use pica_pica.C2c.Transfer.Offer.{
  name_of, pushed, request, offered, request_msg, accepted, asked, send_file-offered,
  request_handled,
}

abbrev pub flushed : Chan → Chan
flushed a = record a { wbuf = record a.wbuf { bytes = [] } }

pass_step :
    (decide : ℕ → List ℕ → Decision) (a b b' : Chan) (bytes : List ℕ)
    → a.wbuf.bytes ≡ bytes
    → processdatastream bytes (done tt b) (c2c_messages decide) ≡ (1, [], done tt b')
    → pass decide (done tt a) (done tt b) ≡ (done tt (flushed a), done tt b')
unfolding pass
pass_step decide a b b' bytes e f = rw e (rw f refl)

pushed_bytes :
    (msgid : ℕ) (tail : List ℕ) (s : Chan)
    → s.wbuf.bytes ≡ []
    → (pushed msgid tail s).wbuf.bytes ≡ msgid ∷ msgid ∷ tail
pushed_bytes msgid tail s e =
    (wbuf_push-enough chanwritebufsize s.wbuf msgid tail).1
    ∙ ap (λ (w : List ℕ). w ++ (msgid ∷ msgid ∷ tail)) e

-- What the request needs of the two clients.
pub record Ready (path content : List ℕ) (s r : Chan) : Type 0 where
  pub sender_idle : s.sendfilestate ≡ send_idle
  pub sender_memory : s.mem ≡ []
  pub sender_flushed : s.wbuf.bytes ≡ []
  pub sender_reads : readable s.reads ≡ true
  pub receiver_idle : r.recvfilestate ≡ recv_idle
  pub receiver_memory : r.mem ≡ []
  pub receiver_opens : r.opens ≡ []
  pub receiver_writes : r.writes ≡ []
  pub receiver_flushed : r.wbuf.bytes ≡ []
  pub receiver_random : length r.random ≡ 2
  pub name_some : length (name_of path) ≢ 0
  pub name_short : length (name_of path) ≤ 255
  pub name_valid : validate_file_name (name_of path) ≡ true
  pub file_some : length content ≢ 0
  pub file_small : length content < 18446744073709551616

abbrev receiver_after : List ℕ → List ℕ → Chan → Chan
receiver_after path content r = accepted (name_of path) (asked (length content) (name_of path) r)

abbrev sender_after : List ℕ → List ℕ → Chan → Chan
sender_after path content s =
    let s1 = flushed (offered path content s) in
    record s1 { sendfilestate = send_sending; called = s1.called ++ (accepted_file_cb ∷ []) }

module _ (decide : ℕ → List ℕ → Decision) (path content : List ℕ) (s r : Chan)
    (ready : Ready path content s r) where
  abbrev request_entry : MsgInfo (Res (Unit {0}))
  request_entry =
      entry sendfilerequest msg_var_size msg_varsize_int16 (procmsg_sendfilerequest decide)

  abbrev request_tail : List ℕ
  request_tail = size_bytes 8 (length content) ++ name_of path

  length-request_tail : length request_tail ≡ length (name_of path) + 8
  unfolding size_bytes
  length-request_tail = omega arith

  encode-request : encode request_entry request_tail ≡ request_msg path content
  unfolding encode
  encode-request = rw length-request_tail (
      ap (λ (t : List ℕ). sendfilerequest ∷ sendfilerequest ∷ t)
        (sym (
          append_assoc (size_bytes 2 (length (name_of path) + 8)) (size_bytes 8 (length content))
            (name_of path))))

  request_passed :
      decide (length content) (name_of path) ≡ accept_now
      → pass decide (done tt (offered path content s)) (done tt r)
        ≡ (done tt (flushed (offered path content s)), done tt (receiver_after path content r))
  unfolding find_msg
  request_passed d =
      pass_step decide (offered path content s) r (receiver_after path content r)
        (request_msg path content)
        (pushed_bytes sendfilerequest (request path content) s ready.sender_flushed)
        (rw (sym encode-request) (
          processdatastream-handled decide sendfilerequest msg_var_size msg_varsize_int16
            (procmsg_sendfilerequest decide) request_tail _ _ refl
            record {
              id_byte = omega arith;
              layout = inr (refl, omega (arith, length-request_tail, ready.name_short));
              small = omega (arith, length-request_tail, ready.name_short);
            }
            (rw encode-request (
              request_handled decide path content r ready.file_small ready.name_short
                ready.name_valid d ready.receiver_idle ready.receiver_memory
                ready.receiver_opens))))

  acceptance_passed :
      pass decide
        (done tt (receiver_after path content r))
        (done tt (flushed (offered path content s)))
      ≡ (done tt (flushed (receiver_after path content r)), done tt (sender_after path content s))
  unfolding find_msg encode procmsg_acceptedfile
  acceptance_passed =
      pass_step decide (receiver_after path content r) (flushed (offered path content s))
        (sender_after path content s) (acceptedfile ∷ acceptedfile ∷ r.random)
        (pushed_bytes acceptedfile r.random r ready.receiver_flushed)
        (processdatastream-handled decide acceptedfile msg_fixed_size acceptedfile_size
          procmsg_acceptedfile r.random _ _ refl
          record {
            id_byte = omega arith;
            layout = inl (refl, omega (arith, ready.receiver_random));
            small = omega (arith, ready.receiver_random);
          }
          refl)

  offer_accepted :
      decide (length content) (name_of path) ≡ accept_now
      → offer decide path content s r
        ≡ (done tt (sender_after path content s), done tt (flushed (receiver_after path content r)))
  unfolding offer
  offer_accepted d =
      rw
        (
          send_file-offered path content s ready.sender_idle ready.sender_memory ready.name_some
              ready.name_short,
          ◌>>=◌,
        )
        (rw (request_passed d) (rw acceptance_passed refl))

  -- A file of at least one byte that is offered, and that the application of the receiver accepts at
  -- once, arrives whole: the request, the answer and then as many rounds of the sender's event loop as
  -- the file has bytes, or more, leave both clients idle and told of the end, and leave the receiver
  -- one more closed file, which holds exactly the bytes of the sender's. The two clients transfer no
  -- other file, have nothing else to send and want for neither memory nor files nor disk, and the
  -- file's name is one that the receiver takes.
  pub offer_and_send-Completes :
      (n : ℕ)
      → length content ≤ n
      → decide (length content) (name_of path) ≡ accept_now
      → Completes content r.closed_files (offer_and_send decide n path content s r)
  unfolding offer_and_send then_send
  offer_and_send-Completes n le d = rw (offer_accepted d) (
      transfer-Completes decide n content [] (sender_after path content s)
        (flushed (receiver_after path content r)) ready.file_some le ready.sender_reads
        record {
          sending = refl;
          stream = refl;
          position = omega arith;
          size = ready.file_small;
          flushed = refl;
          memory = refl;
        }
        record {
          receiving = refl;
          stream = refl;
          position = omega arith;
          size = ready.file_small;
          writable = ready.receiver_writes;
        })
