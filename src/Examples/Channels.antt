-- ===== src/Examples/Channels.antt =====
-- Channels between two clients, in runs on small files.
use pica_pica.Common.{ℕ, ◌≡◌, ◌⊎◌, refl, List, [], ◌∷◌, true, false, none, some, take, drop, arith}
use pica_pica.Proto.C2c.{filecontrol, filefragment, sendfilerequest}
use pica_pica.Node.Wbuf.{empty_wbuf, malloc}
use pica_pica.C2c.State.{
  c2c_active, direct_inactive, cfg_connectonly, send_idle, send_sending, recv_idle, recv_receiving,
  recv_waitaccept, Chan, done, fault, ◌>>◌,
}
use pica_pica.C2c.Files.{pause_file, cancel_file, c_string, accept_file, deny_file}
use pica_pica.C2c.Streams.{kept}
use pica_pica.C2c.Messages.{
  Decision, accept_now, ask_later, procmsg_filecontrol, procmsg_filefragment,
  procmsg_sendfilerequest, filenamesize, validate_file_name, has_byte, has_dots, on_decision,
  deny_or_fail,
}
use pica_pica.C2c.Messages.Faults.{filecontrol_unaccepted-fault, pauses-refused, Answers}
use pica_pica.C2c.Messages.Kept.{last_write_fails}
use pica_pica.C2c.Messages.Names.{SafeName, opened_of, sendfilerequest-SafeName}
use pica_pica.C2c.Invariant.{
  run, run-kept, called_by, received, accept_file_call, cancel_file_call, sendfilerequest_from,
  filefragment_from, all_harmless, Event,
}
use pica_pica.C2c.Transfer.{exchange, offer_and_send}
use pica_pica.C2c.Transfer.Complete.{Completes, transfer-Completes}
use pica_pica.C2c.Transfer.Arrives.{Ready, offer_and_send-Completes}

abbrev pub channel : Chan
channel = record {
  state = c2c_active;
  outgoing = true;
  wbuf = empty_wbuf;
  sendfilestate = send_idle;
  sendfile_size = 0;
  sendfile_pos = 0;
  sendfile_stream = none;
  recvfilestate = recv_idle;
  recvfile_size = 0;
  recvfile_pos = 0;
  recvfile_stream = none;
  disconnect_on_empty_write_buf = false;
  directc2c_state = direct_inactive;
  direct = none;
  switched_to_directc2c_read = false;
  directc2c_config = cfg_connectonly;
  listener = none;
  called = [];
  opened = [];
  closed_files = [];
  random = 1 ∷ 2 ∷ [];
  mem = [];
  opens = [];
  connects = [];
  writes = [];
  reads = [];
}

-- A file of three bytes, whose first read gives two.
abbrev sender : Chan
sender = record channel {
  sendfilestate = send_sending;
  sendfile_size = 5;
  sendfile_pos = 2;
  sendfile_stream = some (7 ∷ 8 ∷ 9 ∷ []);
  reads = 2 ∷ [];
}

abbrev receiver : Chan
receiver = record channel {
  recvfilestate = recv_receiving;
  recvfile_size = 5;
  recvfile_pos = 2;
  recvfile_stream = some (5 ∷ 6 ∷ []);
}

abbrev accepts : ℕ → List ℕ → Decision
accepts size name = accept_now

transfer-Completes_example :
    Completes (5 ∷ 6 ∷ 7 ∷ 8 ∷ 9 ∷ []) [] (exchange accepts 3 sender (done tt receiver))
transfer-Completes_example =
    transfer-Completes accepts 3 (7 ∷ 8 ∷ 9 ∷ []) (5 ∷ 6 ∷ []) sender receiver (omega arith)
      (omega arith) refl
      record {
        sending = refl;
        stream = refl;
        position = refl;
        size = omega arith;
        flushed = refl;
        memory = refl;
      }
      record {
        receiving = refl;
        stream = refl;
        position = refl;
        size = omega arith;
        writable = refl;
      }

-- The path `d/ab`.
abbrev path : List ℕ
path = 100 ∷ 47 ∷ 97 ∷ 98 ∷ []

abbrev content : List ℕ
content = 7 ∷ 8 ∷ 9 ∷ []

ready : Ready path content channel channel
unfolding validate_file_name has_byte has_dots pica_pica.C2c.Files.after_slash
ready = record {
  sender_idle = refl;
  sender_memory = refl;
  sender_flushed = refl;
  sender_reads = refl;
  receiver_idle = refl;
  receiver_memory = refl;
  receiver_opens = refl;
  receiver_writes = refl;
  receiver_flushed = refl;
  receiver_random = refl;
  name_some = omega arith;
  name_short = omega arith;
  name_valid = refl;
  file_some = omega arith;
  file_small = omega arith;
}

offer_and_send-Completes_example :
    Completes content [] (offer_and_send accepts 3 path content channel channel)
offer_and_send-Completes_example =
    offer_and_send-Completes accepts path content channel channel ready 3 (omega arith) refl

-- The request that goes with it.
abbrev request : List ℕ
request = sendfilerequest ∷ sendfilerequest ∷ 10 ∷ 0 ∷ 3 ∷ 0 ∷ 0 ∷ 0 ∷ 0 ∷ 0 ∷ 0 ∷ 0 ∷ 97 ∷ 98 ∷ []

abbrev three_bytes : List ℕ
three_bytes = filefragment ∷ filefragment ∷ 3 ∷ 0 ∷ 7 ∷ 8 ∷ 9 ∷ []

abbrev asks : ℕ → List ℕ → Decision
asks size name = ask_later

abbrev events : List Event
events =
    received (sendfilerequest_from asks) request 14
    ∷ called_by (accept_file_call (97 ∷ []))
    ∷ received filefragment_from three_bytes 7
    ∷ called_by (cancel_file_call false)
    ∷ []

run-kept_example : kept (run events channel) ≡ true
unfolding all_harmless procmsg_sendfilerequest last_write_fails validate_file_name has_byte has_dots
    on_decision accept_file pica_pica.C2c.Files.recvfile_open_write malloc
    pica_pica.C2c.State.c2c_writebuf_push pica_pica.Msgproc.Defs.tail_len procmsg_filefragment
    pica_pica.C2c.State.fwrite pica_pica.C2c.Messages.fragment_received
    pica_pica.C2c.State.close_recv cancel_file
run-kept_example = run-kept events channel refl refl

abbrev waiting : Chan
waiting = record channel { recvfilestate = recv_waitaccept; recvfile_size = 3 }

filecontrol_unaccepted-fault_example :
    procmsg_filecontrol (filecontrol ∷ filecontrol ∷ 3 ∷ 0 ∷ []) 4 waiting ≡ fault
filecontrol_unaccepted-fault_example =
    filecontrol_unaccepted-fault (filecontrol ∷ filecontrol ∷ 3 ∷ 0 ∷ []) 4 waiting refl refl

-- The disk is full at the write of the last three bytes.
abbrev full_disk : Chan
full_disk = record receiver { writes = false ∷ [] }

pauses-refused_example :
    Answers 0
      ((pause_file true >> procmsg_filecontrol (filecontrol ∷ filecontrol ∷ 0 ∷ 1 ∷ []) 4) sender)
    × Answers 0 (
        (pause_file false >> procmsg_filecontrol (filecontrol ∷ filecontrol ∷ 1 ∷ 0 ∷ []) 4)
          receiver)
pauses-refused_example = pauses-refused sender receiver refl refl

sendfilerequest-SafeName_example :
    let name = c_string (take (filenamesize request) (drop 12 request)) in
    let opened = opened_of [] (procmsg_sendfilerequest accepts request 14 channel) in
    (opened ≡ []) ⊎ ((opened ≡ name ∷ []) × SafeName name)
sendfilerequest-SafeName_example = sendfilerequest-SafeName accepts request 14 channel
