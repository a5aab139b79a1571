-- ===== src/C2c/Handshake/Establish/Agreed.antt =====
-- PICA_client.c: the rounds in which two clients agree on the version of their protocol.
use pica_pica.Common.{ℕ, ◌≡◌, refl, List, [], ◌∷◌, ◌++◌, true, false, Option, some}
use pica_pica.Proto.{initrespok}
use pica_pica.Node.Wbuf.{wbuf_push, first_alloc, make_room, put_msg}
use pica_pica.Msgproc.Defs.{
  processdatastream, stream_loop, round, msggetsize, getsize_loop, processmsg, dispatch,
}
use pica_pica.C2c.State.{
  c2c_waitingrep, c2c_waitingc2cprotover, c2c_active, DirectConfig, cfg_disabled, cfg_connectonly,
  cfg_allowincoming, Listener, pica_ok, c2c_established_cb, c2c_writebuf_push,
}
use pica_pica.C2c.Direct.{allows_incoming, established, procmsg_c2cconnreq, procmsg_initresp_c2c}
use pica_pica.C2c.Table.{on_chan}
use pica_pica.C2c.Write.{write_c2c, write_either, no_barrier, write_ssl}
use pica_pica.C2c.Handshake.{Cert, Trust, ran}
use pica_pica.C2c.Handshake.Io.{
  write_channel, writer_of, put_writer, read_channel, read_ssl, read_messages, after_messages,
}
use pica_pica.C2c.Handshake.Process.{
  process_state, process_waitingrep, process_active, write_active, fragment_on_empty, write_pending,
  read_active,
}
use pica_pica.C2c.Handshake.Establish.{Client, c2n_alloc_c2c, wrote_at, read_at}
use pica_pica.C2c.Handshake.Establish.Rounds.{at_stage, buffer, request}

pub request_step :
    (t : Trust) (me : Client) (peer : List ℕ) (x : Cert) (made time : ℕ) (sent : List ℕ)
    → process_state t
        (wrote_at 4 time)
        c2c_waitingrep
        (at_stage me peer true made c2c_waitingrep (buffer request) sent (some x) [])
      ≡ ran pica_ok
          (at_stage me peer true made c2c_waitingrep (buffer []) (sent ++ request) (some x) [])
unfolding process_state process_waitingrep write_channel writer_of put_writer write_c2c write_either
    no_barrier write_ssl c2n_alloc_c2c
request_step t me peer x made time sent = refl

abbrev pub reply : List ℕ
reply = initrespok ∷ initrespok ∷ 79 ∷ 75 ∷ []

accepted_by :
    (t : Trust) (own : List ℕ) (k : DirectConfig) (lst : Option Listener) (noise : List ℕ)
    (peer : List ℕ) (x : Cert) (made time : ℕ) (sent : List ℕ)
    → allows_incoming k ≡ false
    → let me : Client = record { own_id = own; config = k; listens = lst; noise = noise } in
      process_state t
        (read_at request time)
        c2c_waitingc2cprotover
        (at_stage me peer false made c2c_waitingc2cprotover (buffer []) sent (some x) [])
      ≡ ran pica_ok (
          at_stage me peer false made c2c_active
            (buffer reply)
            sent
            (some x)
            (c2c_established_cb ∷ []))
unfolding process_state process_waitingrep read_channel read_ssl read_messages processdatastream
    stream_loop round msggetsize getsize_loop processmsg dispatch on_chan procmsg_c2cconnreq
    c2c_writebuf_push wbuf_push first_alloc make_room put_msg after_messages established
    c2n_alloc_c2c
accepted_by t own cfg_disabled lst noise peer x made time sent v = refl
accepted_by t own cfg_connectonly lst noise peer x made time sent v = refl
accepted_by t own cfg_allowincoming lst noise peer x made time sent v = cc

pub accepted_step :
    (t : Trust) (me : Client) (peer : List ℕ) (x : Cert) (made time : ℕ) (sent : List ℕ)
    → allows_incoming me.config ≡ false
    → process_state t
        (read_at request time)
        c2c_waitingc2cprotover
        (at_stage me peer false made c2c_waitingc2cprotover (buffer []) sent (some x) [])
      ≡ ran pica_ok (
          at_stage me peer false made c2c_active
            (buffer reply)
            sent
            (some x)
            (c2c_established_cb ∷ []))
accepted_step t me peer x made time sent v =
    accepted_by t me.own_id me.config me.listens me.noise peer x made time sent v

pub replied_step :
    (t : Trust) (me : Client) (peer : List ℕ) (x : Cert) (made time : ℕ) (sent : List ℕ)
    → process_state t (wrote_at 4 time) c2c_active (
        at_stage me peer false made c2c_active
          (buffer reply)
          sent
          (some x)
          (c2c_established_cb ∷ []))
      ≡ ran pica_ok (
          at_stage me peer false made c2c_active
            (buffer [])
            (sent ++ reply)
            (some x)
            (c2c_established_cb ∷ []))
unfolding process_state process_active write_active fragment_on_empty write_pending read_active
    write_channel writer_of put_writer write_c2c write_either no_barrier write_ssl c2n_alloc_c2c
replied_step t me peer x made time sent = refl

answered_by :
    (t : Trust) (own : List ℕ) (k : DirectConfig) (lst : Option Listener) (noise : List ℕ)
    (peer : List ℕ) (x : Cert) (made time : ℕ) (sent : List ℕ)
    → allows_incoming k ≡ false
    → let me : Client = record { own_id = own; config = k; listens = lst; noise = noise } in
      process_state t
        (read_at reply time)
        c2c_waitingrep
        (at_stage me peer true made c2c_waitingrep (buffer []) sent (some x) [])
      ≡ ran pica_ok (
          at_stage me peer true made c2c_active (buffer []) sent (some x) (c2c_established_cb ∷ []))
unfolding process_state process_waitingrep read_channel read_ssl read_messages processdatastream
    stream_loop round msggetsize getsize_loop processmsg dispatch on_chan procmsg_initresp_c2c
    after_messages established c2n_alloc_c2c
answered_by t own cfg_disabled lst noise peer x made time sent v = refl
answered_by t own cfg_connectonly lst noise peer x made time sent v = refl
answered_by t own cfg_allowincoming lst noise peer x made time sent v = cc

pub answered_step :
    (t : Trust) (me : Client) (peer : List ℕ) (x : Cert) (made time : ℕ) (sent : List ℕ)
    → allows_incoming me.config ≡ false
    → process_state t
        (read_at reply time)
        c2c_waitingrep
        (at_stage me peer true made c2c_waitingrep (buffer []) sent (some x) [])
      ≡ ran pica_ok (
          at_stage me peer true made c2c_active (buffer []) sent (some x) (c2c_established_cb ∷ []))
answered_step t me peer x made time sent v =
    answered_by t me.own_id me.config me.listens me.noise peer x made time sent v
