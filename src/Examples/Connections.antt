-- ===== src/Examples/Connections.antt =====
-- Connections between two clients: the output buffer and the messages about a direct connection.
use pica_pica.Common.{◌≡◌, refl, List, [], ◌∷◌, ◌++◌, false, some, arith}
use pica_pica.Proto.{verdiffer}
use pica_pica.Proto.C2c.{directc2c_addrlist, c2cconnreq}
use pica_pica.C2c.State.{
  c2c_waitingc2cprotover, cfg_allowincoming, direct_waitingincoming, conn_connecting, Listener,
  Direct, Chan, done,
}
use pica_pica.Netconf.{ntohs}
use pica_pica.C2c.Write.{
  wrote, Writer, exited, write_ssl, write_either, before_barrier, no_barrier, push, send_switch,
}
use pica_pica.C2c.Write.Order.{IsValid}
use pica_pica.C2c.Write.Refinement.{
  Op, push_op, switch_op, write_op, apply, Runs, stop, next, promises, wire_of, Delivers,
  Runs-Delivers,
}
use pica_pica.C2c.Direct.{
  send_directc2caddrlist, procmsg_c2cconnreq, process_waiting_write, procmsg_directc2c_addrlist,
  c2cproto_ver_high, c2cproto_ver_low,
}
use pica_pica.C2c.Direct.Outcomes.{
  TakesList, addrlist_tail, c2cconnreq_verdiffer-exited, directc2c_addrlist-roundtrip,
}
use pica_pica.Examples.Channels.{channel}

abbrev empty_writer : Writer
empty_writer = record {
  buf = [];
  write_pos = 0;
  sslbytestowrite = 0;
  barrier_pos = 0;
  before_barrier_pos = 0;
  switched = false;
  disconnect_on_empty = false;
  closed = false;
  relay = [];
  direct = [];
}

empty_writer-IsValid : IsValid empty_writer
empty_writer-IsValid = record {
  fits = omega arith;
  barrier_within = omega arith;
  before_within = omega arith;
  asked_within = omega arith;
  one_switch = λ s. refl;
  direct_later = λ s. refl;
}

-- Two bytes, the announcement and one byte behind it, written in three calls.
abbrev ops : List Op
ops =
    push_op (1 ∷ 2 ∷ [])
    ∷ switch_op (13 ∷ 13 ∷ 0 ∷ 0 ∷ [])
    ∷ push_op (5 ∷ [])
    ∷ write_op (wrote 4)
    ∷ write_op (wrote 2)
    ∷ write_op (wrote 1)
    ∷ []

abbrev after_switch : Writer
after_switch =
    apply (push_op (5 ∷ []))
      (apply (switch_op (13 ∷ 13 ∷ 0 ∷ 0 ∷ [])) (apply (push_op (1 ∷ 2 ∷ [])) empty_writer))

abbrev written : Writer
written =
    apply (write_op (wrote 1))
      (apply (write_op (wrote 2)) (apply (write_op (wrote 4)) after_switch))

runs : Runs empty_writer ops written
unfolding push send_switch write_either write_ssl before_barrier no_barrier
runs = next tt (
    next (refl, refl, omega arith)
      (next tt (next (omega arith) (next (omega arith) (next (omega arith) stop)))))

Runs-Delivers_example : Delivers written (promises ops (wire_of empty_writer))
Runs-Delivers_example = Runs-Delivers empty_writer written ops empty_writer-IsValid runs

abbrev waits_version : Chan
waits_version = record channel { state = c2c_waitingc2cprotover }

c2cconnreq_verdiffer-exited_example :
    (c' : Chan) × (procmsg_c2cconnreq (c2cconnreq ∷ c2cconnreq ∷ 0 ∷ 2 ∷ []) 4 waits_version
      ≡ done 1 c')
    × (c'.wbuf.bytes ≡ [] ++ (verdiffer ∷ verdiffer ∷ c2cproto_ver_high ∷ c2cproto_ver_low ∷ []))
    × (process_waiting_write (wrote 4) empty_writer c' ≡ exited)
c2cconnreq_verdiffer-exited_example =
    c2cconnreq_verdiffer-exited (c2cconnreq ∷ c2cconnreq ∷ 0 ∷ 2 ∷ []) 4 waits_version (wrote 4)
      empty_writer refl refl refl

abbrev waits_incoming : Chan
waits_incoming = record channel {
  outgoing = false;
  directc2c_config = cfg_allowincoming;
  directc2c_state = direct_waitingincoming;
}

channel-TakesList : TakesList channel
channel-TakesList = record { inactive = refl; enabled = refl; memory = refl; starts = refl }

abbrev listener : Listener
listener = record { public_addr_ipv4 = 16777343; public_port = 2233 }

abbrev listens : Chan
listens = record channel { directc2c_config = cfg_allowincoming; listener = some listener }

directc2c_addrlist-roundtrip_example :
    let msg = directc2c_addrlist ∷ directc2c_addrlist ∷ addrlist_tail listener in
    (s' : Chan) × (r' : Chan) × (d : Direct) × (send_directc2caddrlist listens ≡ done tt s')
    × (s'.wbuf.bytes ≡ [] ++ msg)
    × (procmsg_directc2c_addrlist msg 11 channel ≡ done 1 r')
    × (r'.direct ≡ some d)
    × (d.conn_state ≡ conn_connecting)
    × (d.addr.s_addr ≡ 16777343)
    × (ntohs d.addr.sin_port ≡ 2233)
directc2c_addrlist-roundtrip_example =
    directc2c_addrlist-roundtrip listener listens channel 11 (omega arith) (omega arith) refl refl
      refl channel-TakesList
