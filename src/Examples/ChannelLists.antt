-- ===== src/Examples/ChannelLists.antt =====
-- Lists of channels.
use pica_pica.Proto.{connreqoutg}
use pica_pica.Node.Ids.{memcmp}
use pica_pica.Node.Wbuf.{empty_wbuf}
use pica_pica.C2c.State.{pica_ok, c2c_connecting}
use pica_pica.C2c.Write.{want_io}
use pica_pica.C2c.Handshake.{
  set_state, connect_under_way, c2c_start, process_first_async_connect_result,
}
use pica_pica.C2n.Requests.{
  NodeConn, c2n_connected, handled, spinning, was_notfound, new_c2c, procmsg_notfound,
  procmsg_found, procmsg_connreqinc,
}
use pica_pica.C2n.Requests.Answered.{new_c2c-notfound, procmsg_found-Lists}
use pica_pica.C2n.Requests.Incoming.{procmsg_connreqinc_spins}
use pica_pica.Common.{
  ℕ, ◌≡◌, refl, List, [], ◌∷◌, ◌++◌, true, Option, none, some, ◌==◌, if◌then◌else◌, arith,
}
use pica_pica.C2c.Handshake.{Conn, Answers}
use pica_pica.C2c.Handshake.Process.{process_c2c, process_state, conclude, timed}
use pica_pica.C2c.Handshake.Establish.{c2n_alloc_c2c, quiet}
use pica_pica.C2n.Channels.{Cell, Channels, close_c2c, close_all, link_channel, process_channels}
use pica_pica.C2n.Channels.Segments.{Entry, Lists}
use pica_pica.C2n.Channels.Close.{close_c2c-Lists, close_all-Lists}
use pica_pica.C2n.Channels.Add.{link_channel-Lists}
use pica_pica.C2n.Channels.Loop.{survivors, process_channels-Lists}
use pica_pica.Examples.Handshakes.{id_of, person, trusting}

abbrev older : Conn
older = c2n_alloc_c2c (person 1) (id_of 2) true 0

abbrev newer : Conn
newer = c2n_alloc_c2c (person 1) (id_of 3) true 20

abbrev two_cells : ℕ → Option Cell
two_cells p =
    if p == 64
    then some record { conn = older; next = some 96; prev = none }
    else if p == 96
    then some record { conn = newer; next = none; prev = some 64 }
    else none

abbrev two : Channels
two = record { cells = two_cells; chan_list_head = some 64; chan_list_end = some 96 }

abbrev both_channels : List Entry
both_channels = (64, older) ∷ (96, newer) ∷ []

two-Lists : Lists two both_channels
two-Lists = record { segment = (refl, (refl, tt)); head = refl; end = refl; apart = refl }

close_c2c-Lists_example :
    (s : Channels) × (close_c2c 2 96 two ≡ some s)
    × (s.cells 96 ≡ none)
    × Lists s ((64, older) ∷ [])
close_c2c-Lists_example =
    close_c2c-Lists 2 two ((64, older) ∷ []) [] 96 newer two-Lists (omega arith)

close_all-Lists_example : (s : Channels) × (close_all 2 two ≡ some s) × Lists s []
close_all-Lists_example = close_all-Lists 2 two both_channels two-Lists (omega arith)

link_channel-Lists_example :
    (s : Channels) × (link_channel 32 newer two ≡ some s)
    × Lists s (both_channels ++ ((32, newer) ∷ []))
link_channel-Lists_example = link_channel-Lists 32 newer two both_channels two-Lists refl

-- After 40 seconds the older channel has timed out.
abbrev late : ℕ → Answers
late p = quiet 40

one_survives : survivors trusting late both_channels ≡ some ((96, newer) ∷ [])
unfolding survivors process_c2c process_state conclude timed c2n_alloc_c2c
one_survives = refl

process_channels-Lists_example :
    (s : Channels) × (process_channels 2 2 trusting late (some 64) two ≡ some s)
    × Lists s ((96, newer) ∷ [])
process_channels-Lists_example =
    process_channels-Lists trusting late two both_channels ((96, newer) ∷ []) two-Lists one_survives

-- A connection to a node with the two channels.
abbrev node_conn : NodeConn
node_conn = record {
  state = c2n_connected;
  own = person 1;
  list = two;
  wbuf = empty_wbuf;
  sslbytestowrite = 0;
  init_resp_ok = some true;
  node_ver_major = 0;
  node_ver_minor = 0;
  sent = [];
  told = [];
  mem = [];
}

abbrev about_3 : List ℕ
about_3 = 5 ∷ 5 ∷ id_of 3

new_c2c-notfound_example :
    (s1 s2 : NodeConn) × (new_c2c 32 7 (id_of 3) node_conn ≡ handled pica_ok s1)
    × (s1.wbuf.bytes ≡ connreqoutg ∷ connreqoutg ∷ id_of 3)
    × (procmsg_notfound 3 about_3 s1 ≡ handled 1 s2)
    × Lists s2.list both_channels
    × (s2.told ≡ was_notfound (id_of 3) ∷ [])
new_c2c-notfound_example =
    new_c2c-notfound 3 32 7 about_3 node_conn both_channels two-Lists refl refl refl (omega arith)

procmsg_found-Lists_example :
    (s : NodeConn) × (procmsg_found 2 (quiet 21) connect_under_way about_3 node_conn ≡ handled 1 s)
    × Lists s.list ((64, older) ∷ (96, set_state c2c_connecting newer) ∷ [])
unfolding c2c_start process_first_async_connect_result c2n_alloc_c2c memcmp
procmsg_found-Lists_example =
    procmsg_found-Lists 2 (quiet 21) connect_under_way about_3 node_conn ((64, older) ∷ []) []
      (96, newer) pica_ok (set_state c2c_connecting newer) two-Lists refl refl (omega arith) refl

procmsg_connreqinc_spins_example :
    procmsg_connreqinc true 3 32 7
      (quiet 7)
      connect_under_way
      (want_io ∷ want_io ∷ [])
      about_3
      node_conn
    ≡ spinning
procmsg_connreqinc_spins_example =
    procmsg_connreqinc_spins 2 3 32 7 (quiet 7) connect_under_way about_3 node_conn both_channels
      two-Lists refl refl
