-- ===== src/Examples/States.antt =====
-- States of links, new connections, addresses and lists of nodes.
use pica_pica.Proto.{conndeny}
use pica_pica.Common.{ℕ, map, suc, ◌≡◌, ◌↔◌, refl, List, [], ◌∷◌, true, none, some, length, arith}
use pica_pica.Node.State.{
  Node, CcLink, NewConn, nc_waitanontlsshutdown, newconn_c2c, local_waitrep,
  local_waitconncleanontlsshutdown, cclink_keyed, client_keyed,
}
use pica_pica.Node.CcLinks.{waitconn, activate}
use pica_pica.Node.LinkStates.{waitanontlsshutdown}
use pica_pica.Node.LinkStates.Order.{
  Event, accepted, connected, tls_shut, node_found, step, run, effective, awaited,
  effective-awaited,
}
use pica_pica.Node.Newconns.{Slot, newconn_add}
use pica_pica.Node.Newconns.Bounds.{Gives, newconn_add-Gives}
use pica_pica.Netconf.{Ipv4, is_reserved_addr_ipv4}
use pica_pica.Netconf.Ranges.{Reserved, is_reserved_addr_ipv4-Reserved}
use pica_pica.Node.Nodelist.{Config}
use pica_pica.Node.Nodelist.Received.{finished, running, nodelist_items}
use pica_pica.Node.Nodelist.Received.Laws.{
  Entry, Fits, wire, Keeps, items, nodelist_items-items, nodelist_items_diverges,
}
use pica_pica.Examples.Sample.{sample, link_at, alice_id, bob_id}

-- A link that is accepted twice, and a TLS session that is shut down too early.
abbrev events : List Event
events =
    tls_shut ∷ accepted ∷ accepted ∷ connected ∷ node_found ∷ tls_shut ∷ connected ∷ tls_shut ∷ []

effective-awaited_example : effective events local_waitrep ≡ awaited local_waitrep
unfolding run step waitconn activate waitanontlsshutdown
effective-awaited_example = effective-awaited events local_waitrep refl

-- The callee's connection for a link is shutting its anonymous TLS session down.
abbrev taken : CcLink
taken = link_at 3 local_waitconncleanontlsshutdown (some 1) (some 2) alice_id bob_id none

abbrev newcomer : NewConn
newcomer = record {
  sck = 7;
  addr = 0;
  state = nc_waitanontlsshutdown;
  kind = newconn_c2c;
  iconn = some 3;
}

abbrev connecting : Node
connecting = record sample { cclinks = taken ∷ []; newconns = newcomer ∷ [] }

abbrev denial : List ℕ
denial = conndeny ∷ conndeny ∷ alice_id

abbrev slots : List Slot
slots =
    record { sck = some 5; tmst = 30 }
    ∷ record { sck = some 6; tmst = 20 }
    ∷ record { sck = some 7; tmst = 40 }
    ∷ []

newconn_add-Gives_example : Gives slots (newconn_add slots 3 50)
newconn_add-Gives_example = newconn_add-Gives slots 3 50 (omega arith)

abbrev private_addr : Ipv4
private_addr = record { b0 = 172; b1 = 20; b2 = 0; b3 = 1 }

is_reserved_addr_ipv4-Reserved_example :
    (is_reserved_addr_ipv4 private_addr ≡ true) ↔ Reserved private_addr
is_reserved_addr_ipv4-Reserved_example = is_reserved_addr_ipv4-Reserved private_addr (omega arith)

abbrev config : Config
config = record { my_addr = 16777343; listen_port = 51914; disable_reserved_addrs = true }

abbrev loopback : Entry
loopback = record { ip = record { b0 = 127; b1 = 0; b2 = 0; b3 = 1 }; port = 2233 }

abbrev far : Entry
far = record { ip = record { b0 = 8; b1 = 8; b2 = 8; b3 = 8 }; port = 2233 }

abbrev near : Entry
near = record { ip = private_addr; port = 53 }

nodelist_items-items_example :
    (kept : List (ℕ × ℕ)) × Keeps config (near ∷ far ∷ []) kept
    × (nodelist_items
          (suc (length (items (map wire (loopback ∷ near ∷ far ∷ [])))))
          config
          true
          (items (map wire (loopback ∷ near ∷ far ∷ [])))
          none
          []
        ≡ finished (some (wire loopback)) kept)
unfolding Fits
nodelist_items-items_example = nodelist_items-items config loopback (near ∷ far ∷ []) (
  omega arith,
  omega arith,
  omega arith,
  omega arith,
  omega arith,
  (
    omega arith,
    omega arith,
    omega arith,
    omega arith,
    omega arith,
    (omega arith, omega arith, omega arith, omega arith, omega arith, tt),
  ),
)

nodelist_items_diverges_example : nodelist_items 100 config true (0 ∷ 1 ∷ []) none [] ≡ running
nodelist_items_diverges_example = nodelist_items_diverges 100 config 0 (1 ∷ []) (λ e. omega arith)
