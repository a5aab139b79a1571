-- ===== src/C2n.antt =====
-- PICA_client.c: the loop of procmsg_CLNODELIST over the items of a list of nodes. The list is what is
-- left of it; the answer has what `nodelist_cb` is told, less the address as a text.
pub mod Read
pub mod Channels
pub mod Requests
use pica_pica.Common.{
  ℕ, zero, suc, ◌+◌, ◌*◌, ◌%◌, ◌/◌, List, [], ◌∷◌, ◌++◌, ◌||◌, ◌==◌, ltb, if◌then◌else◌, length,
  take, drop,
}
use pica_pica.Proto.{newnode_ipv4, newnode_ipv6, newnode_dns}
use pica_pica.Msgproc.Defs.{byte, tail_len}
use pica_pica.Netconf.{ntohs}

-- What `nodelist_cb` is told: the type, the bytes of the address and the port.
pub record Told : Type 0 where
  pub kind : ℕ
  pub address : List ℕ
  pub port : ℕ

-- The end of the loop: it is done, it meets an unknown type, it reads past the message, or it goes on
-- when the fuel is used up.
pub data Listing : Type 0 where
  listed : List Told → Listing
  refused : List Told → Listing
  overrun : Listing
  running : Listing

-- The port at a place of the list.
abbrev pub port_at : ℕ → List ℕ → ℕ
port_at n rest = ntohs (tail_len 2 (drop n rest))

abbrev pub told : ℕ → ℕ → ℕ → ℕ → List ℕ → Told
told kind at size port rest = record {
  kind = kind;
  address = take size (drop at rest);
  port = port_at port rest;
}

-- The loop asks for the end only behind an item.
unfoldable pub clnodelist_items : ℕ → List ℕ → List Told → Listing
clnodelist_items zero rest seen = running
clnodelist_items (suc fuel) rest seen =
    let size =
      if byte rest 0 == newnode_ipv4
      then 7
      else if byte rest 0 == newnode_ipv6
      then 19
      else 4 + byte rest 1 in
    let item =
      if byte rest 0 == newnode_ipv4
      then told newnode_ipv4 1 4 5 rest
      else if byte rest 0 == newnode_ipv6
      then told newnode_ipv6 1 16 17 rest
      else told newnode_dns 2 (byte rest 1) (byte rest 1 + 2) rest in
    let on = clnodelist_items fuel (drop size rest) (seen ++ (item ∷ [])) in
    if length rest == 0
    then overrun
    else if byte rest 0 == newnode_ipv4 || byte rest 0 == newnode_ipv6 || byte rest 0 == newnode_dns
    then (if ltb (length rest) size
        then overrun
        else if length (drop size rest) == 0
        then listed (seen ++ (item ∷ []))
        else on)
    else refused seen
