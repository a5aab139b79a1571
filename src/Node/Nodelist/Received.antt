-- ===== src/Node/Nodelist/Received.antt =====
-- PICA_node.c: the loop of `procmsg_NODELIST` over the items of a list of nodes. The list is what is
-- left of it, so `listleft` is its length. The answer has the address that is attached to the sender
-- and what is handed to `PICA_nodeaddr_save`: the addresses, whose text `inet_ntoa` gives, and the ports
-- in the order of the host. An item without a known type leaves an address of zeros to be saved, with a
-- port that is not set and is 0 here.
pub mod Laws
use pica_pica.Common.{
  ℕ, zero, suc, ◌%◌, ◌/◌, List, [], ◌∷◌, ◌++◌, Bool, true, false, ◌&&◌, Option, none, some, ◌==◌,
  ltb, if◌then◌else◌, length, drop,
}
use pica_pica.Proto.{newnode_ipv4}
use pica_pica.Msgproc.Defs.{byte, tail_len}
use pica_pica.Netconf.{ntohs, Ipv4, is_reserved_addr_ipv4}
use pica_pica.Node.Nodelist.{Config}

-- The end of the loop: it is done, it reads past the message, or it goes on when the fuel is used up.
pub data Received : Type 0 where
  finished : Option (ℕ × ℕ) → List (ℕ × ℕ) → Received
  overrun : Received
  running : Received

-- The bytes of an address as the host has them in memory, low byte first.
abbrev pub bytes_of : ℕ → Ipv4
bytes_of addr = record {
  b0 = addr % 256;
  b1 = addr / 256 % 256;
  b2 = addr / 65536 % 256;
  b3 = addr / 16777216 % 256;
}

-- `skip_save`.
abbrev pub skip_save : Config → ℕ × ℕ → Bool
skip_save cfg (addr, port) = cfg.disable_reserved_addrs && is_reserved_addr_ipv4 (bytes_of addr)

-- `na` of an item, and `PICA_nodeaddr_save` of it where it is not skipped.
abbrev pub saving : Config → List (ℕ × ℕ) → ℕ × ℕ → List (ℕ × ℕ)
saving cfg saved (addr, port) =
    if skip_save cfg (addr, port) then saved else saved ++ ((addr, ntohs port) ∷ [])

-- `na_ipv4` of the item at the head of the list.
abbrev pub read_item : List ℕ → ℕ × ℕ
read_item rest = (tail_len 4 (drop 1 rest), tail_len 2 (drop 5 rest))

-- `first` tells whether `listleft == listsize`.
unfoldable pub nodelist_items :
    ℕ → Config → Bool → List ℕ → Option (ℕ × ℕ) → List (ℕ × ℕ) → Received
nodelist_items zero cfg first rest attached saved = running
nodelist_items (suc fuel) cfg first rest attached saved =
    let again = nodelist_items fuel cfg true rest attached saved in
    let blank = nodelist_items fuel cfg false rest attached (saved ++ ((0, 0) ∷ [])) in
    let attach = nodelist_items fuel cfg false (drop 7 rest) (some (read_item rest)) saved in
    let save =
      nodelist_items fuel cfg false (drop 7 rest) attached (saving cfg saved (read_item rest)) in
    if length rest == 0
    then finished attached saved
    else if byte rest 0 == newnode_ipv4
    then (if ltb (length rest) 7 then overrun else if first then attach else save)
    else if first
    then again
    else blank
