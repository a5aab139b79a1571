-- ===== src/C2n/Read.antt =====
-- PICA_client.c: what procmsg_CLNODELIST reads of the list that a node builds.
use pica_pica.Common.{
  ℕ, zero, suc, ◌<◌, ◌≡◌, ap, ◌∙◌, List, [], ◌∷◌, ◌++◌, map, true, false, ◌==◌, ltb, if◌then◌else◌,
  length, arith,
}
use mathlib.Core.List.{append_assoc}
use pica_pica.Proto.{newnode_ipv4}
use pica_pica.Msgproc.Defs.{tail_len}
use pica_pica.Msgproc.Encode.{size_bytes}
use pica_pica.Node.Nodelist.{item}
use pica_pica.Node.Nodelist.Received.Laws.{items, fit}
use pica_pica.Netconf.{ntohs}
use pica_pica.C2n.{Told, told, listed, clnodelist_items}

-- What the application is told of an address and a port.
abbrev pub told_of : ℕ × ℕ → Told
told_of (addr, port) = record {
  kind = newnode_ipv4;
  address = size_bytes 4 addr;
  port = ntohs port;
}

told_item :
    (addr port : ℕ) (rest : List ℕ)
    → port < 65536
    → told newnode_ipv4 1 4 5 (item (addr, port) ++ rest) ≡ told_of (addr, port)
unfolding item size_bytes tail_len
told_item addr port rest k =
    ap (λ (p : ℕ). record { kind = newnode_ipv4; address = size_bytes 4 addr; port = ntohs p })
      (omega arith)

read_step :
    (fuel addr port : ℕ) (rest : List ℕ) (seen : List Told)
    → port < 65536
    → clnodelist_items (suc fuel) (item (addr, port) ++ rest) seen ≡ (
        if length rest == 0
        then listed (seen ++ (told_of (addr, port) ∷ []))
        else clnodelist_items fuel rest (seen ++ (told_of (addr, port) ∷ [])))
unfolding clnodelist_items item size_bytes
read_step fuel addr port rest seen k =
    let a : (length (item (addr, port) ++ rest) == 0) ≡ false = ground arith in
    let b : ltb (length (item (addr, port) ++ rest)) 7 ≡ false = ground arith in
    rw (a, b)
      (ap
        (λ (t : Told).
          if length rest == 0
          then listed (seen ++ (t ∷ []))
          else clnodelist_items fuel rest (seen ++ (t ∷ [])))
        (told_item addr port rest k))

not_last : (a : ℕ × ℕ) (as' : List (ℕ × ℕ)) → length (items (a ∷ as')) == 0 ≡ false
unfolding items item size_bytes
not_last (addr, port) as' = ground arith

-- A client that receives a list of nodes tells the application every address of it, in the order in
-- which the node wrote them, and the loop ends with the message: the address as its four bytes, and the
-- port with its two bytes swapped to the order of the host. The list has at least one item, and ports
-- have 16 bits.
pub clnodelist_items-items :
    (fuel : ℕ) (a : ℕ × ℕ) (as' : List (ℕ × ℕ)) (seen : List Told)
    → length as' < fuel
    → fit (a ∷ as') ≡ true
    → clnodelist_items fuel (items (a ∷ as')) seen ≡ listed (seen ++ map told_of (a ∷ as'))
unfolding items fit
clnodelist_items-items zero a as' seen h f = elim h [ ]
clnodelist_items-items (suc fuel) (addr, port) [] seen h f =
    read_step fuel addr port [] seen (ground (arith, f))
clnodelist_items-items (suc fuel) (addr, port) (b ∷ as') seen h f =
    read_step fuel addr port (items (b ∷ as')) seen (ground (arith, f))
    ∙ rw (not_last b as') (
        clnodelist_items-items fuel b as' (seen ++ (told_of (addr, port) ∷ [])) (omega arith)
          (ground (arith, f))
        ∙ ap listed (append_assoc seen (told_of (addr, port) ∷ []) (map told_of (b ∷ as'))))
