-- ===== src/Node/Nodelist.antt =====
-- PICA_node.c: the list of node addresses that `procmsg_NODELISTREQ` builds and sends. An address is
-- the pair of the numbers in `struct PICA_nodeaddr_ipv4`, stored as the host stores them, low byte
-- first.
pub mod Bounds
pub mod Received
pub mod Built
use pica_pica.Common.{
  ℕ, zero, suc, ◌+◌, ◌*◌, ◌%◌, List, [], ◌∷◌, ◌++◌, Bool, true, false, ◌&&◌, Option, none, some,
  ◌==◌, ltb, if◌then◌else◌, length,
}
use mathlib.Core.Option
use pica_pica.Msgproc.Encode.{size_bytes}
use pica_pica.Netconf.{htons}
use pica_pica.Proto.{newnode_ipv4, clnodelist, nodelist}
use pica_pica.Node.State.{
  NodeLink, Node, M, done, exited, fault, ◌>>=◌, ◌>>◌, return, when, alloc, read_nodelink,
  push_client, push_nodelink,
}

-- What the node's configuration gives: its own address, as `inet_addr` gives it, its port as a number
-- of the host, and whether it turns reserved addresses away (PICA_nodeconfig.h).
pub record Config : Type 0 where
  pub my_addr : ℕ
  pub listen_port : ℕ
  pub disable_reserved_addrs : Bool

-- `PICA_PROTO_NODELIST_ITEM_IPV4_SIZE` bytes: the type, the address and the port.
unfoldable pub item : ℕ × ℕ → List ℕ
unfolding size_bytes
item (addr, port) = newnode_ipv4 ∷ (size_bytes 4 addr ++ size_bytes 2 port)

-- Whether the requester's own address is left out; a client has none, and a null pointer is followed
-- where a node asks before its address is known.
pub data Requester : Type 0 where
  client_asks : Requester
  node_asks : Option (ℕ × ℕ) → Requester

unfoldable pub excluded : Requester → ℕ × ℕ → Option Bool
excluded client_asks a = some false
excluded (node_asks none) a = none
excluded (node_asks (some (addr, port))) (addr', port') = some (addr' == addr && port' == port)

-- The loop over the node links: `nl` are the first `nl_size` bytes of `nl_buf`; `none` is a fault.
unfoldable pub nodelist_loop : Requester → List NodeLink → List ℕ → Option (List ℕ)
nodelist_loop r [] nl = some nl
nodelist_loop r (l ∷ ls) nl =
    if ltb (length nl) 65532
    then elim l.node_addr [
      | none ↦ nodelist_loop r ls nl
      | some a ↦ elim (excluded r a) [
        | none ↦ none
        | some true ↦ nodelist_loop r ls nl
        | some false ↦ nodelist_loop r ls (nl ++ item a)
      ]
    ]
    else some nl

unfoldable pub build_nodelist : Config → Requester → List NodeLink → Option (List ℕ)
build_nodelist cfg r ls = nodelist_loop r ls (item (cfg.my_addr, htons cfg.listen_port))

abbrev pub built : Option (List ℕ) → M (List ℕ)
built none n = fault
built (some nl) n = done nl n

-- `malloc(65536)` and the list; the answer is 0 if there is no memory.
unfoldable pub make_nodelist : Config → Requester → M (List ℕ)
make_nodelist cfg r n = built (build_nodelist cfg r n.nodelinks) n

-- The message's tail: the size of the list as an `uint16_t`, and the list.
abbrev pub nodelist_tail : List ℕ → List ℕ
nodelist_tail nl = size_bytes 2 (length nl % 65536) ++ nl

-- `procmsg_NODELISTREQ` for `PICA_PROTO_CLNODELISTREQ`, from a client.
unfoldable pub procmsg_clnodelistreq : Config → List ℕ → ℕ → ℕ → M ℕ
procmsg_clnodelistreq cfg buf size ptr = do
  answer ← alloc
  when answer
      (do
        nl ← make_nodelist cfg client_asks
        push_client (some ptr) clnodelist (nodelist_tail nl)
        return 1)
      (return 0)

-- `procmsg_NODELISTREQ` for `PICA_PROTO_NODELISTREQ`, from another node.
unfoldable pub procmsg_nodelistreq : Config → List ℕ → ℕ → ℕ → M ℕ
procmsg_nodelistreq cfg buf size ptr = do
  answer ← alloc
  when answer
      (do
        l ← read_nodelink (some ptr)
        nl ← make_nodelist cfg (node_asks l.node_addr)
        push_nodelink (some ptr) nodelist (nodelist_tail nl)
        return 1)
      (return 0)
