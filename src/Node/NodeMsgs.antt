-- ===== src/Node/NodeMsgs.antt =====
-- PICA_node.c: the handlers of the messages by which nodes find clients for one another and relay
-- what clients send. `ptr` is the address of the link to the other node.
pub mod Safety
pub mod Found
pub mod Relayed
use pica_pica.Common.{
  ℕ, zero, suc, List, [], ◌∷◌, ◌++◌, Bool, true, false, ◌&&◌, ◌||◌, not, Option, none, some, ◌==◌,
  if◌then◌else◌, length, map, take, drop, ◌+◌, ◌*◌, ◌-◌, ltb,
}
use pica_pica.Common.Store.{replace}
use pica_pica.Proto.{connreqinc, notfound, found, pingrep, n2nfound, n2nconnreqoutg, n2nnotfound}
use pica_pica.Msgproc.Defs.{byte}
use pica_pica.Node.Ids.{id_eq, id_size, first_id, second_id}
use pica_pica.Node.Tree.{client_tree_search}
use pica_pica.Node.CcLinks.{
  find_waitsearch, cclink_list_search, cclink_list_findwaitsearch, cclink_attach_remotecle_node,
  cclink_list_addn2ncle, cclink_setwaitconn, cclink_list_delete,
}
use pica_pica.Node.State.{
  when, CcState, n2ncle_active, n2nclr_active, CcLink, Relay, Client, NodeLink, Node, M, done,
  exited, fault, ◌>>=◌, ◌>>◌, return, read_client, read_nodelink, update_client, update_cclink,
  push_client, push_nodelink, nodelink_keyed,
}

unfoldable pub procmsg_pingreq_node : List ℕ → List ℕ → ℕ → ℕ → M ℕ
procmsg_pingreq_node random buf size ptr = do
  pushed ← push_nodelink (some ptr) pingrep random
  when pushed (return 1) (return 0)

unfoldable pub procmsg_pingrep_node : List ℕ → ℕ → ℕ → M ℕ
procmsg_pingrep_node buf size ptr = do
  l ← read_nodelink (some ptr)
  λ n. done 1 (record n {
    nodelinks = replace (record l { disconnect_ticking = false; tmst = n.now }) n.nodelinks;
  })

-- The loop of `procmsg_N2NFOUND`: it attaches the node to each link that waits for the search, on
-- fuel; each round leaves one link fewer to wait.
unfoldable pub found_loop : ℕ → List ℕ → ℕ → M ℕ
found_loop zero callee_id node = λ n. fault
found_loop (suc fuel) callee_id node = do
  waiting ← cclink_list_findwaitsearch callee_id
  elim waiting [
    | none ↦ return 1
    | some cc ↦ (do
      cclink_attach_remotecle_node (some cc.ptr) node
      push_nodelink (some node) n2nconnreqoutg (cc.caller_id ++ callee_id)
      found_loop fuel callee_id node)
  ]

unfoldable pub procmsg_n2nfound : List ℕ → ℕ → ℕ → M ℕ
procmsg_n2nfound buf size ptr n = found_loop (suc (length n.cclinks)) (first_id buf) ptr n

unfoldable pub procmsg_search : List ℕ → ℕ → ℕ → M ℕ
procmsg_search buf size ptr = do
  callee ← client_tree_search (first_id buf)
  elim callee [
    | none ↦ return 1
    | some _ ↦ (do push_nodelink (some ptr) n2nfound (first_id buf); return 1)
  ]

unfoldable pub procmsg_n2nconnreqoutg : List ℕ → ℕ → ℕ → M ℕ
procmsg_n2nconnreqoutg buf size ptr = do
  callee ← client_tree_search (second_id buf)
  elim callee [
    | some c ↦ (do
      pushed ← push_client (some c) connreqinc (first_id buf)
      when pushed (do cclink_list_addn2ncle (first_id buf) (some ptr) (some c); return 1)
          (return 1))
    | none ↦ (do push_nodelink (some ptr) n2nnotfound (first_id buf ++ second_id buf); return 1)
  ]

unfoldable pub procmsg_n2nallow : List ℕ → ℕ → ℕ → M ℕ
procmsg_n2nallow buf size ptr = do
  cc ← cclink_list_search (first_id buf) (second_id buf)
  elim cc [
    | none ↦ return 1
    | some l ↦ (do
      pushed ← push_client l.p1 found (second_id buf)
      when pushed (do cclink_setwaitconn (some l.ptr); return 1) (return 1))
  ]

unfoldable pub procmsg_n2nnotfound : List ℕ → ℕ → ℕ → M ℕ
procmsg_n2nnotfound buf size ptr = do
  cc ← cclink_list_search (first_id buf) (second_id buf)
  elim cc [
    | none ↦ return 1
    | some l ↦ (do push_client l.p1 notfound (second_id buf); cclink_list_delete l.ptr; return 1)
  ]

-- Whether `memcpy` of the data into what is left of a link's buffer would overrun it.
abbrev pub overruns : Relay → ℕ → Bool
overruns r datalen = ltb r.buflen (datalen + length r.bytes)

abbrev pub append_to : Relay → List ℕ → Relay
append_to r payload = record r { bytes = r.bytes ++ payload }

abbrev is_n2ncle_active : CcState → Bool
is_n2ncle_active n2ncle_active = true
is_n2ncle_active _ = false

abbrev is_n2nclr_active : CcState → Bool
is_n2nclr_active n2nclr_active = true
is_n2nclr_active _ = false

-- The link of two identifiers, if it is in the state wanted.
unfoldable pub active_link : (CcState → Bool) → List ℕ → List ℕ → M (Option CcLink)
active_link test caller_id callee_id = do
  cc ← cclink_list_search caller_id callee_id
  elim cc [ none ↦ return none | some l ↦ if test l.state then return (some l) else return none ]

-- The data of a relayed message goes to the receiver's buffer, unless it would overrun: the link is
-- closed then.
unfoldable pub relay_p1p2 : CcLink → ℕ → List ℕ → M ℕ
relay_p1p2 l datalen payload =
    when (overruns l.p1p2 datalen) (do cclink_list_delete l.ptr; return 1)
      (do update_cclink (some l.ptr) (λ c. record c { p1p2 = append_to c.p1p2 payload }); return 1)

unfoldable pub relay_p2p1 : CcLink → ℕ → List ℕ → M ℕ
relay_p2p1 l datalen payload =
    when (overruns l.p2p1 datalen) (do cclink_list_delete l.ptr; return 1)
      (do update_cclink (some l.ptr) (λ c. record c { p2p1 = append_to c.p2p1 payload }); return 1)

-- `buf + 4` and `buf + 4 + PICA_ID_SIZE`.
abbrev sender_id : List ℕ → List ℕ
sender_id buf = take id_size (drop 4 buf)

abbrev receiver_id : List ℕ → List ℕ
receiver_id buf = take id_size (drop 32 buf)

-- The search of `procmsg_N2NMSG` for the link that goes the other way, and the answer where there is
-- none.
unfoldable pub relay_to_caller : List ℕ → ℕ → List ℕ → ℕ → M ℕ
relay_to_caller buf datalen payload ptr = do
  to_caller ← active_link is_n2nclr_active (receiver_id buf) (sender_id buf)
  elim to_caller [
    | some l ↦ relay_p2p1 l datalen payload
    | none ↦ (do push_nodelink (some ptr) n2nnotfound (sender_id buf ++ receiver_id buf); return 1)
  ]

unfoldable pub relay_to_either : List ℕ → ℕ → List ℕ → ℕ → M ℕ
relay_to_either buf datalen payload ptr = do
  to_callee ← active_link is_n2ncle_active (sender_id buf) (receiver_id buf)
  elim to_callee [
    | some l ↦ relay_p1p2 l datalen payload
    | none ↦ relay_to_caller buf datalen payload ptr
  ]

unfoldable pub procmsg_n2nmsg : List ℕ → ℕ → ℕ → M ℕ
procmsg_n2nmsg buf size ptr =
    let len = byte buf 2 + 256 * byte buf 3 in
    let datalen = len - 2 * id_size in
    let payload = take datalen (drop 60 buf) in
    when (ltb len (2 * id_size)) (return 0) (relay_to_either buf datalen payload ptr)
