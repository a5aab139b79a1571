-- ===== src/Node/ClientMsgs.antt =====
-- PICA_node.c: the handlers of the messages that clients send to the node. `ptr` is the client's
-- address. The bytes that a ping answer carries are random: they are taken from the caller.
pub mod Safety
use pica_pica.Common.{
  ℕ, zero, suc, List, [], ◌∷◌, ◌++◌, Bool, true, false, ◌&&◌, ◌||◌, not, Option, none, some, ◌==◌,
  if◌then◌else◌, length, map, take, drop, ◌+◌, ◌*◌,
}
use pica_pica.Proto.{connreqinc, notfound, pingrep, search, multilogin}
use pica_pica.Msgproc.Defs.{byte}
use pica_pica.Node.Ids.{id_eq, first_id}
use pica_pica.Node.Tree.{client_tree_search}
use pica_pica.Node.CcLinks.{
  cclink_list_search, cclink_list_findwaitsearch, cclink_list_addlocal, cclink_list_addn2nclr,
  cclink_setwaitconn, cclink_list_delete,
}
use pica_pica.Node.State.{
  when, CcState, local_waitrep, n2ncle_waitrep, CcLink, Client, NodeLink, Node, M, done, exited,
  fault, ◌>>=◌, ◌>>◌, return, read_client, update_client, push_client, push_nodelink,
}

-- `LISTMAP`: one message pushed to each of the node links; a failure is passed over.
unfoldable pub push_each : ℕ → List ℕ → List NodeLink → M (Unit {0})
push_each msgid tail [] = return tt
push_each msgid tail (l ∷ ls) = do push_nodelink (some l.ptr) msgid tail; push_each msgid tail ls

unfoldable pub nodelink_send_searchreq : List ℕ → M ℕ
nodelink_send_searchreq id n =
    if n.nodelink_list_count == 0
    then done 0 n
    else (do push_each search id n.nodelinks; return 1) n

-- `callee->disconnect_ticking = 0; callee->tmst = time(0);`.
unfoldable pub alive : ℕ → M (Unit {0})
alive ptr n =
    update_client (some ptr) (λ c. record c { disconnect_ticking = false; tmst = n.now }) n

-- What `procmsg_CONNREQOUTG` does once the request was sent to the callee.
unfoldable pub link_local : ℕ → ℕ → M ℕ
link_local i o = do
  cclink_list_addlocal (some i) (some o)
  λ n. update_client (some o) (λ c. record c { tmst = n.now; disconnect_ticking = true }) n
  return 1

-- The branch of `procmsg_CONNREQOUTG` for a callee that is connected to this node.
unfoldable pub request_local : ℕ → List ℕ → ℕ → List ℕ → M ℕ
request_local i caller_id o callee_id = do
  dup ← cclink_list_search caller_id callee_id
  elim dup [
    | some _ ↦ return 1
    | none ↦ when (id_eq caller_id callee_id) (return 1) (do
      pushed ← push_client (some o) connreqinc caller_id
      when pushed (link_local i o) (return 1))
  ]

-- The branch for a callee that is not: a search among the other nodes, or the answer that there is no
-- such client.
unfoldable pub request_remote : ℕ → List ℕ → M ℕ
request_remote i callee_id = do
  waiting ← cclink_list_findwaitsearch callee_id
  searching ← elim waiting [ some _ ↦ return 1 | none ↦ nodelink_send_searchreq callee_id ]
  when (not (searching == 0)) (do cclink_list_addn2nclr (some i) callee_id; return 1)
      (do push_client (some i) notfound callee_id; return 1)

unfoldable pub procmsg_connreqoutg : List ℕ → ℕ → ℕ → M ℕ
procmsg_connreqoutg buf size ptr = do
  i ← read_client (some ptr)
  o ← client_tree_search (first_id buf)
  elim o [
    | some o' ↦ request_local ptr i.id o' (first_id buf)
    | none ↦ request_remote ptr (first_id buf)
  ]

abbrev pub is_waitrep : CcState → Bool
is_waitrep local_waitrep = true
is_waitrep n2ncle_waitrep = true
is_waitrep _ = false

unfoldable pub procmsg_connallow : List ℕ → ℕ → ℕ → M ℕ
procmsg_connallow buf size ptr = do
  alive ptr
  callee ← read_client (some ptr)
  link ← cclink_list_search (first_id buf) callee.id
  elim link [
    | none ↦ return 0
    | some l ↦
        when (not (is_waitrep l.state)) (return 0) (do cclink_setwaitconn (some l.ptr); return 1)
  ]

-- The answer to the caller in `procmsg_CONNDENY`.
unfoldable pub send_denial : CcState → CcLink → List ℕ → List ℕ → M Bool
send_denial local_waitrep l caller_id callee_id = push_client l.p1 notfound callee_id
send_denial n2ncle_waitrep l caller_id callee_id =
    push_nodelink l.caller_node pica_pica.Proto.n2nnotfound (caller_id ++ callee_id)
send_denial _ l caller_id callee_id = return true

unfoldable pub procmsg_conndeny : List ℕ → ℕ → ℕ → M ℕ
procmsg_conndeny buf size ptr = do
  alive ptr
  callee ← read_client (some ptr)
  link ← cclink_list_search (first_id buf) callee.id
  elim link [
    | none ↦ return 0
    | some l ↦
        when (not (is_waitrep l.state)) (do cclink_list_delete l.ptr; return 0)
          (do send_denial l.state l (first_id buf) callee.id; cclink_list_delete l.ptr; return 1)
  ]

unfoldable pub procmsg_pingreq_client : List ℕ → List ℕ → ℕ → ℕ → M ℕ
procmsg_pingreq_client random buf size ptr = do
  pushed ← push_client (some ptr) pingrep random
  when pushed (return 1) (return 0)

unfoldable pub procmsg_pingrep_client : List ℕ → ℕ → ℕ → M ℕ
procmsg_pingrep_client buf size ptr = do alive ptr; return 1

-- `procmsg_dummy_multi_c2n`: what a secondary client of a multi-login asks for is passed over.
unfoldable pub procmsg_dummy_multi_c2n : List ℕ → ℕ → ℕ → M ℕ
procmsg_dummy_multi_c2n buf size ptr = return 1

-- The walk of `procmsg_MULTILOGIN_client` over the clients of one identifier, on fuel.
unfoldable pub relay_multi : ℕ → ℕ → List ℕ → Option ℕ → M (Unit {0})
relay_multi fuel me tail none = return tt
relay_multi zero me tail (some other) = λ n. fault
relay_multi (suc fuel) me tail (some other) = do
  when (other == me) (return true) (push_client (some other) multilogin tail)
  c ← read_client (some other)
  relay_multi fuel me tail c.next_multi

-- `LISTMAP` with `mapfunc_sendmultilogin`, which takes the size of the payload from the message.
unfoldable pub relay_to_nodes : List ℕ → M (Unit {0})
relay_to_nodes buf n =
    push_each multilogin (take (byte buf 2 + 256 * byte buf 3 + 2) (drop 2 buf)) n.nodelinks n

unfoldable pub procmsg_multilogin_client : List ℕ → ℕ → ℕ → M ℕ
procmsg_multilogin_client buf size ptr = do
  me ← read_client (some ptr)
  other ← client_tree_search me.id
  λ n. relay_multi (suc (length n.clients)) ptr (drop 2 buf) other n
  relay_to_nodes buf
  return 1
