-- ===== src/Node/NodeMsgs/Relayed.antt =====
-- PICA_node.c: the buffers that `procmsg_N2NMSG` appends relayed data to.
use pica_pica.Common.{
  length-take, ◌≤◌, ℕ, ◌+◌, ◌-◌, ◌≡◌, refl, ◌∙◌, List, [], ◌∷◌, ◌++◌, Bool, true, ◌&&◌, Option,
  some, ltb, leb, length, arith, inl, inr, Bool-cases, Option-cases, length-append, take, drop,
}
use pica_pica.Common.Store.{find-has, find, has, every, replace}
use pica_pica.Node.CcLinks.{find_ids, cclink_list_search, cclink_list_delete}
use pica_pica.Node.Invariant.Defs.{
  SameLinks, link_ok, Inv, Ok, Safe, Ok-refl, Safe-bind, Safe-return, Safe-when, Safe-option,
}
use pica_pica.Node.Invariant.Stores.{cclink-Ok}
use pica_pica.Node.Invariant.Prims.{push_nodelink-Safe, cclink_list_delete-Safe, find_ids-has}
use pica_pica.Node.State.{
  CcState, Relay, CcLink, Client, NodeLink, Node, ◌>>◌, return, cclink_keyed, client_keyed,
  nodelink_keyed, update_cclink, push_nodelink,
}
use pica_pica.Common.Store.{every-remove, every-find, every-replace}
use pica_pica.Node.NodeMsgs.{
  is_n2nclr_active, is_n2ncle_active, overruns, append_to, sender_id, receiver_id, active_link,
  relay_p1p2, relay_p2p1, relay_to_caller, relay_to_either, procmsg_n2nmsg,
}
use pica_pica.Proto.{n2nnotfound}
use pica_pica.Common.{◌*◌}
use pica_pica.Msgproc.Defs.{byte}
use pica_pica.Node.Ids.{id_size}
use pica_pica.Node.NodeMsgs.Found.{distinct}

abbrev holds : Relay → Bool
holds r = leb (length r.bytes) r.buflen

-- Whether what a link has to relay lies within its two buffers.
unfoldable pub fits : CcLink → Bool
fits c = holds c.p1p2 && holds c.p2p1

find_ids-find :
    (a b : List ℕ) (cs : List CcLink) {l : CcLink}
    → distinct cs ≡ true
    → find_ids a b cs ≡ some l
    → find l.ptr cs ≡ some l
unfolding find_ids find distinct
find_ids-find a b [] d h = cc
find_ids-find a b (c ∷ cs) {l} d h =
    ground (arith, find_ids-find a b cs {l = l}, find_ids-has a b cs {l = l})

-- Every link's data lies within its buffers.
abbrev pub Buffered : ℕ → Node → Type 0
Buffered a n = every fits n.cclinks ≡ true

delete-Buffered :
    (l : ℕ) (n : Node)
    → Inv n
    → has l n.cclinks ≡ true
    → every fits n.cclinks ≡ true
    → Safe n Buffered ((do cclink_list_delete l; return 1) n)
unfolding cclink_list_delete
delete-Buffered l n v h b =
    let (o, _) = rw (h, Safe) at (cclink_list_delete-Safe n l v h) in
    rw (h, Safe) (o, every-remove fits l n.cclinks b)

store-Buffered :
    (l m : CcLink) (n : Node)
    → Inv n
    → find l.ptr n.cclinks ≡ some l
    → m.ptr ≡ l.ptr
    → (link_ok n.clients n.nodelinks l ≡ true → link_ok n.clients n.nodelinks m ≡ true)
    → fits m ≡ true
    → every fits n.cclinks ≡ true
    → Ok n (record n { cclinks = replace m n.cclinks }) × (every fits (replace m n.cclinks) ≡ true)
store-Buffered l m n v e p g f b =
    (cclink-Ok n l m v (rw p e) g, every-replace fits m n.cclinks b f)

p1p2-ok :
    (cs : List Client) (ns : List NodeLink) (l : CcLink) (r : Relay)
    → link_ok cs ns l ≡ true
    → link_ok cs ns (record l { p1p2 = r }) ≡ true
unfolding link_ok
p1p2-ok cs ns l r g = ground arith

p2p1-ok :
    (cs : List Client) (ns : List NodeLink) (l : CcLink) (r : Relay)
    → link_ok cs ns l ≡ true
    → link_ok cs ns (record l { p2p1 = r }) ≡ true
unfolding link_ok
p2p1-ok cs ns l r g = ground arith

relay_p1p2-Buffered :
    (l : CcLink) (datalen : ℕ) (payload : List ℕ) (n : Node)
    → length payload ≤ datalen
    → Inv n
    → find l.ptr n.cclinks ≡ some l
    → every fits n.cclinks ≡ true
    → Safe n Buffered (relay_p1p2 l datalen payload n)
unfolding relay_p1p2 update_cclink link_ok fits
relay_p1p2-Buffered l datalen payload n z v e b = elim (Bool-cases (overruns l.p1p2 datalen)) [
  | inl over ↦ rw (over, Safe) (delete-Buffered l.ptr n v (find-has l.ptr n.cclinks e) b)
  | inr room ↦
      let held : fits l ≡ true = every-find fits l.ptr n.cclinks b e in
      rw (room, e, Safe)
        (store-Buffered l (record l { p1p2 = append_to l.p1p2 payload }) n v e refl
          (p1p2-ok n.clients n.nodelinks l _) (ground (arith, length-append l.p1p2.bytes payload))
          b)
]

relay_p2p1-Buffered :
    (l : CcLink) (datalen : ℕ) (payload : List ℕ) (n : Node)
    → length payload ≤ datalen
    → Inv n
    → find l.ptr n.cclinks ≡ some l
    → every fits n.cclinks ≡ true
    → Safe n Buffered (relay_p2p1 l datalen payload n)
unfolding relay_p2p1 update_cclink link_ok fits
relay_p2p1-Buffered l datalen payload n z v e b = elim (Bool-cases (overruns l.p2p1 datalen)) [
  | inl over ↦ rw (over, Safe) (delete-Buffered l.ptr n v (find-has l.ptr n.cclinks e) b)
  | inr room ↦
      let held : fits l ≡ true = every-find fits l.ptr n.cclinks b e in
      rw (room, e, Safe)
        (store-Buffered l (record l { p2p1 = append_to l.p2p1 payload }) n v e refl
          (p2p1-ok n.clients n.nodelinks l _) (ground (arith, length-append l.p2p1.bytes payload))
          b)
]

-- The link that is taken for a message is in the list, which has not changed.
abbrev Taken : Node → Option CcLink → Node → Type 0
Taken n r n' = (n' ≡ n) × ((l : CcLink) → r ≡ some l → find l.ptr n.cclinks ≡ some l)

active_link-Taken :
    (test : CcState → Bool) (a b : List ℕ) (n : Node)
    → Inv n
    → distinct n.cclinks ≡ true
    → Safe n (Taken n) (active_link test a b n)
unfolding active_link cclink_list_search
active_link-Taken test a b n v d = elim (Option-cases (find_ids a b n.cclinks)) [
  | inl none_there ↦ rw (none_there, Safe) (Ok-refl v, (refl, λ l e. cc))
  | inr (c, e) ↦ elim (Bool-cases (test c.state)) [
    | inr other ↦ rw (e, other, Safe) (Ok-refl v, (refl, λ l q. cc))
    | inl active ↦
        rw (e, active, Safe) (Ok-refl v, (refl, λ l q. find_ids-find a b n.cclinks d (e ∙ q)))
  ]
]

relay_to_caller-Buffered :
    (buf : List ℕ) (datalen : ℕ) (payload : List ℕ) (ptr : ℕ) (n : Node)
    → length payload ≤ datalen
    → Inv n
    → distinct n.cclinks ≡ true
    → has ptr n.nodelinks ≡ true
    → every fits n.cclinks ≡ true
    → Safe n Buffered (relay_to_caller buf datalen payload ptr n)
unfolding relay_to_caller
relay_to_caller-Buffered buf datalen payload ptr n z v d h b =
    Safe-bind (Taken n) Buffered (active_link is_n2nclr_active (receiver_id buf) (sender_id buf)) _
      n (active_link-Taken _ _ _ n v d)
      λ to_caller n1 o1 (same, at).
        Safe-option Buffered
          (push_nodelink (some ptr) n2nnotfound (sender_id buf ++ receiver_id buf) >> return 1)
          (λ l. relay_p2p1 l datalen payload) to_caller n1
          (λ _.
            Safe-bind (SameLinks n1) Buffered
              (push_nodelink (some ptr) n2nnotfound (sender_id buf ++ receiver_id buf))
              (λ _. return 1) n1
              (push_nodelink-Safe n1 (some ptr) n2nnotfound _ o1.inv (o1.nodelinks ptr ∙ h))
              λ _ n2 o2 same2. Safe-return Buffered 1 n2 o2.inv (rw (same2, same) b))
          (λ l e. relay_p2p1-Buffered l datalen payload n1 z o1.inv (rw same (at l e)) (rw same b))

relay_to_either-Buffered :
    (buf : List ℕ) (datalen : ℕ) (payload : List ℕ) (ptr : ℕ) (n : Node)
    → length payload ≤ datalen
    → Inv n
    → distinct n.cclinks ≡ true
    → has ptr n.nodelinks ≡ true
    → every fits n.cclinks ≡ true
    → Safe n Buffered (relay_to_either buf datalen payload ptr n)
unfolding relay_to_either
relay_to_either-Buffered buf datalen payload ptr n z v d h b =
    Safe-bind (Taken n) Buffered (active_link is_n2ncle_active (sender_id buf) (receiver_id buf)) _
      n (active_link-Taken _ _ _ n v d)
      λ to_callee n1 o1 (same, at).
        Safe-option Buffered (relay_to_caller buf datalen payload ptr)
          (λ l. relay_p1p2 l datalen payload) to_callee n1
          (λ _.
            relay_to_caller-Buffered buf datalen payload ptr n1 z o1.inv (rw same d)
              (o1.nodelinks ptr ∙ h) (rw same b))
          (λ l e. relay_p1p2-Buffered l datalen payload n1 z o1.inv (rw same (at l e)) (rw same b))

-- Whatever the bytes of a message that another node relays, every link's data lies within its
-- buffers afterwards, and a node that meets the invariant follows no dangling pointer and meets it
-- afterwards. The links' addresses have to differ, their data has to lie within their buffers
-- before, and the link to the sending node has to be there.
pub procmsg_n2nmsg-Buffered :
    (buf : List ℕ) (size ptr : ℕ) (n : Node)
    → Inv n
    → distinct n.cclinks ≡ true
    → has ptr n.nodelinks ≡ true
    → every fits n.cclinks ≡ true
    → Safe n (λ _ n'. every fits n'.cclinks ≡ true) (procmsg_n2nmsg buf size ptr n)
unfolding procmsg_n2nmsg
procmsg_n2nmsg-Buffered buf size ptr n v d h b =
    let len = byte buf 2 + 256 * byte buf 3 in
    let datalen = len - 2 * id_size in
    let payload = take datalen (drop 60 buf) in
    Safe-when Buffered (ltb len (2 * id_size)) (return 0) (relay_to_either buf datalen payload ptr)
      n (λ _. Safe-return Buffered 0 n v b)
      (λ _.
        relay_to_either-Buffered buf datalen payload ptr n
          (omega (arith, length-take datalen (drop 60 buf))) v d h b)
