-- ===== src/Node/NodeMsgs/Found.antt =====
-- PICA_node.c: the loop of `procmsg_N2NFOUND` over the links that wait for a search.
use pica_pica.Common.{
  ℕ, zero, suc, ◌<◌, ◌≤◌, ◌≡◌, refl, ◌∙◌, List, [], ◌∷◌, ◌++◌, Bool, true, ◌&&◌, not, none, some,
  if◌then◌else◌, length, arith, inl, inr, Option-cases,
}
use pica_pica.Common.Store.{find, has, has-replace, replace}
use pica_pica.Node.Ids.{id_eq, first_id}
use pica_pica.Node.CcLinks.{
  is_waitsearch, find_waitsearch, cclink_list_findwaitsearch, cclink_attach_remotecle_node,
  attach_node,
}
use pica_pica.Node.Invariant.Defs.{SameLinks, link_ok, Inv, Safe, Ok-refl, Safe-bind}
use pica_pica.Node.Invariant.Stores.{cclink-Ok}
use pica_pica.Node.Invariant.Prims.{push_nodelink-Safe}
use pica_pica.Node.State.{
  CcLink, Client, NodeLink, Node, ◌>>◌, cclink_keyed, client_keyed, nodelink_keyed, update_cclink,
  push_nodelink,
}
use pica_pica.Proto.{n2nconnreqoutg}
use pica_pica.Node.NodeMsgs.{found_loop, procmsg_n2nfound}

-- Whether no two links have one address.
unfoldable pub distinct : List CcLink → Bool
distinct [] = true
distinct (c ∷ cs) = not (has c.ptr cs) && distinct cs

distinct-replace : (b : CcLink) (cs : List CcLink) → distinct (replace b cs) ≡ distinct cs
unfolding distinct replace
distinct-replace b [] = refl
distinct-replace b (c ∷ cs) = ground (arith, distinct-replace b cs, has-replace c.ptr b cs)

-- How many links wait for the search of an identifier.
waiting : List ℕ → List CcLink → ℕ
waiting id [] = 0
waiting id (c ∷ cs) =
    let rest = waiting id cs in
    if id_eq c.callee_id id && is_waitsearch c.state then suc rest else rest

waiting-length : (id : List ℕ) (cs : List CcLink) → waiting id cs ≤ length cs
unfolding waiting
waiting-length id [] = omega arith
waiting-length id (c ∷ cs) = ground (arith, waiting-length id cs)

find_waitsearch-has :
    (id : List ℕ) (cs : List CcLink) {c : CcLink}
    → find_waitsearch id cs ≡ some c
    → has c.ptr cs ≡ true
unfolding find_waitsearch has
find_waitsearch-has id [] h = cc
find_waitsearch-has id (b ∷ cs) {c} h = ground (arith, find_waitsearch-has id cs {c = c})

find_waitsearch-find :
    (id : List ℕ) (cs : List CcLink) {c : CcLink}
    → distinct cs ≡ true
    → find_waitsearch id cs ≡ some c
    → find c.ptr cs ≡ some c
unfolding find_waitsearch find distinct
find_waitsearch-find id [] d h = cc
find_waitsearch-find id (b ∷ cs) {c} d h =
    ground (arith, find_waitsearch-find id cs {c = c}, find_waitsearch-has id cs {c = c})

find_waitsearch-state :
    (id : List ℕ) (cs : List CcLink) {c : CcLink}
    → find_waitsearch id cs ≡ some c
    → is_waitsearch c.state ≡ true
unfolding find_waitsearch
find_waitsearch-state id [] h = cc
find_waitsearch-state id (b ∷ cs) {c} h = ground (arith, find_waitsearch-state id cs {c = c})

waiting-replace :
    (id : List ℕ) (node : ℕ) (cs : List CcLink) {c : CcLink}
    → distinct cs ≡ true
    → find_waitsearch id cs ≡ some c
    → suc (waiting id (replace (attach_node node c) cs)) ≡ waiting id cs
unfolding find_waitsearch waiting replace attach_node distinct
waiting-replace id node [] d h = cc
waiting-replace id node (b ∷ cs) {c} d h = ground (
  arith,
  waiting-replace id node cs {c = c},
  find_waitsearch-has id cs {c = c},
  find_waitsearch-state id cs {c = c},
)

attach_node-ok :
    (cs : List Client) (ns : List NodeLink) (node : ℕ) (c : CcLink)
    → has node ns ≡ true
    → link_ok cs ns c ≡ true
    → link_ok cs ns (attach_node node c) ≡ true
unfolding link_ok attach_node
attach_node-ok cs ns node c h g = ground arith

attach_node-ptr : (node : ℕ) (c : CcLink) → (attach_node node c).ptr ≡ c.ptr
unfolding attach_node
attach_node-ptr node c = ground arith

attach-Safe :
    (id : List ℕ) (node : ℕ) (n : Node) (c : CcLink)
    → Inv n
    → distinct n.cclinks ≡ true
    → has node n.nodelinks ≡ true
    → find_waitsearch id n.cclinks ≡ some c
    → Safe n
        (λ _ n'. n'.cclinks ≡ replace (attach_node node c) n.cclinks)
        (cclink_attach_remotecle_node (some c.ptr) node n)
unfolding cclink_attach_remotecle_node update_cclink
attach-Safe id node n c v d h e =
    let at : find c.ptr n.cclinks ≡ some c = find_waitsearch-find id n.cclinks d e in
    rw (at, Safe)
      (
        cclink-Ok n c (attach_node node c) v (rw (attach_node-ptr node c) at)
            (attach_node-ok n.clients n.nodelinks node c h),
        refl,
      )

-- What a node's answer to a search leaves: no link that waits for the search.
abbrev Attached : List ℕ → ℕ → Node → Type 0
Attached id a n = (find_waitsearch id n.cclinks ≡ none) × (a ≡ 1)

found_step :
    (fuel : ℕ) (id : List ℕ) (node : ℕ) (n : Node) {c : CcLink}
    → find_waitsearch id n.cclinks ≡ some c
    → found_loop (suc fuel) id node n
      ≡ (cclink_attach_remotecle_node (some c.ptr) node
            >> (push_nodelink (some node) n2nconnreqoutg (c.caller_id ++ id)
                >> found_loop fuel id node))
          n
unfolding found_loop cclink_list_findwaitsearch
found_step fuel id node n e = ground arith

found_loop-Attached :
    (fuel : ℕ) (id : List ℕ) (node : ℕ) (n : Node)
    → waiting id n.cclinks < fuel
    → Inv n
    → distinct n.cclinks ≡ true
    → has node n.nodelinks ≡ true
    → Safe n (Attached id) (found_loop fuel id node n)
unfolding found_loop cclink_list_findwaitsearch
found_loop-Attached zero id node n f v d h = elim f [ ]
found_loop-Attached (suc fuel) id node n f v d h =
    elim (Option-cases (find_waitsearch id n.cclinks)) [
      | inl none_left ↦ rw (none_left, Safe) (Ok-refl v, (none_left, refl))
      | inr (c, e) ↦ rw (found_step fuel id node n e) (
          Safe-bind _ (Attached id) (cclink_attach_remotecle_node (some c.ptr) node) _ n
            (attach-Safe id node n c v d h e)
            λ _ n1 o1 links.
              Safe-bind (SameLinks n1) (Attached id)
                (push_nodelink (some node) n2nconnreqoutg (c.caller_id ++ id)) _ n1
                (push_nodelink-Safe n1 (some node) n2nconnreqoutg (c.caller_id ++ id) o1.inv
                  (o1.nodelinks node ∙ h))
                λ _ n2 o2 same.
                  let fewer : waiting id (replace (attach_node node c) n.cclinks) < fuel =
                    omega (arith, waiting-replace id node n.cclinks d e) in
                  found_loop-Attached fuel id node n2 (rw (same ∙ links) fewer) o2.inv
                    (rw (same ∙ links) (distinct-replace (attach_node node c) n.cclinks ∙ d))
                    (o2.nodelinks node ∙ o1.nodelinks node ∙ h))
    ]

-- A node's answer to a search leaves no link that waits for that search: the loop over the links
-- ends, the answer is 1, and a node that meets the invariant follows no dangling pointer and meets
-- it afterwards. The links' addresses have to differ, and the link to the answering node has to be
-- there.
pub procmsg_n2nfound-Attached :
    (buf : List ℕ) (size ptr : ℕ) (n : Node)
    → Inv n
    → distinct n.cclinks ≡ true
    → has ptr n.nodelinks ≡ true
    → Safe n
        (λ a n'. (find_waitsearch (first_id buf) n'.cclinks ≡ none) × (a ≡ 1))
        (procmsg_n2nfound buf size ptr n)
unfolding procmsg_n2nfound
procmsg_n2nfound-Attached buf size ptr n v d h =
    found_loop-Attached (suc (length n.cclinks)) (first_id buf) ptr n
      (omega (arith, waiting-length (first_id buf) n.cclinks)) v d h
