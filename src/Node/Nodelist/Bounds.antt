-- ===== src/Node/Nodelist/Bounds.antt =====
-- PICA_node.c: the size of the list that `procmsg_NODELISTREQ` builds.
use pica_pica.Msgproc.Defs.{tail_len}
use pica_pica.Netconf.{htons}
use pica_pica.Common.{
  some_eq, ltb→lt, lt→ltb, subst, Bool-cases, Option-cases, inl, inr, ◌∙◌, ℕ, ◌%◌, ◌≤◌, ◌<◌, ◌≡◌,
  List, [], ◌∷◌, ◌++◌, true, false, none, some, ltb, length, arith, length-append,
}
use pica_pica.Msgproc.Encode.{size_bytes, length-size_bytes, tail_len-size_bytes}
use pica_pica.Node.Nodelist.{
  Config, Requester, node_asks, item, excluded, nodelist_loop, build_nodelist, nodelist_tail,
}
use pica_pica.Node.State.{NodeLink}

pub length-item : (a : ℕ × ℕ) → length (item a) ≡ 7
unfolding item
length-item (addr, port) = omega (
  arith,
  length-append (size_bytes 4 addr) (size_bytes 2 port),
  length-size_bytes 4 addr,
  length-size_bytes 2 port,
)

-- A whole number of items, within the size.
abbrev pub Sized : List ℕ → Type 0
Sized nl = (length nl % 7 ≡ 0) × (length nl ≤ 65534)

Sized-item :
    (nl : List ℕ) (a : ℕ × ℕ) → Sized nl → ltb (length nl) 65532 ≡ true → Sized (nl ++ item a)
Sized-item nl a (whole, small) h =
    let below : length nl < 65532 = ltb→lt _ _ h in
    (
      omega (arith, length-append nl (item a), length-item a),
      omega (arith, length-append nl (item a), length-item a),
    )

nodelist_loop-Sized :
    (r : Requester) (ls : List NodeLink) (nl : List ℕ) {out : List ℕ}
    → Sized nl
    → nodelist_loop r ls nl ≡ some out
    → Sized out
unfolding nodelist_loop
nodelist_loop-Sized r [] nl {out} s h = subst Sized (some_eq h) s
nodelist_loop-Sized r (l ∷ ls) nl {out} s h = elim (Bool-cases (ltb (length nl) 65532)) [
  | inr full ↦ subst Sized (some_eq (rw full at h)) s
  | inl room ↦ elim (Option-cases l.node_addr) [
    | inl unknown ↦ nodelist_loop-Sized r ls nl s (rw unknown at (rw room at h))
    | inr (a, known) ↦ elim (Option-cases (excluded r a)) [
      | inl gone ↦ absurd (cc (rw gone at (rw known at (rw room at h))))
      | inr (true, e) ↦ nodelist_loop-Sized r ls nl s (rw e at (rw known at (rw room at h)))
      | inr (false, e) ↦
          nodelist_loop-Sized r ls (nl ++ item a) (Sized-item nl a s room)
            (rw e at (rw known at (rw room at h)))
    ]
  ]
]

-- The list that is built stays within the 65536 bytes allocated for it, holds a whole number of
-- items, and its size is the one that the message's 16 bits say, however many nodes are linked.
pub build_nodelist-Sized :
    (cfg : Config) (r : Requester) (ls : List NodeLink) {out : List ℕ}
    → build_nodelist cfg r ls ≡ some out
    → (length out % 7 ≡ 0) × (length out ≤ 65536) × (tail_len 2 (nodelist_tail out) ≡ length out)
unfolding build_nodelist
build_nodelist-Sized cfg r ls {out} h =
    let (whole, small) =
      nodelist_loop-Sized r ls (item (cfg.my_addr, htons cfg.listen_port))
        (
          omega (arith, length-item (cfg.my_addr, htons cfg.listen_port)),
          omega (arith, length-item (cfg.my_addr, htons cfg.listen_port)),
        )
        h in
    (whole, omega arith, tail_len-size_bytes 2 (length out % 65536) out (omega arith) ∙ omega arith)

-- A node that asks for the list before it has announced its address makes this node follow a null
-- pointer, if the first linked node has announced an address.
pub build_nodelist_null :
    (cfg : Config) (l : NodeLink) (ls : List NodeLink) (a : ℕ × ℕ)
    → l.node_addr ≡ some a
    → build_nodelist cfg (node_asks none) (l ∷ ls) ≡ none
unfolding build_nodelist nodelist_loop excluded
build_nodelist_null cfg l ls a h =
    let room : ltb (length (item (cfg.my_addr, htons cfg.listen_port))) 65532 ≡ true =
      lt→ltb _ _ (omega (arith, length-item (cfg.my_addr, htons cfg.listen_port))) in
    rw (room, h)
