-- ===== src/Node/Nodelist/Built.antt =====
-- PICA_node.c: which addresses the list that `procmsg_NODELISTREQ` builds has.
use pica_pica.Common.{
  ℕ, zero, suc, ◌+◌, ◌*◌, ◌≡◌, ◌≢◌, refl, sym, ◌∙◌, ap, List, [], ◌∷◌, ◌++◌, Bool, true, false,
  ◌&&◌, none, some, ◌==◌, ltb, lt→ltb, if◌then◌else◌, length, take, arith, length-append,
  Bool-cases, Option-cases, inl, inr,
}
use mathlib.Core.List.{append_assoc, append-nil}
use pica_pica.Netconf.{htons}
use pica_pica.Node.State.{NodeLink}
use pica_pica.Node.Nodelist.{
  Config, Requester, client_asks, node_asks, item, excluded, nodelist_loop, build_nodelist,
}
use pica_pica.Node.Nodelist.Bounds.{length-item}
use pica_pica.Node.Nodelist.Received.Laws.{items}

-- The addresses that linked nodes have announced.
unfoldable pub announced : List NodeLink → List (ℕ × ℕ)
announced [] = []
announced (l ∷ ls) = elim l.node_addr [ none ↦ announced ls | some a ↦ a ∷ announced ls ]

-- The addresses but for one, wherever it stands.
unfoldable pub without : ℕ × ℕ → List (ℕ × ℕ) → List (ℕ × ℕ)
without own [] = []
without (addr, port) ((addr', port') ∷ as') =
    let rest = without (addr, port) as' in
    if addr' == addr && port' == port then rest else (addr', port') ∷ rest

-- The addresses that a requester is told.
unfoldable pub for_requester : Requester → List (ℕ × ℕ) → List (ℕ × ℕ)
for_requester (node_asks (some own)) as' = without own as'
for_requester _ as' = as'

-- How many items a list has room for, the node's own included: 9362 of 7 bytes are 65534.
abbrev pub max_items : ℕ
max_items = 9362

-- An address that is left out is left out of what the requester is told, and one that is not is not.
for_requester-excluded :
    (r : Requester) (a : ℕ × ℕ) (as' : List (ℕ × ℕ))
    → r ≢ node_asks none
    → (b : Bool) × (excluded r a ≡ some b)
      × (for_requester r (a ∷ as') ≡ (if b then for_requester r as' else a ∷ for_requester r as'))
unfolding for_requester excluded without
for_requester-excluded client_asks a as' h = (false, refl, refl)
for_requester-excluded (node_asks none) a as' h = absurd (h refl)
for_requester-excluded (node_asks (some (addr, port))) (addr', port') as' h = (_, refl, refl)

length-more : (nl : List ℕ) (a : ℕ × ℕ) → length (nl ++ item a) ≡ length nl + 7
length-more nl a = omega (arith, length-append nl (item a), length-item a)

for_requester-nil : (r : Requester) → for_requester r [] ≡ []
unfolding for_requester without
for_requester-nil client_asks = refl
for_requester-nil (node_asks none) = refl
for_requester-nil (node_asks (some own)) = refl

take-nil : (m : ℕ) (xs : List (ℕ × ℕ)) → xs ≡ [] → take m xs ≡ []
take-nil zero xs h = refl
take-nil (suc m) [] h = refl
take-nil (suc m) (x ∷ xs) h = cc

-- The loop with room for `m` items more.
nodelist_loop-items :
    (r : Requester) (ls : List NodeLink) (nl : List ℕ) (m : ℕ)
    → r ≢ node_asks none
    → length nl + 7 * m ≡ 65534
    → nodelist_loop r ls nl ≡ some (nl ++ items (take m (for_requester r (announced ls))))
unfolding nodelist_loop announced items
nodelist_loop-items r [] nl m h k =
    rw (take-nil m (for_requester r []) (for_requester-nil r)) (ap some (sym (append-nil nl)))
nodelist_loop-items r (l ∷ ls) nl zero h k =
    let full : ltb (length nl) 65532 ≡ false = ground arith in
    rw full (ap some (sym (append-nil nl)))
nodelist_loop-items r (l ∷ ls) nl (suc m) h k =
    let room : ltb (length nl) 65532 ≡ true = lt→ltb _ _ (omega arith) in
    elim (Option-cases l.node_addr) [
      | inl unknown ↦ rw (room, unknown) (nodelist_loop-items r ls nl (suc m) h k)
      | inr (a, known) ↦
          let (b, e, f) = for_requester-excluded r a (announced ls) h in
          elim (Bool-cases b) [
            | inl t ↦ rw (room, known, e, f) (rw t (nodelist_loop-items r ls nl (suc m) h k))
            | inr t ↦
                rw (room, known, e, f)
                  (rw t (
                    nodelist_loop-items r ls (nl ++ item a) m h (omega (arith, length-more nl a))
                    ∙ ap some (
                        append_assoc nl (item a)
                          (items (take m (for_requester r (announced ls)))))))
          ]
    ]

-- Where the memory for it is there, the list that is built has the node's own address, with its port
-- in network byte order, and then the addresses that the linked nodes have announced, in the order of
-- the links and without the requester's own, as many as fit: with the own address, the first 9362. A
-- node that asks has announced its address.
pub build_nodelist-items :
    (cfg : Config) (r : Requester) (ls : List NodeLink)
    → r ≢ node_asks none
    → build_nodelist cfg r ls
      ≡ some (
          items (
            take max_items ((cfg.my_addr, htons cfg.listen_port) ∷ for_requester r (announced ls))))
unfolding build_nodelist items
build_nodelist-items cfg r ls h =
    nodelist_loop-items r ls (item (cfg.my_addr, htons cfg.listen_port)) 9361 h
      (omega (arith, length-item (cfg.my_addr, htons cfg.listen_port)))
