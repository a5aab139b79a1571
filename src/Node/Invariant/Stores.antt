-- ===== src/Node/Invariant/Stores.antt =====
-- The invariant under the stores of the handlers: a client or a node link is given anew at its
-- address, a link is changed, added or deleted.
use Prim.Native.Nat.{Ordering}
use mathlib.Core.Option
use pica_pica.Common.{
  ℕ, zero, suc, ◌≡◌, refl, sym, ◌∙◌, ap, List, ◌∷◌, Bool, true, Option, none, some, ◌==◌, length,
  arith, ◌⊎◌, inl, inr,
}
use pica_pica.Common.Store.{
  find, replace, has-replace, has?-replace, find-has, find-key, every-imp, find-replace,
  length-replace,
}
use pica_pica.Common.{Bool-cases, Option-cases, ==_iff}
use pica_pica.Common.Store.{every-replace_at}
use pica_pica.Node.Ids.{memcmp, Ordering-cases}
use pica_pica.Node.Tree.{search_from, walk_multi}
use pica_pica.Node.Invariant.Defs.{link_ok, Inv, Ok}
use pica_pica.Node.State.{
  CcLink, Client, NodeLink, Node, cclink_keyed, client_keyed, nodelink_keyed,
}

link_ok-client :
    (c : Client) (cs : List Client) (ns : List NodeLink) (l : CcLink)
    → link_ok (replace c cs) ns l ≡ link_ok cs ns l
unfolding link_ok
link_ok-client c cs ns l = ground (arith, has?-replace l.p1 c cs, has?-replace l.p2 c cs)

link_ok-nodelink :
    (b : NodeLink) (cs : List Client) (ns : List NodeLink) (l : CcLink)
    → link_ok cs (replace b ns) l ≡ link_ok cs ns l
unfolding link_ok
link_ok-nodelink b cs ns l =
    ground (arith, has?-replace l.caller_node b ns, has?-replace l.callee_node b ns)

-- What a search does at a client that it reads.
pub search_lt :
    (fuel : ℕ) (id : List ℕ) (i : ℕ) (cs : List Client) {c : Client}
    → find i cs ≡ some c
    → memcmp id c.id ≡ Ordering.lt
    → search_from (suc fuel) id (some i) cs ≡ search_from fuel id c.left cs
unfolding search_from
search_lt fuel id i cs e o = rw (e, search_from) (rw (o, search_from))

pub search_eq :
    (fuel : ℕ) (id : List ℕ) (i : ℕ) (cs : List Client) {c : Client}
    → find i cs ≡ some c
    → memcmp id c.id ≡ Ordering.eq
    → search_from (suc fuel) id (some i) cs ≡ some (some i)
unfolding search_from
search_eq fuel id i cs e o = rw (e, search_from) (rw (o, search_from))

pub search_gt :
    (fuel : ℕ) (id : List ℕ) (i : ℕ) (cs : List Client) {c : Client}
    → find i cs ≡ some c
    → memcmp id c.id ≡ Ordering.gt
    → search_from (suc fuel) id (some i) cs ≡ search_from fuel id c.right cs
unfolding search_from
search_gt fuel id i cs e o = rw (e, search_from) (rw (o, search_from))

-- Two records of a client that agree on its place among the clients.
abbrev pub SamePlace : Client → Client → Type 0
SamePlace d c =
    (d.id ≡ c.id) × (d.left ≡ c.left) × (d.right ≡ c.right) × (d.next_multi ≡ c.next_multi)

-- The client at an address, before and after one is given anew in its place.
SameAt : ℕ → Client → List Client → Type 0
SameAt i d cs =
    ((find i (replace d cs) ≡ none) × (find i cs ≡ none))
    ⊎ ((a : Client) × (b : Client) × (find i (replace d cs) ≡ some a)
        × (find i cs ≡ some b)
        × SamePlace a b)

same_at :
    (i : ℕ) (c d : Client) (cs : List Client)
    → find d.ptr cs ≡ some c
    → SamePlace d c
    → SameAt i d cs
unfolding SameAt
same_at i c d cs e s = elim (Bool-cases (i == d.ptr)) [
  | inl at ↦
      let found : find i cs ≡ some c = rw ((==_iff i d.ptr).0 at) e in
      inr (d, c, ground (arith, find-replace i d cs, find-has i cs found), found, s)
  | inr off ↦
      let kept : find i (replace d cs) ≡ find i cs = rw (find-replace i d cs, off) in
      elim (Option-cases (find i cs)) [
        | inl gone ↦ inl (kept ∙ gone, gone)
        | inr (o, there) ↦ inr (o, o, kept ∙ there, there, (refl, refl, refl, refl))
      ]
]

search_from-replace :
    (fuel : ℕ) (id : List ℕ) (i : Option ℕ) (c d : Client) (cs : List Client)
    → find d.ptr cs ≡ some c
    → SamePlace d c
    → search_from fuel id i (replace d cs) ≡ search_from fuel id i cs
unfolding search_from SameAt
search_from-replace zero id i c d cs e s = refl
search_from-replace (suc fuel) id none c d cs e s = refl
search_from-replace (suc fuel) id (some i) c d cs e s = elim (same_at i c d cs e s) [
  | inl (gone, gone') ↦ rw (gone, search_from) (rw (gone', search_from))
  | inr (x, y, there, there', (xy, l, r, m)) ↦ elim (Ordering-cases (memcmp id y.id)) [
    | inl o ↦
        search_lt fuel id i (replace d cs) there (rw xy o)
        ∙ rw l (search_from-replace fuel id y.left c d cs e s)
        ∙ sym (search_lt fuel id i cs there' o)
    | inr (inl o) ↦
        search_eq fuel id i (replace d cs) there (rw xy o) ∙ sym (search_eq fuel id i cs there' o)
    | inr (inr o) ↦
        search_gt fuel id i (replace d cs) there (rw xy o)
        ∙ rw r (search_from-replace fuel id y.right c d cs e s)
        ∙ sym (search_gt fuel id i cs there' o)
  ]
]

-- A step of the walk along a chain.
walk_step :
    (fuel p : ℕ) (cs : List Client) {c : Client}
    → find p cs ≡ some c
    → walk_multi (suc fuel) (some p) cs ≡ Option.map (◌∷◌ p) (walk_multi fuel c.next_multi cs)
unfolding walk_multi
walk_step fuel p cs e = rw (e, walk_multi)

walk_multi-replace :
    (fuel : ℕ) (p : Option ℕ) (c d : Client) (cs : List Client)
    → find d.ptr cs ≡ some c
    → SamePlace d c
    → walk_multi fuel p (replace d cs) ≡ walk_multi fuel p cs
unfolding walk_multi SameAt
walk_multi-replace zero none c d cs e s = refl
walk_multi-replace (suc fuel) none c d cs e s = refl
walk_multi-replace zero (some p) c d cs e s = refl
walk_multi-replace (suc fuel) (some p) c d cs e s = elim (same_at p c d cs e s) [
  | inl (gone, gone') ↦ rw (gone, walk_multi) (rw (gone', walk_multi))
  | inr (x, y, there, there', (xy, l, r, m)) ↦
      walk_step fuel p (replace d cs) there
      ∙ rw m (ap (Option.map (◌∷◌ p)) (walk_multi-replace fuel y.next_multi c d cs e s))
      ∙ sym (walk_step fuel p cs there')
]

-- A client given anew at its address, in its place among the clients.
pub client-Ok :
    (n : Node) (c d : Client)
    → Inv n
    → find d.ptr n.clients ≡ some c
    → SamePlace d c
    → Ok n (record n { clients = replace d n.clients })
client-Ok n c d v e s = record {
  inv = record {
    links = every-imp _ _ n.cclinks (λ l h. link_ok-client d n.clients n.nodelinks l ∙ h) v.links;
    counted = v.counted;
    addresses = v.addresses;
    tree = λ id.
        let (r, found) = v.tree id in
        (
          r,
          rw (length-replace d n.clients) (
              search_from-replace (suc (length n.clients)) id n.tree_root c d n.clients e s
              ∙ found),
        );
    multi = λ p h.
        let (ps, ends_at) = v.multi p (rw (has-replace p d n.clients) at h) in
        (
          ps,
          rw (length-replace d n.clients)
              (walk_multi-replace (suc (length n.clients)) (some p) c d n.clients e s ∙ ends_at),
        );
  };
  clients = λ p. has-replace p d n.clients;
  nodelinks = λ p. refl;
  walks = λ f p. walk_multi-replace f p c d n.clients e s;
}

pub nodelink-Ok :
    (n : Node) (b : NodeLink) → Inv n → Ok n (record n { nodelinks = replace b n.nodelinks })
nodelink-Ok n b v = record {
  inv = record {
    links = every-imp _ _ n.cclinks (λ l h. link_ok-nodelink b n.clients n.nodelinks l ∙ h) v.links;
    counted = v.counted;
    addresses = v.addresses;
    tree = v.tree;
    multi = v.multi;
  };
  clients = λ p. refl;
  nodelinks = λ p. has-replace p b n.nodelinks;
  walks = λ f p. refl;
}

-- The allocator's answers are not part of the invariant.
pub mem-Ok : {n n' : Node} (mem : List Bool) → Ok n n' → Ok n (record n' { mem = mem })
mem-Ok mem o = record {
  inv = record {
    links = o.inv.links;
    counted = o.inv.counted;
    addresses = o.inv.addresses;
    tree = o.inv.tree;
    multi = o.inv.multi;
  };
  clients = o.clients;
  nodelinks = o.nodelinks;
  walks = o.walks;
}

-- A link stored at its address, if the new one's pointers are good where the old one's were.
pub cclink-Ok :
    (n : Node) (l m : CcLink)
    → Inv n
    → find m.ptr n.cclinks ≡ some l
    → (link_ok n.clients n.nodelinks l ≡ true → link_ok n.clients n.nodelinks m ≡ true)
    → Ok n (record n { cclinks = replace m n.cclinks })
cclink-Ok n l m v e g = record {
  inv = record {
    links = every-replace_at _ m n.cclinks v.links e g;
    counted = rw (length-replace m n.cclinks) v.counted;
    addresses =
        every-replace_at _ m n.cclinks v.addresses e (λ h. rw (sym (find-key m.ptr n.cclinks e)) h);
    tree = v.tree;
    multi = v.multi;
  };
  clients = λ p. refl;
  nodelinks = λ p. refl;
  walks = λ f p. refl;
}
