-- ===== src/Node/Invariant/Prims.antt =====
-- The elementary computations of the handlers, run on a node that meets the invariant.
use pica_pica.Common.{
  ℕ, zero, suc, ◌≡◌, refl, ◌∙◌, List, [], ◌∷◌, Bool, true, Option, none, some, length, arith, inl,
  inr, Option-cases,
}
use pica_pica.Common.Store.{
  find, has, has?, every, has-find, find-has, find-key, every-remove, length-remove,
}
use pica_pica.Node.Wbuf.{client_wbuf_push}
use pica_pica.Node.Tree.{search_from, client_tree_search}
use pica_pica.Node.CcLinks.{find_ids, cclink_list_delete}
use pica_pica.Node.Invariant.Defs.{SameLinks, link_ok, Inv, Safe, Any, Ok-refl}
use pica_pica.Node.Invariant.Stores.{SamePlace, client-Ok, nodelink-Ok, mem-Ok, cclink-Ok}
use pica_pica.Node.State.{
  CcLink, Client, Node, cclink_keyed, client_keyed, nodelink_keyed, read_client, update_client,
  update_cclink, push_client, push_nodelink,
}

-- A store to a client that leaves its address and its place among the clients.
abbrev pub Harmless : (Client → Client) → Type 0
Harmless f = (c : Client) → ((f c).ptr ≡ c.ptr) × (SamePlace (f c) c)

pub read_client-Safe :
    (n : Node) (p : ℕ)
    → Inv n
    → has p n.clients ≡ true
    → Safe n (λ c n'. find p n'.clients ≡ some c) (read_client (some p) n)
unfolding read_client
read_client-Safe n p v h = let (c, e) = has-find p n.clients h in rw e (Ok-refl v, e)

pub update_client-Safe :
    (n : Node) (p : Option ℕ) (f : Client → Client)
    → Harmless f
    → Inv n
    → has? p n.clients ≡ true
    → Safe n (SameLinks n) (update_client p f n)
unfolding update_client
update_client-Safe n none f k v h = cc
update_client-Safe n (some p) f k v h =
    let (c, e) = has-find p n.clients h in
    let (kp, ks) = k c in
    rw (e, Safe) (client-Ok n c (f c) v (rw (kp ∙ find-key p n.clients e) e) ks, refl)

pub push_client-Safe :
    (n : Node) (p : Option ℕ) (msgid : ℕ) (tail : List ℕ)
    → Inv n
    → has? p n.clients ≡ true
    → Safe n (SameLinks n) (push_client p msgid tail n)
unfolding push_client
push_client-Safe n none msgid tail v h = cc
push_client-Safe n (some p) msgid tail v h =
    let (c, e) = has-find p n.clients h in
    let d : Client = record c { wbuf = (client_wbuf_push c.wbuf msgid tail n.mem).1 } in
    rw (e, Safe)
      (mem-Ok _ (client-Ok n c d v (rw (find-key p n.clients e) e) (refl, refl, refl, refl)), refl)

pub push_nodelink-Safe :
    (n : Node) (p : Option ℕ) (msgid : ℕ) (tail : List ℕ)
    → Inv n
    → has? p n.nodelinks ≡ true
    → Safe n (SameLinks n) (push_nodelink p msgid tail n)
unfolding push_nodelink
push_nodelink-Safe n none msgid tail v h = cc
push_nodelink-Safe n (some p) msgid tail v h =
    let (c, e) = has-find p n.nodelinks h in rw (e, Safe) (mem-Ok _ (nodelink-Ok n _ v), refl)

-- A search of the tree finds a client that is there, or none.
pub search_from-has :
    (fuel : ℕ) (id : List ℕ) (i : Option ℕ) (cs : List Client) {p : ℕ}
    → search_from fuel id i cs ≡ some (some p)
    → has p cs ≡ true
unfolding search_from
search_from-has zero id i cs h = cc
search_from-has (suc fuel) id none cs h = cc
search_from-has (suc fuel) id (some i) cs {p} h = elim (Option-cases (find i cs)) [
  | inl gone ↦ cc (rw (gone, search_from) at h)
  | inr (c, e) ↦ ground (
    arith,
    find-has i cs e,
    search_from-has fuel id c.left cs {p = p},
    search_from-has fuel id c.right cs {p = p},
  )
]

pub client_tree_search-Safe :
    (n : Node) (id : List ℕ)
    → Inv n
    → Safe n (λ r n'. (p : ℕ) → r ≡ some p → has p n'.clients ≡ true) (client_tree_search id n)
unfolding client_tree_search
client_tree_search-Safe n id v =
    let (r, e) = v.tree id in
    rw e (
      Ok-refl v,
      λ p q. search_from-has (suc (length n.clients)) id n.tree_root n.clients (rw q at e),
    )

pub cclink_list_delete-Safe :
    (n : Node) (l : ℕ) → Inv n → has l n.cclinks ≡ true → Safe n Any (cclink_list_delete l n)
unfolding cclink_list_delete
cclink_list_delete-Safe n l v h = rw h (
  record {
    inv = record {
      links = every-remove _ l n.cclinks v.links;
      counted = omega (arith, v.counted, length-remove l n.cclinks h);
      addresses = every-remove _ l n.cclinks v.addresses;
      tree = v.tree;
      multi = v.multi;
    };
    clients = λ p. refl;
    nodelinks = λ p. refl;
    walks = λ f p. refl;
  },
  tt,
)

-- A change of a link that keeps its address and is good where the link was.
pub update_cclink-Safe :
    (n : Node) (p : ℕ) (f : CcLink → CcLink)
    → ((c : CcLink) → (f c).ptr ≡ c.ptr)
    → ((c : CcLink)
        → link_ok n.clients n.nodelinks c ≡ true
        → link_ok n.clients n.nodelinks (f c) ≡ true)
    → Inv n
    → has p n.cclinks ≡ true
    → Safe n Any (update_cclink (some p) f n)
unfolding update_cclink
update_cclink-Safe n p f k g v h =
    let (c, e) = has-find p n.cclinks h in
    rw (e, Safe) (cclink-Ok n c (f c) v (rw (k c ∙ find-key p n.cclinks e) e) (g c), tt)

-- The link that a search finds is in the list, and passes every test that all links pass.
pub find_ids-has :
    (a b : List ℕ) (cs : List CcLink) {l : CcLink} → find_ids a b cs ≡ some l → has l.ptr cs ≡ true
unfolding find_ids has
find_ids-has a b [] h = cc
find_ids-has a b (c ∷ cs) {l} h = ground (arith, find_ids-has a b cs {l = l})

pub find_ids-every :
    (f : CcLink → Bool) (a b : List ℕ) (cs : List CcLink) {l : CcLink}
    → every f cs ≡ true
    → find_ids a b cs ≡ some l
    → f l ≡ true
unfolding find_ids every
find_ids-every f a b [] e h = cc
find_ids-every f a b (c ∷ cs) {l} e h = ground (arith, find_ids-every f a b cs {l = l})
