-- ===== src/Node/Invariant/Added.antt =====
-- PICA_node.c: the functions `cclink_list_add…`, run on a node that meets the invariant.
use pica_pica.Common.{
  ℕ, suc, ◌+◌, ◌≡◌, refl, List, [], ◌∷◌, ◌++◌, Bool, true, false, none, some, ltb, arith, inl, inr,
  length-append, Bool-cases,
}
use pica_pica.Common.Store.{
  find, has, replace, has-find, has-above, find-append, replace-append, every-imp, every-append_one,
}
use pica_pica.Node.Wbuf.{malloc}
use pica_pica.Node.CcLinks.{
  new_link, cclink_list_addlocal, cclink_list_addn2nclr, cclink_list_addn2ncle,
}
use pica_pica.Node.Invariant.Defs.{link_ok, Inv, Ok, Safe, Any, Ok-refl}
use pica_pica.Node.Invariant.Stores.{mem-Ok}
use pica_pica.Node.State.{
  local_waitrep, n2nclr_waitsearch, n2ncle_waitrep, CcLink, Node, cclink_keyed, client_keyed,
  nodelink_keyed,
}

-- The node with one link more.
abbrev with_link : Node → CcLink → List Bool → Node
with_link n l mem = record n {
  cclinks = n.cclinks ++ (l ∷ []);
  cclink_list_count = n.cclink_list_count + 1;
  mem = mem;
  fresh = suc n.fresh;
}

with_link-Ok :
    (n : Node) (l : CcLink) (mem : List Bool)
    → Inv n
    → l.ptr ≡ n.fresh
    → link_ok n.clients n.nodelinks l ≡ true
    → Ok n (with_link n l mem)
with_link-Ok n l mem v e g = record {
  inv = record {
    links = every-append_one _ n.cclinks l v.links g;
    counted = omega (arith, v.counted, length-append n.cclinks (l ∷ []));
    addresses =
        every-append_one _ n.cclinks l
          (every-imp (λ m. ltb m.ptr n.fresh) (λ m. ltb m.ptr (suc n.fresh)) n.cclinks
            (λ m h. ground arith) v.addresses)
          (rw e (ground arith));
    tree = v.tree;
    multi = v.multi;
  };
  clients = λ p. refl;
  nodelinks = λ p. refl;
  walks = λ f p. refl;
}

-- The store to the link that was just added.
store_added :
    (n : Node) (l m : CcLink)
    → Inv n
    → l.ptr ≡ n.fresh
    → m.ptr ≡ n.fresh
    → (find n.fresh (n.cclinks ++ (l ∷ [])) ≡ some l)
      × (replace m (n.cclinks ++ (l ∷ [])) ≡ n.cclinks ++ (m ∷ []))
unfolding find replace
store_added n l m v e g =
    let new : has n.fresh n.cclinks ≡ false = has-above n.fresh n.cclinks v.addresses in
    (
      ground (arith, find-append n.fresh n.cclinks (l ∷ []) new),
      ground (arith, replace-append m n.cclinks (l ∷ []) (rw g new)),
    )

pub cclink_list_addlocal-Safe :
    (n : Node) (clr cle : ℕ)
    → Inv n
    → has clr n.clients ≡ true
    → has cle n.clients ≡ true
    → Safe n Any (cclink_list_addlocal (some clr) (some cle) n)
unfolding cclink_list_addlocal link_ok
cclink_list_addlocal-Safe n clr cle v h k =
    let (a, ea) = has-find clr n.clients h in
    let (b, eb) = has-find cle n.clients k in
    let l = new_link n.fresh n.now (some clr) (some cle) in
    let m : CcLink = record l { state = local_waitrep; caller_id = a.id; callee_id = b.id } in
    let (found, stored) = store_added n l m v refl refl in
    elim (Bool-cases (malloc n.mem).0) [
      | inl got ↦
          rw (got, ea, eb, found, Safe)
            (rw stored (with_link-Ok n m (malloc n.mem).1 v refl (ground arith), tt))
      | inr out ↦ rw (out, Safe) (mem-Ok _ (Ok-refl v), tt)
    ]

pub cclink_list_addn2nclr-Safe :
    (n : Node) (clr : ℕ) (callee_id : List ℕ)
    → Inv n
    → has clr n.clients ≡ true
    → Safe n Any (cclink_list_addn2nclr (some clr) callee_id n)
unfolding cclink_list_addn2nclr link_ok
cclink_list_addn2nclr-Safe n clr callee_id v h =
    let (a, ea) = has-find clr n.clients h in
    let l = new_link n.fresh n.now (some clr) none in
    let m : CcLink = record l {
      state = n2nclr_waitsearch;
      caller_id = a.id;
      callee_id = callee_id;
    } in
    let (found, stored) = store_added n l m v refl refl in
    elim (Bool-cases (malloc n.mem).0) [
      | inr out ↦ rw (out, Safe) (mem-Ok _ (Ok-refl v), tt)
      | inl got ↦ elim (Bool-cases (malloc (malloc n.mem).1).0) [
        | inr none_left ↦ rw (got, ea, none_left, Safe) tt
        | inl more ↦
            rw (got, ea, more, found, Safe)
              (rw stored (with_link-Ok n m (malloc (malloc n.mem).1).1 v refl (ground arith), tt))
      ]
    ]

pub cclink_list_addn2ncle-Safe :
    (n : Node) (caller_id : List ℕ) (node cle : ℕ)
    → Inv n
    → has node n.nodelinks ≡ true
    → has cle n.clients ≡ true
    → Safe n Any (cclink_list_addn2ncle caller_id (some node) (some cle) n)
unfolding cclink_list_addn2ncle link_ok
cclink_list_addn2ncle-Safe n caller_id node cle v g h =
    let (a, ea) = has-find cle n.clients h in
    let l = new_link n.fresh n.now none (some cle) in
    let m : CcLink = record l {
      state = n2ncle_waitrep;
      caller_id = caller_id;
      callee_id = a.id;
      caller_node = some node;
    } in
    let (found, stored) = store_added n l m v refl refl in
    elim (Bool-cases (malloc n.mem).0) [
      | inr out ↦ rw (out, Safe) (mem-Ok _ (Ok-refl v), tt)
      | inl got ↦ elim (Bool-cases (malloc (malloc n.mem).1).0) [
        | inr none_left ↦ rw (got, none_left, Safe) tt
        | inl more ↦
            rw (got, more, ea, found, Safe)
              (rw stored (with_link-Ok n m (malloc (malloc n.mem).1).1 v refl (ground arith), tt))
      ]
    ]
