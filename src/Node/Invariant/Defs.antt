-- ===== src/Node/Invariant/Defs.antt =====
-- PICA_node.c: the invariant of the node, which leaves out its new connections, and the rules for computations over the node.
use pica_pica.Common.{
  ℕ, suc, ◌≡◌, refl, ◌∙◌, List, Bool, true, false, ◌&&◌, Option, none, some, ltb, length,
}
use pica_pica.Common.Store.{has, has?, every}
use pica_pica.Node.Tree.{search_from, walk_multi}
use pica_pica.Node.State.{
  when, return, CcState, cc_new, n2nclr_waitsearch, n2nclr_waitrep, n2nclr_waitconnclr,
  n2nclr_waitconnclranontlsshutdown, n2nclr_active, n2ncle_waitrep, n2ncle_waitconncle,
  n2ncle_waitconncleanontlsshutdown, n2ncle_active, CcLink, Client, NodeLink, Node, Run, M, done,
  exited, fault, ◌>>=◌, cclink_keyed, client_keyed, nodelink_keyed,
}

-- Where the ends of a link are.
pub data Ends : Type 0 where
  unset both_here searching callee_there caller_there : Ends

unfoldable pub ends : CcState → Ends
ends cc_new = unset
ends n2nclr_waitsearch = searching
ends n2nclr_waitrep = callee_there
ends n2nclr_waitconnclr = callee_there
ends n2nclr_waitconnclranontlsshutdown = callee_there
ends n2nclr_active = callee_there
ends n2ncle_waitrep = caller_there
ends n2ncle_waitconncle = caller_there
ends n2ncle_waitconncleanontlsshutdown = caller_there
ends n2ncle_active = caller_there
ends _ = both_here

abbrev is_null : Option ℕ → Bool
is_null none = true
is_null (some _) = false

abbrev ends_ok : Ends → List Client → List NodeLink → CcLink → Bool
ends_ok unset cs ns l = false
ends_ok both_here cs ns l = has? l.p1 cs && has? l.p2 cs
ends_ok searching cs ns l = has? l.p1 cs && is_null l.p2
ends_ok callee_there cs ns l = has? l.p1 cs && is_null l.p2 && has? l.callee_node ns
ends_ok caller_there cs ns l = is_null l.p1 && has? l.p2 cs && has? l.caller_node ns

-- The pointers of a link that its state lets a handler follow lead to clients and node links.
unfoldable pub link_ok : List Client → List NodeLink → CcLink → Bool
unfolding ends
link_ok cs ns l = ends_ok (ends l.state) cs ns l

-- Every search of the tree of clients ends, without following a pointer that dangles.
abbrev pub Searches : List Client → Option ℕ → Type 0
Searches cs root =
    (id : List ℕ) → (r : Option ℕ) × (search_from (suc (length cs)) id root cs ≡ some r)

-- Every chain of clients of one identifier ends, without following a pointer that dangles.
abbrev pub Chains : List Client → Type 0
Chains cs =
    (p : ℕ) → has p cs ≡ true → (ps : List ℕ) × (walk_multi (suc (length cs)) (some p) cs ≡ some ps)

pub record Inv (n : Node) : Type 0 where
  pub links : every (link_ok n.clients n.nodelinks) n.cclinks ≡ true
  pub counted : n.cclink_list_count ≡ length n.cclinks
  pub addresses : every (λ l. ltb l.ptr n.fresh) n.cclinks ≡ true
  pub tree : Searches n.clients n.tree_root
  pub multi : Chains n.clients

-- What a handler that is not at fault leaves: the invariant, the clients and node links that were
-- there, and the chains of clients of one identifier.
pub record Ok (n n' : Node) : Type 0 where
  pub inv : Inv n'
  pub clients : (p : ℕ) → has p n'.clients ≡ has p n.clients
  pub nodelinks : (p : ℕ) → has p n'.nodelinks ≡ has p n.nodelinks
  pub walks : (fuel : ℕ) (p : Option ℕ) → walk_multi fuel p n'.clients ≡ walk_multi fuel p n.clients

-- A computation is not at fault, and `P` holds of its result.
abbrev pub Safe : {A : Type 0} → Node → (A → Node → Type 0) → Run A → Type 0
Safe n P (done a n') = Ok n n' × P a n'
Safe n P exited = Unit
Safe n P fault = ⊥

-- The list of links is as it was.
abbrev pub SameLinks : {A : Type 0} → Node → A → Node → Type 0
SameLinks n a n' = n'.cclinks ≡ n.cclinks

abbrev pub Any : {A : Type 0} → A → Node → Type 0
Any a n = Unit

pub Ok-refl : {n : Node} → Inv n → Ok n n
Ok-refl v = record { inv = v; clients = λ p. refl; nodelinks = λ p. refl; walks = λ f p. refl }

pub Ok-trans : {n n' n'' : Node} → Ok n n' → Ok n' n'' → Ok n n''
Ok-trans a b = record {
  inv = b.inv;
  clients = λ p. b.clients p ∙ a.clients p;
  nodelinks = λ p. b.nodelinks p ∙ a.nodelinks p;
  walks = λ f p. b.walks f p ∙ a.walks f p;
}

Safe-widen :
    {A : Type 0} (P : A → Node → Type 0) {n n' : Node} (r : Run A)
    → Ok n n'
    → Safe n' P r
    → Safe n P r
Safe-widen P (done a n'') o (o', p) = (Ok-trans o o', p)
Safe-widen P exited o s = tt
Safe-widen P fault o s = s

-- The rule of a sequence of two computations.
pub Safe-bind :
    {A B : Type 0} (P : A → Node → Type 0) (Q : B → Node → Type 0) (m : M A) (f : A → M B)
    (n : Node)
    → Safe n P (m n)
    → ((a : A) (n' : Node) → Ok n n' → P a n' → Safe n' Q (f a n'))
    → Safe n Q ((m >>= f) n)
Safe-bind {A} {B} P Q m f n s k = go (m n) s
  where
    go :
        (r : Run A)
        → Safe n P r
        → Safe n Q (elim r [ done a n' ↦ f a n' | exited ↦ exited | fault ↦ fault ])
    go (done a n') (o, p) = Safe-widen Q (f a n') o (k a n' o p)
    go exited s = tt
    go fault s = s

pub Safe-return :
    {A : Type 0} (Q : A → Node → Type 0) (a : A) (n : Node) → Inv n → Q a n → Safe n Q (return a n)
Safe-return Q a n v q = (Ok-refl v, q)

pub Safe-when :
    {A : Type 0} (Q : A → Node → Type 0) (b : Bool) (x y : M A) (n : Node)
    → (b ≡ true → Safe n Q (x n))
    → (b ≡ false → Safe n Q (y n))
    → Safe n Q (when b x y n)
Safe-when Q true x y n f g = f refl
Safe-when Q false x y n f g = g refl

pub Safe-option :
    {A B : Type 0} (Q : B → Node → Type 0) (x : M B) (f : A → M B) (o : Option A) (n : Node)
    → (o ≡ none → Safe n Q (x n))
    → ((a : A) → o ≡ some a → Safe n Q (f a n))
    → Safe n Q ((elim o as (λ _. M B) [ none ↦ x | some a ↦ f a ]) n)
Safe-option Q x f none n g h = g refl
Safe-option Q x f (some a) n g h = h a refl

pub Safe-Any :
    {A : Type 0} (P : A → Node → Type 0) (n : Node) (r : Run A) → Safe n P r → Safe n Any r
Safe-Any P n (done a n') (o, p) = (o, tt)
Safe-Any P n exited s = tt
Safe-Any P n fault s = s
