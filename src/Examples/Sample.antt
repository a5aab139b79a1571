-- ===== src/Examples/Sample.antt =====
-- A small node: two clients, one above the other in the tree, a link between them that waits for the
-- callee's answer, a link that waits for a search, and a link to another node.
use pica_pica.Common.{
  ℕ, ◌≡◌, refl, List, [], ◌∷◌, false, Option, none, some, ◌==◌, replicate, arith, inl, inr,
  Bool-cases, ◌∙◌,
}
use pica_pica.Common.Store.{find, has, every}
use pica_pica.Node.Ids.{memcmp, Ordering-cases}
use pica_pica.Node.Wbuf.{empty_wbuf}
use pica_pica.Node.Tree.{search_from, walk_multi}
use pica_pica.Node.Invariant.Defs.{Inv, Searches, Chains, link_ok}
use pica_pica.Node.Invariant.Stores.{search_lt, search_eq, search_gt}
use pica_pica.Node.State.{
  Client, CcLink, CcState, NodeLink, Node, Relay, cl_connected, local_waitrep, n2nclr_waitsearch,
  n2ncle_active, cclink_keyed, client_keyed, nodelink_keyed,
}

abbrev pub alice_id : List ℕ
alice_id = replicate 28 1

abbrev pub bob_id : List ℕ
bob_id = replicate 28 2

abbrev pub carol_id : List ℕ
carol_id = replicate 28 3

abbrev pub client_at : ℕ → List ℕ → Option ℕ → Option ℕ → Client
client_at p id up right = record {
  ptr = p;
  id = id;
  up = up;
  left = none;
  right = right;
  next_multi = none;
  addr = 0;
  wbuf = empty_wbuf;
  state = cl_connected;
  tmst = 0;
  disconnect_ticking = false;
}

abbrev pub alice : Client
alice = client_at 1 alice_id none (some 2)

abbrev pub bob : Client
bob = client_at 2 bob_id (some 1) none

abbrev pub clients : List Client
clients = alice ∷ bob ∷ []

abbrev pub peer : NodeLink
peer = record {
  ptr = 9;
  addr = 0;
  port = 0;
  node_addr = some (16777343, 51914);
  wbuf = empty_wbuf;
  tmst = 0;
  disconnect_ticking = false;
}

abbrev pub no_data : Relay
no_data = record { buflen = 4096; bytes = [] }

abbrev pub link_at : ℕ → CcState → Option ℕ → Option ℕ → List ℕ → List ℕ → Option ℕ → CcLink
link_at p state p1 p2 caller_id callee_id caller_node = record {
  ptr = p;
  state = state;
  tmst = 0;
  p1 = p1;
  p2 = p2;
  caller_id = caller_id;
  callee_id = callee_id;
  caller_node = caller_node;
  callee_node = none;
  sck_p1 = none;
  sck_p2 = none;
  p1p2 = no_data;
  p2p1 = no_data;
}

abbrev pub alice_bob : CcLink
alice_bob = link_at 3 local_waitrep (some 1) (some 2) alice_id bob_id none

abbrev pub bob_carol : CcLink
bob_carol = link_at 4 n2nclr_waitsearch (some 2) none bob_id carol_id none

abbrev pub carol_bob : CcLink
carol_bob = link_at 5 n2ncle_active none (some 2) carol_id bob_id (some 9)

abbrev pub links : List CcLink
links = alice_bob ∷ bob_carol ∷ carol_bob ∷ []

abbrev pub sample : Node
sample = record {
  clients = clients;
  tree_root = some 1;
  cclinks = links;
  nodelinks = peer ∷ [];
  newconns = [];
  cclink_list_count = 3;
  nodelink_list_count = 1;
  now = 100;
  mem = [];
  fresh = 10;
}

below_bob : (id : List ℕ) → (r : Option ℕ) × (search_from 2 id (some 2) clients ≡ some r)
unfolding search_from find
below_bob id = elim (Ordering-cases (memcmp id bob_id)) [
  | inl o ↦ (none, search_lt 1 id 2 clients {c = bob} refl o)
  | inr (inl o) ↦ (some 2, search_eq 1 id 2 clients {c = bob} refl o)
  | inr (inr o) ↦ (none, search_gt 1 id 2 clients {c = bob} refl o)
]

sample-Searches : Searches clients (some 1)
unfolding search_from find
sample-Searches id = elim (Ordering-cases (memcmp id alice_id)) [
  | inl o ↦ (none, search_lt 2 id 1 clients {c = alice} refl o)
  | inr (inl o) ↦ (some 1, search_eq 2 id 1 clients {c = alice} refl o)
  | inr (inr o) ↦ let (r, e) = below_bob id in (r, search_gt 2 id 1 clients {c = alice} refl o ∙ e)
]

sample-Chains : Chains clients
unfolding has walk_multi find
sample-Chains p h = elim (Bool-cases (1 == p)) [
  | inl e ↦ (p ∷ [], rw (e, walk_multi))
  | inr e ↦ elim (Bool-cases (2 == p)) [
    | inl d ↦ (p ∷ [], ground arith)
    | inr d ↦ absurd (ground arith)
  ]
]

pub sample-Inv : Inv sample
unfolding every link_ok has
sample-Inv = record {
  links = refl;
  counted = refl;
  addresses = refl;
  tree = sample-Searches;
  multi = sample-Chains;
}
