-- ===== src/Node/Tree.antt =====
-- PICA_node.c: the binary search tree of connected clients, over the pointers in `struct client`.
-- The descents take fuel, a step more than the list has clients.
pub mod Removal
pub mod Shape
pub mod Descent
pub mod Parent
pub mod Add
pub mod Map
use Prim.Native.Nat.{Ordering}
use pica_pica.Common.{
  ℕ, zero, suc, List, [], ◌∷◌, Bool, false, Option, none, some, ◌==◌, if◌then◌else◌, length,
}
use mathlib.Core.Option
use pica_pica.Common.Store.{find}
use pica_pica.Node.Ids.{memcmp}
use pica_pica.Node.State.{
  Client, M, done, exited, fault, ◌>>=◌, ◌>>◌, return, read_client, update_client, client_keyed,
}

-- The loop of `client_tree_search`, from the pointer `i`. `none` is a fault.
unfoldable pub search_from : ℕ → List ℕ → Option ℕ → List Client → Option (Option ℕ)
search_from zero id i cs = none
search_from (suc fuel) id none cs = some none
search_from (suc fuel) id (some i) cs = elim (find i cs) [
  | none ↦ none
  | some c ↦ elim (memcmp id c.id) [
    | Ordering.eq ↦ some (some i)
    | Ordering.lt ↦ search_from fuel id c.left cs
    | Ordering.gt ↦ search_from fuel id c.right cs
  ]
]

abbrev or_fault : {A : Type 0} → Option A → M A
or_fault none n = fault
or_fault (some a) n = done a n

unfoldable pub client_tree_search : List ℕ → M (Option ℕ)
unfolding search_from
client_tree_search id n = or_fault (search_from (suc (length n.clients)) id n.tree_root n.clients) n

-- The place that holds the pointer to a client of the tree: `*p_link`.
pub data Place : Type 0 where
  root : Place
  left_of : ℕ → Place
  right_of : ℕ → Place

-- `*p_link = v`.
unfoldable pub assign : Place → Option ℕ → M (Unit {0})
unfolding update_client
assign root v n = done tt (record n { tree_root = v })
assign (left_of u) v n = update_client (some u) (λ c. record c { left = v }) n
assign (right_of u) v n = update_client (some u) (λ c. record c { right = v }) n

-- The place where `client_tree_add` puts a client, below the pointer `i`; `none` where the identifier
-- is in the tree.
unfoldable pub find_place : ℕ → List ℕ → ℕ → M (Option Place)
unfolding read_client
find_place zero id i n = fault
find_place (suc fuel) id i n = elim (read_client (some i) n) [
  | fault ↦ fault
  | exited ↦ exited
  | done c _ ↦ elim (memcmp id c.id) [
    | Ordering.eq ↦ done none n
    | Ordering.lt ↦ elim c.left [
      | none ↦ done (some (left_of i)) n
      | some l ↦ find_place fuel id l n
    ]
    | Ordering.gt ↦ elim c.right [
      | none ↦ done (some (right_of i)) n
      | some r ↦ find_place fuel id r n
    ]
  ]
]

-- The stores of `client_tree_add` once the place is found.
unfoldable pub hang : ℕ → Option Place → M ℕ
unfolding update_client assign
hang ci none = return 0
hang ci (some root) = do assign root (some ci); return 1
hang ci (some (left_of i)) = do
  assign (left_of i) (some ci)
  update_client (some ci) (λ c. record c { up = some i })
  return 1
hang ci (some (right_of i)) = do
  assign (right_of i) (some ci)
  update_client (some ci) (λ c. record c { up = some i })
  return 1

unfoldable pub client_tree_add : ℕ → M ℕ
unfolding hang find_place read_client
client_tree_add ci = do
  c ← read_client (some ci)
  place ← λ n. elim n.tree_root [
    | none ↦ done (some root) n
    | some r ↦ find_place (suc (length n.clients)) c.id r n
  ]
  hang ci place

-- `client_attach_multi_secondary`.
unfoldable pub client_attach_multi_secondary : ℕ → ℕ → M (Unit {0})
unfolding read_client update_client
client_attach_multi_secondary primary secondary = do
  p ← read_client (some primary)
  update_client (some secondary) (λ c. record c { next_multi = p.next_multi })
  update_client (some primary) (λ c. record c { next_multi = some secondary })

abbrev same_ptr : Option ℕ → ℕ → Bool
same_ptr none p = false
same_ptr (some q) p = q == p

-- The place that `client_tree_remove` and `client_tree_replace_multi` find through `up`.
unfoldable pub place_of : ℕ → Option ℕ → M Place
unfolding read_client
place_of ci none = return root
place_of ci (some u) = do
  parent ← read_client (some u)
  return (if same_ptr parent.left ci then left_of u else right_of u)

-- `while(lm->left) lm = lm->left;`.
unfoldable pub leftmost : ℕ → ℕ → M ℕ
unfolding read_client
leftmost zero lm n = fault
leftmost (suc fuel) lm n = elim (read_client (some lm) n) [
  | fault ↦ fault
  | exited ↦ exited
  | done c _ ↦ elim c.left [ none ↦ done lm n | some l ↦ leftmost fuel l n ]
]

-- `if (lm != ci->right) { lm->up->left = lm->right; lm->right = ci->right; }`.
unfoldable pub detach_leftmost : ℕ → ℕ → M (Unit {0})
unfolding read_client update_client
detach_leftmost right lm n =
    if lm == right
    then done tt n
    else (do
      m ← read_client (some lm)
      update_client m.up (λ c. record c { left = m.right })
      update_client (some lm) (λ c. record c { right = some right }))
        n

-- The last part of `client_tree_remove`, for a client with two children.
unfoldable pub remove_inner : Client → ℕ → Place → M (Unit {0})
unfolding leftmost detach_leftmost update_client assign
remove_inner c right p_link = do
  lm ← λ n. leftmost (suc (length n.clients)) right n
  detach_leftmost right lm
  update_client (some lm) (λ m. record m { left = c.left; up = c.up })
  assign p_link (some lm)

-- The cases of `client_tree_remove` on the children.
unfoldable pub remove_at : Client → Option ℕ → Option ℕ → Place → M (Unit {0})
unfolding update_client assign remove_inner
remove_at c none none p_link = assign p_link none
remove_at c (some l) none p_link = do
  update_client (some l) (λ m. record m { up = c.up })
  assign p_link (some l)
remove_at c none (some r) p_link = do
  update_client (some r) (λ m. record m { up = c.up })
  assign p_link (some r)
remove_at c (some l) (some r) p_link = remove_inner c r p_link

unfoldable pub client_tree_remove : ℕ → M (Unit {0})
unfolding read_client place_of remove_at
client_tree_remove ci = do
  c ← read_client (some ci)
  p_link ← place_of ci c.up
  remove_at c c.left c.right p_link

-- `if (child) child->up = secondary;`.
unfoldable pub set_up : Option ℕ → ℕ → M (Unit {0})
unfolding update_client
set_up none secondary = return tt
set_up (some child) secondary = update_client (some child) (λ c. record c { up = some secondary })

unfoldable pub client_tree_replace_multi : ℕ → M (Unit {0})
unfolding read_client update_client place_of assign set_up
client_tree_replace_multi primary = do
  p ← read_client (some primary)
  p_link ← place_of primary p.up
  assign p_link p.next_multi
  update_client p.next_multi
      (λ s. record s { state = p.state; up = p.up; left = p.left; right = p.right })
  λ n. elim p.next_multi [ none ↦ fault | some s ↦ (do set_up p.left s; set_up p.right s) n ]

-- The addresses on a chain of `next_multi` pointers, on fuel: `none` if it does not end in time or
-- follows a pointer that dangles.
unfoldable pub walk_multi : ℕ → Option ℕ → List Client → Option (List ℕ)
walk_multi fuel none cs = some []
walk_multi zero (some p) cs = none
walk_multi (suc fuel) (some p) cs = elim (find p cs) [
  | none ↦ none
  | some c ↦ Option.map (◌∷◌ p) (walk_multi fuel c.next_multi cs)
]
