-- ===== src/Examples/Trees.antt =====
-- The tree of clients.
use pica_pica.Common.{ℕ, List, ◌≡◌, refl, [], ◌∷◌, none, some, arith}
use pica_pica.Common.Store.{find}
use pica_pica.Node.State.{Client, Node, done, client_keyed}
use pica_pica.Node.Ids.{memcmp}
use pica_pica.Node.Tree.{client_tree_remove, client_tree_add, client_tree_search}
use pica_pica.Node.Tree.Shape.{Bst, leaf, node, lookup, insert, Represents}
use pica_pica.Node.Tree.Map.{client_tree_add-insert, found_after}
use pica_pica.Node.Tree.Removal.{client_tree_remove_up}
use pica_pica.Examples.Sample.{sample, client_at, alice_id, bob_id, carol_id}

abbrev top : Client
top = record (client_at 1 bob_id none (some 3)) { left = some 2 }

abbrev low : Client
low = client_at 2 alice_id (some 1) none

abbrev high : Client
high = client_at 3 carol_id (some 1) none

abbrev three : Node
three = record sample { clients = top ∷ low ∷ high ∷ [] }

client_tree_remove_up_example :
    (n' : Node) × (client_tree_remove 1 three ≡ done tt n')
    × (n'.tree_root ≡ some 3)
    × ((cl' : Client) × (find 2 n'.clients ≡ some cl') × (cl'.up ≡ some 1))
unfolding find
client_tree_remove_up_example =
    client_tree_remove_up three 1 2 3 top low high refl refl refl refl refl refl refl refl
      (λ e. omega arith)

-- A tree of one client, and a second client that is not in it.
abbrev alone : Client
alone = client_at 1 bob_id none none

abbrev joining : Client
joining = client_at 2 alice_id none none

abbrev one : Node
one = record sample { clients = alone ∷ joining ∷ [] }

abbrev one_tree : Bst
one_tree = node leaf 1 bob_id leaf

client_tree_add-insert_example :
    (n' : Node) × (client_tree_add 2 one ≡ done 1 n')
    × Represents n'.clients n'.tree_root (insert alice_id 2 one_tree)
    × ((j : List ℕ)
        → client_tree_search j n' ≡ done (found_after j alice_id 2 (lookup j one_tree)) n')
unfolding find lookup memcmp
client_tree_add-insert_example =
    client_tree_add-insert one one_tree 2 joining
      record {
        shape = (refl, alone, refl, refl, refl, refl);
        apart = (refl, refl, λ q h. refl, tt, tt);
        bounded = omega arith;
      }
      (omega arith) refl refl refl refl refl
