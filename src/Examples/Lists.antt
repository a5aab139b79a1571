-- ===== src/Examples/Lists.antt =====
-- A list of two nodes, as a client reads it.
use pica_pica.Common.{ℕ, ◌≡◌, refl, List, [], ◌∷◌, ◌++◌, map, arith}
use pica_pica.Node.Nodelist.Received.Laws.{items, fit}
use pica_pica.C2n.{listed, clnodelist_items}
use pica_pica.C2n.Read.{told_of, clnodelist_items-items}

-- 127.0.0.1 and 10.0.0.2.
abbrev nodes : List (ℕ × ℕ)
nodes = (16777343, 51914) ∷ (33554442, 2298) ∷ []

clnodelist_items-items_example :
    clnodelist_items 3 (items nodes) [] ≡ listed ([] ++ map told_of nodes)
unfolding fit
clnodelist_items-items_example =
    clnodelist_items-items 3 (16777343, 51914) ((33554442, 2298) ∷ []) [] (omega arith) refl
