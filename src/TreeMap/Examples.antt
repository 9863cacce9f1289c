-- ===== src/TreeMap/Examples.antt =====
-- PooledMap.hpp on a map of the keys 10, 5 and 20, whose nodes have the addresses 1, 2 and 3.
use bhcpp_hptool_kit.Base.{
  ◌+◌, ◌≤◌, if◌then◌else◌, ℕ, ◌≡◌, refl, arith, Bool, List, [], ◌∷◌, none, some, if◌then◌else◌,
  ◌==◌, ltb,
}
use bhcpp_hptool_kit.Base.Run.{ok, Returns}
use bhcpp_hptool_kit.TreeMap.{red, black, left, right, Heap, TreeMap, fix_insert}
use bhcpp_hptool_kit.TreeMap.Shape.{
  Tree, leaf, node, Frame, here, Holds, HoldsPath, occurs, occurs_around, inorder,
}
use bhcpp_hptool_kit.TreeMap.Focus.{Focus}
use bhcpp_hptool_kit.TreeMap.Rebalance.{frame, rebalance}
use bhcpp_hptool_kit.TreeMap.Erase.{fix_erase}
use bhcpp_hptool_kit.TreeMap.Erase.{erase}
use bhcpp_hptool_kit.TreeMap.EraseMap.{Without, erase-present}
use bhcpp_hptool_kit.TreeMap.Stages.{Outcome}
use bhcpp_hptool_kit.TreeMap.FixErase.{fix_erase-RedBlack}
use bhcpp_hptool_kit.TreeMap.FixInsert.{Result, fix_insert-rebalance}
use bhcpp_hptool_kit.TreeMap.Search.{index, find}
use bhcpp_hptool_kit.TreeMap.Sorted.{KeyOrder, insert_item, lookup}
use bhcpp_hptool_kit.TreeMap.Attach.{item}
use bhcpp_hptool_kit.TreeMap.Search.{assign}
use bhcpp_hptool_kit.TreeMap.Traverse.{for_each, clear}
use bhcpp_hptool_kit.TreeMap.Visit.{visit, for_each-visit}
use bhcpp_hptool_kit.TreeMap.Clear.{clear-tree}
use bhcpp_hptool_kit.TreeMap.RoundTrip.{assign-find}
use bhcpp_hptool_kit.TreeMap.Writes.{Changed}
use bhcpp_hptool_kit.TreeMap.Insert.{IsMap, index-new}
use bhcpp_hptool_kit.TreeMap.Reads.{value_or, find-lookup}

abbrev same_key : ℕ → ℕ → Bool
same_key a b = a == b

abbrev key_less : ℕ → ℕ → Bool
key_less a b = ltb a b

number_order : KeyOrder same_key key_less
number_order = record {
  equal_refl = λ a. ground arith;
  equal_eq = λ a b e. ground arith;
  less_irrefl = λ a. ground arith;
  less_trans = λ a b c e f. ground arith;
  less_total = λ a b e f. ground arith;
}

abbrev three_nodes : Heap ℕ ℕ
three_nodes = λ a.
    if a == 1
    then some (record {
      key = 10;
      value = 100;
      left_child = some 2;
      right_child = some 3;
      parent = none;
      color = black;
    })
    else if a == 2
    then some (record {
      key = 5;
      value = 50;
      left_child = none;
      right_child = none;
      parent = some 1;
      color = red;
    })
    else if a == 3
    then some (record {
      key = 20;
      value = 200;
      left_child = none;
      right_child = none;
      parent = some 1;
      color = red;
    })
    else none

abbrev three_keys : TreeMap
three_keys = record { root = some 1; size = 3 }

abbrev three_tree : Tree ℕ ℕ
three_tree =
    node black (item 1 10 100) (node red (item 2 5 50) leaf leaf)
      (node red (item 3 20 200) leaf leaf)

three_tree-Focus : Focus three_nodes [] three_tree
unfolding Holds HoldsPath occurs occurs_around here
three_tree-Focus = ((refl, (refl, tt, tt), (refl, tt, tt)), tt, λ a. ground arith)

three_keys-IsMap : IsMap same_key key_less three_nodes three_keys three_tree
three_keys-IsMap = (
  three_tree-Focus,
  refl,
  refl,
  ((refl, (refl, tt)), ((refl, tt), (tt, tt))),
  (refl, ((refl, refl, tt, tt), (refl, refl, tt, tt)), (1, ((refl, refl), (refl, refl)))),
)

index-new_example : Returns (index same_key key_less three_nodes three_keys 30 0 4) λ r.
    (t' : Tree ℕ ℕ) × IsMap same_key key_less r.0 r.1 t'
    × (inorder t' ≡ insert_item same_key key_less (item 4 30 0) (inorder three_tree))
    × (r.2 ≡ 4)
index-new_example =
    index-new same_key key_less number_order three_nodes three_keys three_tree 30 0 4
      three_keys-IsMap refl refl (omega arith)

find-lookup_example :
    find same_key key_less three_nodes three_keys 20 0
    ≡ ok (value_or (lookup same_key key_less 20 (inorder three_tree)) 0)
find-lookup_example =
    find-lookup same_key key_less number_order three_nodes three_keys three_tree 20 0
      three_keys-IsMap

-- The tree with a fourth node, 30, below the red node 20.
abbrev four_nodes : Heap ℕ ℕ
four_nodes = λ a.
    if a == 1
    then some (record {
      key = 10;
      value = 100;
      left_child = some 2;
      right_child = some 3;
      parent = none;
      color = black;
    })
    else if a == 2
    then some (record {
      key = 5;
      value = 50;
      left_child = none;
      right_child = none;
      parent = some 1;
      color = red;
    })
    else if a == 3
    then some (record {
      key = 20;
      value = 200;
      left_child = none;
      right_child = some 4;
      parent = some 1;
      color = red;
    })
    else if a == 4
    then some (record {
      key = 30;
      value = 0;
      left_child = none;
      right_child = none;
      parent = some 3;
      color = red;
    })
    else none

abbrev above_four : List (Frame ℕ ℕ)
above_four =
    frame right red (item 3 20 200) leaf
    ∷ frame right black (item 1 10 100) (node red (item 2 5 50) leaf leaf)
    ∷ []

four_nodes-Focus : Focus four_nodes above_four (node red (item 4 30 0) leaf leaf)
unfolding Holds HoldsPath occurs occurs_around here
four_nodes-Focus = ((refl, tt, tt), (refl, tt, (refl, (refl, tt, tt), tt)), λ a. ground arith)

fix_insert-rebalance_example :
    Returns
      (fix_insert 3 four_nodes (some 1) (some 4))
      λ b. Result b (rebalance above_four (item 4 30 0) leaf leaf)
fix_insert-rebalance_example =
    fix_insert-rebalance 3 four_nodes above_four (item 4 30 0) leaf leaf (omega arith) refl
      four_nodes-Focus

assign-find_example : Returns (assign same_key key_less three_nodes three_keys 30 0 4 7) λ r.
    find same_key key_less r.0 r.1 30 0
    ≡ (if same_key 30 30 then ok 7 else find same_key key_less three_nodes three_keys 30 0)
assign-find_example =
    assign-find same_key key_less number_order three_nodes three_keys three_tree 30 30 0 7 0 4
      three_keys-IsMap refl (omega arith)

-- The function adds the keys up, and doubles the values.
abbrev add_up : ℕ → ℕ → ℕ → ℕ × ℕ
add_up sum key value = (sum + key, value + value)

for_each-visit_example : Returns (for_each add_up three_nodes 0 three_keys) λ r.
    (t' : Tree ℕ ℕ) × IsMap same_key key_less r.0 three_keys t'
    × ((inorder t', r.1) ≡ visit add_up 0 (inorder three_tree))
for_each-visit_example =
    for_each-visit add_up same_key key_less three_nodes three_keys 0 three_tree three_keys-IsMap

three_tree_once : (a : ℕ) → occurs a three_tree ≤ 1
unfolding occurs here
three_tree_once a = ground arith

clear-tree_example : Returns (clear 4 three_nodes (some 1)) λ h'.
    ((a : ℕ) → occurs a three_tree ≡ 1 → h' a ≡ none)
    × Changed three_nodes h' (λ a. occurs a three_tree)
clear-tree_example =
    clear-tree 4 three_nodes none three_tree (omega arith) three_tree_once (three_tree-Focus.0)

-- A map that has lost the node on the left of the root.
abbrev two_nodes : Heap ℕ ℕ
two_nodes = λ a.
    if a == 1
    then some (record {
      key = 10;
      value = 100;
      left_child = none;
      right_child = some 3;
      parent = none;
      color = black;
    })
    else if a == 3
    then some (record {
      key = 20;
      value = 200;
      left_child = none;
      right_child = none;
      parent = some 1;
      color = black;
    })
    else none

abbrev above_gap : List (Frame ℕ ℕ)
above_gap = frame left black (item 1 10 100) (node black (item 3 20 200) leaf leaf) ∷ []

two_nodes-Focus : Focus two_nodes above_gap leaf
unfolding Holds HoldsPath occurs occurs_around here
two_nodes-Focus = (tt, (refl, (refl, tt, tt), tt), λ a. ground arith)

fix_erase-RedBlack_example :
    Returns (fix_erase 3 two_nodes (some 1) none (some 1)) (Outcome above_gap leaf)
fix_erase-RedBlack_example =
    fix_erase-RedBlack 3 0 two_nodes above_gap leaf (omega arith) two_nodes-Focus refl tt
      ((refl, refl), tt) ((tt, tt), tt, tt) refl

erase-present_example : Returns (erase same_key key_less three_nodes three_keys 10) λ r.
    (t' : Tree ℕ ℕ) × IsMap same_key key_less r.0 r.1 t'
    × Without same_key key_less (item 1 10 100) three_tree t'
    × (r.2 ≡ 1)
erase-present_example =
    erase-present same_key key_less number_order three_nodes three_keys three_tree 10
      (item 1 10 100) three_keys-IsMap refl (omega arith)
