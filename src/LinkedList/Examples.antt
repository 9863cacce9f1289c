-- ===== src/LinkedList/Examples.antt =====
-- PooledList.hpp on concrete lists: 5, 6 at the addresses 10, 11, and 7 alone at the address 12.
use bhcpp_hptool_kit.Base.{ℕ, ◌≡◌, refl, arith, List, [], ◌∷◌, some, none, if◌then◌else◌, ◌==◌}
use bhcpp_hptool_kit.Base.Distinct.{here, there}
use bhcpp_hptool_kit.Base.Run.{Returns}
use bhcpp_hptool_kit.LinkedList.{Heap, Handle, new_handle, insert, insert_list, erase_node}
use bhcpp_hptool_kit.LinkedList.Chain.{Chain, Repr}
use bhcpp_hptool_kit.LinkedList.Insert.{insert_lem, insert_list_lem}
use bhcpp_hptool_kit.LinkedList.Erase.{erase_node_lem}
use bhcpp_hptool_kit.LinkedList.Cached.{HashList}
use bhcpp_hptool_kit.LinkedList.Cached
use bhcpp_hptool_kit.LinkedList.Cached.Lookup.{Accurate, node_at-cached}

abbrev three_nodes : Heap ℕ
three_nodes = λ a.
    if a == 10
    then some (record { value = 5; prev = none; next = some 11 })
    else if a == 11
    then some (record { value = 6; prev = some 10; next = none })
    else if a == 12
    then some (record { value = 7; prev = none; next = none })
    else none

abbrev pair : Handle
pair = record { head = some 10; tail = some 11; size = 2 }

abbrev single : Handle
single = record { head = some 12; tail = some 12; size = 1 }

abbrev pair_nodes : List (ℕ × ℕ)
pair_nodes = (10, 5) ∷ (11, 6) ∷ []

pair-Repr : Repr three_nodes pair ((10, 5) ∷ (11, 6) ∷ [])
unfolding Chain
pair-Repr = (
  refl,
  refl,
  refl,
  (λ i. elim i [ here e ↦ absurd (omega arith) | there j ↦ elim j [ ] ], (λ i. elim i [ ], tt)),
  (refl, (refl, tt)),
)

single-Repr : Repr three_nodes single ((12, 7) ∷ [])
unfolding Chain
single-Repr = (refl, refl, refl, (λ i. elim i [ ], tt), (refl, tt))

insert_lem_example :
    Returns (insert three_nodes pair 1 13 8) λ r. Repr r.0 r.1 ((10, 5) ∷ (13, 8) ∷ (11, 6) ∷ [])
insert_lem_example = insert_lem three_nodes pair ((10, 5) ∷ []) ((11, 6) ∷ []) 13 8 pair-Repr refl

insert_list_lem_example :
    Returns
      (insert_list three_nodes pair 1 single)
      λ r. Repr r.0 r.1 ((10, 5) ∷ (12, 7) ∷ (11, 6) ∷ []) × (r.2 ≡ new_handle)
insert_list_lem_example =
    insert_list_lem three_nodes pair single ((10, 5) ∷ []) ((11, 6) ∷ []) (12, 7) [] pair-Repr
      single-Repr
      (λ a i j. elim i [
        | here e ↦ elim j [
          | here e' ↦ absurd (omega arith)
          | there k ↦ elim k [ here e' ↦ absurd (omega arith) | there m ↦ elim m [ ] ]
        ]
        | there k ↦ elim k [ ]
      ])

erase_node_lem_example :
    Returns
      (erase_node three_nodes pair (some 11))
      λ r. Repr r.0 r.1 ((10, 5) ∷ []) × (r.0 11 ≡ none)
erase_node_lem_example = erase_node_lem three_nodes pair ((10, 5) ∷ []) (11, 6) [] pair-Repr

-- the same pair, with its second node in the cache
abbrev cached_pair : HashList
cached_pair = record { list = pair; index_cache = (1, some 11) ∷ []; cache_max_size = 128 }

cached_pair-Accurate : Accurate pair_nodes ((1, some 11) ∷ [])
unfolding Accurate
cached_pair-Accurate = (omega arith, refl, tt)

node_at-cached_example :
    Returns
      (Cached.node_at three_nodes cached_pair 1)
      λ r. (r.0 ≡ some 11) × (r.1.list ≡ pair) × Accurate pair_nodes r.1.index_cache
node_at-cached_example =
    node_at-cached pair_nodes three_nodes cached_pair 1 pair-Repr cached_pair-Accurate (omega arith)
