-- ===== src/HashMap/Insert.antt =====
-- A pair put into a free slot of PooledHashMap, for a key that the table does not hold.
use native.Mathlib.Decide.{ℕ_discrete}
use bhcpp_hptool_kit.Base.{
  ℕ, ◌+◌, ◌<◌, ◌≡◌, ◌⊎◌, inl, inr, refl, ◌∙◌, arith, List, Option, some, none, true, set, length,
  get_elem?-set_self, get_elem?-set_ne, ◌↔◌,
}
use bhcpp_hptool_kit.HashMap.KeyOps.{Key}
use bhcpp_hptool_kit.HashMap.{Entry, occupied, HashMap, bucket_count}
use bhcpp_hptool_kit.HashMap.Table.{At, At-lt, At-set, Match, Absent, Valid-insert, Reach}
use bhcpp_hptool_kit.HashMap.Slot.{Vacant, SlotFound}
use bhcpp_hptool_kit.HashMap.Count.{Counted, live, gone, weigh-set, empty_entry, offset_onto}

module _ {ℓ} {K V : Type ℓ} ⦃key_ops : Key K⦄ where
  -- Some entry holds the pair of a key equal to `k` and `v`.
  abbrev pub Holds : List (Entry K V) → K → V → Type ℓ
  Holds entries k v =
      (i : ℕ) × (h : ℕ) × (a : K) × At entries i (occupied h a v) × (key_ops.equal a k ≡ true)

  -- After an insertion of `k` and `v` the table `new` holds the pairs of `old` and this one.
  abbrev pub Extends : List (Entry K V) → List (Entry K V) → K → V → Type ℓ
  Extends new old k v =
      (q : K) (w : V) → Holds new q w ↔ (Holds old q w ⊎ ((v ≡ w) × (key_ops.equal k q ≡ true)))

  pub Holds-set :
      (entries : List (Entry K V)) (j h : ℕ) (k : K) (v : V)
      → j < length entries
      → Vacant entries k j
      → Extends (set entries j (occupied h k v)) entries k v
  Holds-set entries j h k v lt vacant q w = (
    λ (i, g, a, at, same). elim (At-set entries j i (occupied h k v) (occupied g a w) lt at) [
      | inl (_, e) ↦ inr (cc e, cc (e, same))
      | inr (_, old) ↦ inl (i, g, a, old, same)
    ],
    λ known. elim known [
      | inr (e, same) ↦ (j, h, k, rw (← e) (get_elem?-set_self entries j (occupied h k v) lt), same)
      | inl (i, g, a, at, same) ↦ elim (ℕ_discrete j i) [
        | no other ↦ (i, g, a, get_elem?-set_ne entries (occupied h k v) other ∙ at, same)
        | yes here ↦ elim vacant [ inl free ↦ cc (free, here, at) | inr free ↦ cc (free, here, at) ]
      ]
    ],
  )

  -- Enough entries are unused, so the probe does not return null.
  pub room-slot :
      (m : HashMap K V) (k : K) (slot : Option ℕ)
      → Counted m
      → m.size + m.erased_count < bucket_count m
      → SlotFound m.entries k slot
      → (j : ℕ) × (slot ≡ some j)
        × (Match m.entries k j
            ⊎ (Vacant m.entries k j × Reach m.entries (key_ops.hasher k) j × Absent m.entries k))
  room-slot m k none counted room found =
      let (i, hole) = empty_entry m.entries (omega (arith, counted.sized, counted.erasures)) in
      let (d, lt, here) =
        offset_onto (key_ops.hasher k) (bucket_count m) i (At-lt m.entries i hole) in
      absurd (found d lt (rw (← here) hole))
  room-slot m k (some j) counted room found = (j, refl, found)

  -- The map after a pair is put at a vacant index.
  abbrev pub filled : HashMap K V → ℕ → K → V → ℕ → HashMap K V
  filled m j k v erased_count = record m {
    entries = set m.entries j (occupied (key_ops.hasher k) k v);
    size = m.size + 1;
    erased_count = erased_count;
  }

  pub filled-Counted :
      (m : HashMap K V) (j : ℕ) (k : K) (v : V) (x : Entry K V) (count : ℕ)
      → Counted m
      → At m.entries j x
      → live x ≡ 0
      → count + gone x ≡ m.erased_count
      → Reach m.entries (key_ops.hasher k) j
      → Absent m.entries k
      → Counted (filled m j k v count)
  filled-Counted m j k v x count counted at dead less reach absent =
      let new = occupied (key_ops.hasher k) k v in
      record {
        valid = Valid-insert m.entries j k v (At-lt m.entries j at) counted.valid absent reach;
        sized = omega (arith, weigh-set live m.entries j x new at, dead, counted.sized);
        erasures = omega (arith, weigh-set gone m.entries j x new at, less, counted.erasures);
      }
