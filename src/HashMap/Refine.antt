-- ===== src/HashMap/Refine.antt =====
-- PooledHashMap as a finite map: a function from keys to optional values.
use native.Mathlib.Nat.{add-zero}
use bhcpp_hptool_kit.Base.{
  ℕ, ◌+◌, ◌%◌, ◌<◌, ◌≡◌, ◌⊎◌, ◌↔◌, inl, inr, sym, ◌∙◌, ap, arith, Option, some, none, Bool, true,
  false, length, ◌==◌, Option-cases,
}
use bhcpp_hptool_kit.Base.Run.{Run, ok, fault, out_of_range, Returns, Returns_mono}
use bhcpp_hptool_kit.HashMap.KeyOps.{Key}
use bhcpp_hptool_kit.HashMap.{
  occupied, HashMap, bucket_count, find_existing_index, find, contains, at, mapped_at, mask_index,
}
use bhcpp_hptool_kit.HashMap.Table.{At, At-lt, Absent}
use bhcpp_hptool_kit.HashMap.Probe.{read_entry-At, size_pos, mask_index_lem, find_probe_lem}
use bhcpp_hptool_kit.HashMap.Count.{Counted}
use bhcpp_hptool_kit.HashMap.Insert.{Holds}

abbrev pub is_some {ℓ} : {V : Type ℓ} → Option V → Bool
is_some none = false
is_some (some v) = true

-- The value of a key, or the exception.
abbrev pub value_or_throw {ℓ} : {V : Type ℓ} → Option V → Run V
value_or_throw none = fault out_of_range
value_or_throw (some v) = ok v

-- The map holds the pairs of `f`.
pub record Repr {ℓ} {K V : Type ℓ} ⦃key_ops : Key K⦄ (m : HashMap K V) (f : K → Option V)
    : Type ℓ where
  pub counted : Counted m
  pub agrees : (q : K) (w : V) → (f q ≡ some w) ↔ Holds m.entries q w

module _ {ℓ} {K V : Type ℓ} ⦃key_ops : Key K⦄ where
  pub Absent-none :
      (m : HashMap K V) (f : K → Option V) (k : K) → Repr m f → Absent m.entries k → f k ≡ none
  Absent-none m f k repr absent = elim (Option-cases (f k)) [
    | inl e ↦ e
    | inr (w, e) ↦
        let (i, h, a, at_i, same) = (repr.agrees k w).0 e in absurd (absent i (h, a, w, at_i, same))
  ]

  -- The entry that `find_existing_index` reports holds the value of the key.
  abbrev pub Lookup : HashMap K V → (K → Option V) → K → ℕ → Type ℓ
  Lookup m f k i =
      ((i ≡ bucket_count m) × Absent m.entries k × (f k ≡ none))
      ⊎ ((i < bucket_count m)
          × ((h : ℕ) × (a : K) × (v : V) × At m.entries i (occupied h a v)
              × (key_ops.equal a k ≡ true)
              × (f k ≡ some v)))

  pub find_existing_index_lem :
      (m : HashMap K V) (f : K → Option V) (k : K)
      → Repr m f
      → Returns (find_existing_index m k) (Lookup m f k)
  unfolding find_existing_index
  find_existing_index_lem m f k repr =
      let valid = repr.counted.valid in
      let pos = size_pos m.entries valid in
      let some_buckets : (bucket_count m == 0) ≡ false = ground arith in
      let start : mask_index m.entries (key_ops.hasher k)
          ≡ (key_ops.hasher k + 0) % length m.entries =
        mask_index_lem m.entries valid (key_ops.hasher k)
        ∙ ap (λ t. t % length m.entries) (sym (add-zero (key_ops.hasher k))) in
      rw (some_buckets, start)
        (Returns_mono
          (find_probe_lem m.entries valid k (bucket_count m) 0 (omega arith)
            (λ d p. absurd (omega arith)))
          λ i found. elim found [
            | inl (past, absent) ↦ inl (past, absent, Absent-none m f k repr absent)
            | inr (h, a, v, at_i, same) ↦ inr (
              At-lt m.entries i at_i,
              (h, a, v, at_i, same, (repr.agrees k v).1 (i, h, a, at_i, same)),
            )
          ])

  -- `contains` tells whether the map has a value for the key.
  pub contains_lem :
      (m : HashMap K V) (f : K → Option V) (k : K) → Repr m f → contains m k ≡ ok (is_some (f k))
  unfolding contains
  contains_lem m f k repr =
      let (i, run, found) = find_existing_index_lem m f k repr in
      elim found [
        | inl (past, _, missing) ↦
            let test : (i == bucket_count m) ≡ true = ground arith in rw (run, test, missing)
        | inr (below, (h, a, v, at_i, same, value)) ↦
            let test : (i == bucket_count m) ≡ false = ground arith in rw (run, test, value)
      ]

  pub mapped_at-At :
      (m : HashMap K V) (i h : ℕ) (a : K) (v : V)
      → At m.entries i (occupied h a v)
      → mapped_at m i ≡ ok v
  unfolding mapped_at
  mapped_at-At m i h a v at_i = rw (read_entry-At m.entries i (occupied h a v) at_i)

  -- `at` gives the value of the key, and throws when there is none.
  pub at_lem :
      (m : HashMap K V) (f : K → Option V) (k : K) → Repr m f → at m k ≡ value_or_throw (f k)
  unfolding at find
  at_lem m f k repr =
      let (i, run, found) = find_existing_index_lem m f k repr in
      let pos = size_pos m.entries repr.counted.valid in
      let some_buckets : (bucket_count m == 0) ≡ false = ground arith in
      elim found [
        | inl (past, _, missing) ↦
            let test : (i == bucket_count m) ≡ true = ground arith in
            rw (some_buckets, run, test, missing)
        | inr (below, (h, a, v, at_i, same, value)) ↦
            let test : (i == bucket_count m) ≡ false = ground arith in
            rw (some_buckets, run, test, value, mapped_at-At m i h a v at_i)
      ]
