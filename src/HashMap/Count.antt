-- ===== src/HashMap/Count.antt =====
-- The counters of PooledHashMap, and the empty entry that they promise.
use native.Mathlib.Nat.{mod-eq_of_lt, mod-add-mod, add-mod_right}
use native.Mathlib.Decide.{dec_lt}
use bhcpp_hptool_kit.Base.{
  ℕ, zero, suc, ◌+◌, ◌-◌, ◌%◌, ◌<◌, ◌≤◌, ◌≡◌, refl, sym, ◌∙◌, ap, arith, List, [], ◌∷◌, set, length,
  replicate,
}
use bhcpp_hptool_kit.HashMap.KeyOps.{Key}
use bhcpp_hptool_kit.HashMap.{Entry, empty, erased, occupied, HashMap}
use bhcpp_hptool_kit.HashMap.Table.{At, Valid}

module _ {ℓ} {K V : Type ℓ} where
  abbrev pub live : Entry K V → ℕ
  live empty = 0
  live erased = 0
  live (occupied h k v) = 1

  abbrev pub gone : Entry K V → ℕ
  gone empty = 0
  gone erased = 1
  gone (occupied h k v) = 0

  abbrev pub weigh : (Entry K V → ℕ) → List (Entry K V) → ℕ
  weigh w [] = 0
  weigh w (e ∷ entries) = w e + weigh w entries

  pub weigh-set :
      (w : Entry K V → ℕ) (entries : List (Entry K V)) (j : ℕ) (x y : Entry K V)
      → At entries j x
      → weigh w (set entries j y) + w x ≡ weigh w entries + w y
  weigh-set w [] j x y at = cc at
  weigh-set w (e ∷ entries) zero x y at = let same : w e ≡ w x = ap w (cc at) in omega (arith, same)
  weigh-set w (e ∷ entries) (suc j) x y at = omega (arith, weigh-set w entries j x y at)

  pub weigh-replicate : (w : Entry K V → ℕ) (n : ℕ) → w empty ≡ 0 → weigh w (replicate n empty) ≡ 0
  weigh-replicate w zero none = refl
  weigh-replicate w (suc n) none = omega (arith, weigh-replicate w n none)

  pub weigh-live_le : (entries : List (Entry K V)) → weigh live entries ≤ length entries
  weigh-live_le [] = omega arith
  weigh-live_le (empty ∷ entries) = omega (arith, weigh-live_le entries)
  weigh-live_le (erased ∷ entries) = omega (arith, weigh-live_le entries)
  weigh-live_le (occupied h k v ∷ entries) = omega (arith, weigh-live_le entries)

  -- Fewer used entries than entries leave an empty one.
  pub empty_entry :
      (entries : List (Entry K V))
      → weigh live entries + weigh gone entries < length entries
      → (i : ℕ) × At entries i empty
  empty_entry [] h = absurd (omega arith)
  empty_entry (empty ∷ entries) h = (0, refl)
  empty_entry (erased ∷ entries) h = let (i, at) = empty_entry entries (omega arith) in (suc i, at)
  empty_entry (occupied g k v ∷ entries) h =
      let (i, at) = empty_entry entries (omega arith) in (suc i, at)

-- From any start, every index is met within one turn.
pub offset_onto : (h n i : ℕ) → i < n → (d : ℕ) × (d < n) × (i ≡ (h + d) % n)
offset_onto h n i lt = elim (dec_lt i (h % n)) [
  | no after ↦ (
    i - h % n,
    omega arith,
    sym (mod-eq_of_lt lt) ∙ (ap (λ t. t % n) (omega arith) ∙ mod-add-mod h n (i - h % n)),
  )
  | yes before ↦ (
    i + n - h % n,
    omega arith,
    sym (mod-eq_of_lt lt)
        ∙ (sym (add-mod_right i n)
            ∙ (ap (λ t. t % n) (omega arith) ∙ mod-add-mod h n (i + n - h % n))),
  )
]

-- The table is valid and both counters are right.
pub record Counted {ℓ} {K V : Type ℓ} ⦃key_ops : Key K⦄ (m : HashMap K V) : Type ℓ where
  pub valid : Valid m.entries
  pub sized : m.size ≡ weigh live m.entries
  pub erasures : m.erased_count ≡ weigh gone m.entries
