-- ===== src/HashMap/Configured.antt =====
-- PooledHashMap.hpp: what the copies and moves of a map do to `_hasher`, `_equal` and `_maxLoadFactor`.
use bhcpp_hptool_kit.Base.{ℕ, Bool}
use bhcpp_hptool_kit.Base.Run.{Run, ok, ◌>>=◌}
use bhcpp_hptool_kit.HashMap.KeyOps.{Key}
use bhcpp_hptool_kit.HashMap.{HashMap, copy, assign, move}

-- A map with all its fields: `key_ops` is `_hasher` and `_equal`, `overloaded` the test of
-- `_maxLoadFactor`.
pub record ConfiguredMap {ℓ} (K V : Type ℓ) : Type ℓ where
  pub table : HashMap K V
  pub key_ops : Key K
  pub overloaded : ℕ → ℕ → Bool

module _ {ℓ} (entry_size : ℕ) {K V : Type ℓ} where
  -- the copy constructor: the loop inserts with the functions of `other`
  unfoldable pub copy_map : ConfiguredMap K V → Run (ConfiguredMap K V)
  copy_map other = do
    table ← copy entry_size other.overloaded ⦃key_ops = other.key_ops⦄ other.table
    ok (record other { table = table })

  -- `operator=` from another map: the functions are replaced before the loop inserts.
  unfoldable pub assign_map : ConfiguredMap K V → ConfiguredMap K V → Run (ConfiguredMap K V)
  assign_map m other = do
    table ← assign entry_size other.overloaded ⦃key_ops = other.key_ops⦄ m.table other.table
    ok (record other { table = table })

module _ {ℓ} {K V : Type ℓ} where
  -- the move constructor, and what is left of `other`
  unfoldable pub move_map : ConfiguredMap K V → ConfiguredMap K V × ConfiguredMap K V
  move_map other =
      let (taken, left) = move other.table in
      (record other { table = taken }, record other { table = left })

  -- move assignment from another map: the entries of `m` are destroyed first.
  unfoldable pub move_assign_map :
      ConfiguredMap K V → ConfiguredMap K V → ConfiguredMap K V × ConfiguredMap K V
  move_assign_map m other = move_map other
