-- ===== src/HashMap/KeyOps.antt =====
-- The template arguments `Hash` and `KeyEqual` of PooledHashMap, with what a hashed container asks
-- of them: equality is an equivalence, and equal keys have equal hashes.
use bhcpp_hptool_kit.Base.{ℕ, Bool, true, ◌≡◌}

pub record Key {ℓ} (K : Type ℓ) : Type ℓ where
  pub hasher : K → ℕ
  pub equal : K → K → Bool
  pub equal_self : (key : K) → equal key key ≡ true
  pub equal_turn : (a b : K) → equal a b ≡ true → equal b a ≡ true
  pub equal_join : (a b c : K) → equal a b ≡ true → equal b c ≡ true → equal a c ≡ true
  pub hasher_respects : (a b : K) → equal a b ≡ true → hasher a ≡ hasher b
