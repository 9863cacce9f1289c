-- ===== src/HashMap/Put.antt =====
-- Insertion into PooledHashMap keeps the value of a key that is there, and adds one that is not.
use native.Mathlib.Nat.{pow-suc}
use mathlib.Core.Path.{subst}
use bhcpp_hptool_kit.Base.{
  ℕ, suc, ◌+◌, ◌*◌, ◌%◌, ◌^◌, ◌≤◌, ◌<◌, ◌≡◌, inl, inr, sym, arith, Option, some, none, Bool, false,
  not, max, leb, if◌then◌else◌, ◌==◌, Bool-cases,
}
use bhcpp_hptool_kit.Base.Run.{ok, Returns, Returns-bind, Returns_mono}
use bhcpp_hptool_kit.MathBits.{round_up_power_of_two}
use bhcpp_hptool_kit.MathBits.Powers.{round_up_power_of_two_lem}
use bhcpp_hptool_kit.HashMap.KeyOps.{Key}
use bhcpp_hptool_kit.HashMap.{
  HashMap, bucket_count, insert_value, ensure_capacity_for_insert, mapped_at, index_or_insert,
  try_emplace,
}
use bhcpp_hptool_kit.HashMap.Probe.{size_pos}
use bhcpp_hptool_kit.HashMap.Count.{weigh-live_le}
use bhcpp_hptool_kit.HashMap.Place.{Inserted, insert_in_place_lem}
use bhcpp_hptool_kit.HashMap.Rehash.{rehash_lem}
use bhcpp_hptool_kit.HashMap.Refine.{Repr, Absent-none, is_some, mapped_at-At}

-- The map `f` with the value `v` at the key `k`, if `f` has none there.
unfoldable pub try_put {ℓ} :
    {K V : Type ℓ} ⦃key_ops : Key K⦄ → (K → Option V) → K → V → K → Option V
try_put ⦃key_ops⦄ f k v q = if is_some (f k) then f q else if key_ops.equal k q then some v else f q

-- A power of two from 8 on is a bucket count as it is.
round_up_exact :
    (bits n : ℕ)
    → n ≡ 2 ^ bits
    → 2 * n ≤ 2 ^ 63
    → round_up_power_of_two (max (2 * n) 8) ≡ max (2 * n) 8
round_up_exact bits n e small =
    let (k, power, above, least) = round_up_power_of_two_lem (max (2 * n) 8) (omega arith) in
    let double = pow-suc 2 bits in
    elim (Bool-cases (leb 8 (2 * n))) [
      | inl large ↦ let bound = least (suc bits) (ground arith) in ground arith
      | inr tiny ↦ let bound = least 3 (ground arith) in ground arith
    ]

module _ {ℓ} {K V : Type ℓ} ⦃key_ops : Key K⦄ where
  Inserted-Repr :
      (m r : HashMap K V) (f : K → Option V) (k : K) (v : V)
      → Repr m f
      → f k ≡ none
      → Inserted m r k v
      → Repr r (try_put f k v)
  unfolding try_put
  Inserted-Repr m r f k v repr missing step = record {
    counted = step.counted;
    agrees = λ q w. elim (Bool-cases (key_ops.equal k q)) [
      | inl e ↦
          rw (missing, e)
            (
              λ known. (step.extends q w).1 (inr (cc known, e)),
              λ held. elim ((step.extends q w).0 held) [
                | inr (same, _) ↦ cc same
                | inl (i, h, a, at, same) ↦
                    let other =
                      (repr.agrees k w).1
                        (i, h, a, at, key_ops.equal_join a q k same (key_ops.equal_turn k q e)) in
                    cc (other, missing)
              ],
            )
      | inr e ↦
          rw (missing, e)
            (
              λ known. (step.extends q w).1 (inl ((repr.agrees q w).0 known)),
              λ held. elim ((step.extends q w).0 held) [
                | inl old ↦ (repr.agrees q w).1 old
                | inr (_, same) ↦ cc (same, e)
              ],
            )
    ];
  }

  present-Repr :
      (m : HashMap K V) (f : K → Option V) (k : K) (v w : V)
      → Repr m f
      → f k ≡ some w
      → Repr m (try_put f k v)
  unfolding try_put
  present-Repr m f k v w repr value = record {
    counted = repr.counted;
    agrees = λ q u. rw value (repr.agrees q u);
  }

  try_put_present : (f : K → Option V) (k : K) (v w : V) → f k ≡ some w → try_put f k v k ≡ some w
  unfolding try_put
  try_put_present f k v w value = rw value

  try_put_absent : (f : K → Option V) (k : K) (v : V) → f k ≡ none → try_put f k v k ≡ some v
  unfolding try_put
  try_put_absent f k v missing = rw (missing, key_ops.equal_self k)

module _ {ℓ} (entry_size : ℕ) (overloaded : ℕ → ℕ → Bool) {K V : Type ℓ} ⦃key_ops : Key K⦄ where
  ensure_capacity_for_insert_lem :
      (m : HashMap K V) (f : K → Option V)
      → ((used buckets : ℕ) → overloaded used buckets ≡ false → used ≤ buckets)
      → 2 * bucket_count m ≤ 2 ^ 63
      → entry_size * max (2 * bucket_count m) 8 ≤ 2 ^ 63
      → Repr m f
      → Returns
          (ensure_capacity_for_insert entry_size overloaded m)
          λ g. Repr g f × (g.size + g.erased_count < bucket_count g)
  unfolding ensure_capacity_for_insert
  ensure_capacity_for_insert_lem m f moderate small bytes repr =
      let valid = repr.counted.valid in
      let pos = size_pos m.entries valid in
      let some_buckets : (bucket_count m == 0) ≡ false = ground arith in
      let used = m.size + m.erased_count + 1 in
      elim (Bool-cases (overloaded used (bucket_count m))) [
        | inr fine ↦
            (m, rw (some_buckets, fine), (repr, omega (arith, moderate used (bucket_count m) fine)))
        | inl over ↦
            let n = bucket_count m in
            let double : (n * 2) % 2 ^ 64 ≡ 2 * n = omega arith in
            let exact = round_up_exact valid.bits n valid.sized small in
            let few = weigh-live_le m.entries in
            rw (some_buckets, over, double)
              (Returns_mono
                (rehash_lem entry_size overloaded m (2 * n) valid.sound (omega arith) (omega arith)
                  (rw exact bytes))
                λ g done. (
                  record {
                    counted = done.counted;
                    agrees = λ q w. (
                      λ known. (done.pairs q w).1 ((repr.agrees q w).0 known),
                      λ held. (repr.agrees q w).1 ((done.pairs q w).0 held),
                    );
                  },
                  omega (arith, done.same_size, done.clean, done.buckets, exact),
                ))
      ]

  -- When the test of the load factor lets in no more entries than there are buckets, as the exact one
  -- of at most 1 does, and the doubled table stays within `2 ^ 63` bytes, inserting
  -- a pair terminates, adds it exactly when the key had no value, tells so, and gives the index of
  -- the key's value.
  pub insert_value_lem :
      (m : HashMap K V) (f : K → Option V) (k : K) (v : V)
      → ((used buckets : ℕ) → overloaded used buckets ≡ false → used ≤ buckets)
      → 2 * bucket_count m ≤ 2 ^ 63
      → entry_size * max (2 * bucket_count m) 8 ≤ 2 ^ 63
      → Repr m f
      → Returns (insert_value entry_size overloaded m k v) λ r.
        Repr r.1 (try_put f k v)
        × (r.0.1 ≡ not (is_some (f k)))
        × ((w : V) × (try_put f k v k ≡ some w) × (mapped_at r.1 r.0.0 ≡ ok w))
  unfolding insert_value
  insert_value_lem m f k v moderate small bytes repr =
      Returns-bind (ensure_capacity_for_insert_lem m f moderate small bytes repr)
        λ g (repr_g, room).
          Returns_mono (insert_in_place_lem g k v repr_g.counted room) λ r outcome. elim outcome [
            | inl (flag, same, (h, a, w, at, eq)) ↦
                let value = (repr_g.agrees k w).1 (r.0.0, h, a, at, eq) in
                (
                  subst (λ t. Repr t (try_put f k v)) (sym same)
                      (present-Repr g f k v w repr_g value),
                  rw value flag,
                  (w, try_put_present f k v w value, rw same (mapped_at-At g r.0.0 h a w at)),
                )
            | inr (flag, absent, step, at) ↦
                let missing = Absent-none g f k repr_g absent in
                (
                  Inserted-Repr g r.1 f k v repr_g missing step,
                  rw missing flag,
                  (
                    v,
                    try_put_absent f k v missing,
                    mapped_at-At r.1 r.0.0 (key_ops.hasher k) k v at,
                  ),
                )
          ]

  -- When the test of the load factor lets in no more entries than there are buckets, as the exact one
  -- of at most 1 does, and the doubled table stays within `2 ^ 63` bytes,
  -- `operator[]` terminates and gives the value of the key, after it has added the default value if
  -- the key had none.
  pub index_or_insert_lem :
      (m : HashMap K V) (f : K → Option V) (k : K) (v : V)
      → ((used buckets : ℕ) → overloaded used buckets ≡ false → used ≤ buckets)
      → 2 * bucket_count m ≤ 2 ^ 63
      → entry_size * max (2 * bucket_count m) 8 ≤ 2 ^ 63
      → Repr m f
      → Returns
          (index_or_insert entry_size overloaded m k v)
          λ r. Repr r.1 (try_put f k v) × (try_put f k v k ≡ some r.0)
  unfolding index_or_insert try_emplace insert_value
  index_or_insert_lem m f k v moderate small bytes repr =
      Returns-bind (insert_value_lem m f k v moderate small bytes repr)
        λ r (repr_r, _, (w, value, run)). ((w, r.1), rw run, (repr_r, value))
