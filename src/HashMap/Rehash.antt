-- ===== src/HashMap/Rehash.antt =====
-- `rehash` of PooledHashMap: the entries move to a table of another size.
use bhcpp_hptool_kit.Base.{
  ℕ, zero, suc, ◌+◌, ◌*◌, ◌%◌, ◌^◌, ◌≤◌, ◌<◌, ◌≡◌, ◌⊎◌, ◌↔◌, inl, inr, refl, sym, ◌∙◌, arith, List,
  [], ◌∷◌, Bool, true, length, replicate, length-replicate, get_elem?-replicate, leb, max,
}
use bhcpp_hptool_kit.Base.Run.{Returns, Returns-bind, Returns_mono}
use bhcpp_hptool_kit.MathBits.{round_up_power_of_two}
use bhcpp_hptool_kit.MathBits.Powers.{round_up_power_of_two_lem, lt_of_pow-lt-pow}
use bhcpp_hptool_kit.BlockPool.Sizes.{byte_capacity, byte_capacity_lem}
use bhcpp_hptool_kit.HashMap.KeyOps.{Key}
use bhcpp_hptool_kit.HashMap.{
  Entry, empty, erased, occupied, HashMap, bucket_count, reinsert, new_entries, rehash,
}
use bhcpp_hptool_kit.HashMap.Table.{At, At-lt, Absent, Sound}
use bhcpp_hptool_kit.HashMap.Count.{Counted, live, gone, weigh, weigh-replicate}
use bhcpp_hptool_kit.HashMap.Insert.{Holds}
use bhcpp_hptool_kit.HashMap.Place.{Inserted, insert_rehashed_value_lem}

module _ {ℓ} {K V : Type ℓ} ⦃key_ops : Key K⦄ where
  Sound-tail : (e : Entry K V) (old : List (Entry K V)) → Sound (e ∷ old) → Sound old
  Sound-tail e old sound = record {
    hashed = λ i. sound.hashed (suc i);
    unique = λ i j h g a b v w at at' same.
        omega (arith, sound.unique (suc i) (suc j) h g a b v w at at' same);
  }

  -- No key of `old` is in the table.
  abbrev Apart : List (Entry K V) → HashMap K V → Type ℓ
  Apart old m = (i h : ℕ) (a : K) (v : V) → At old i (occupied h a v) → Absent m.entries a

  -- The table `r` holds the pairs of `m` and of `old`, and none of it is erased.
  pub record Reinserted (old : List (Entry K V)) (m r : HashMap K V) : Type ℓ where
    pub counted : Counted r
    pub clean : r.erased_count ≡ 0
    pub same_length : bucket_count r ≡ bucket_count m
    pub more : r.size ≡ m.size + weigh live old
    pub pairs : (q : K) (w : V) → Holds r.entries q w ↔ (Holds m.entries q w ⊎ Holds old q w)

  -- An entry that holds nothing adds nothing.
  Reinserted-skip :
      (e : Entry K V) (old : List (Entry K V)) (m r : HashMap K V)
      → ((h : ℕ) (a : K) (v : V) → ¬ (e ≡ occupied h a v))
      → live e ≡ 0
      → Reinserted old m r
      → Reinserted (e ∷ old) m r
  Reinserted-skip e old m r free dead done = record {
    counted = done.counted;
    clean = done.clean;
    same_length = done.same_length;
    more = omega (arith, done.more, dead);
    pairs = λ q w. (
      λ held. elim ((done.pairs q w).0 held) [
        | inl known ↦ inl known
        | inr (i, h, a, at, same) ↦ inr (suc i, h, a, at, same)
      ],
      λ known. elim known [
        | inl before ↦ (done.pairs q w).1 (inl before)
        | inr (zero, h, a, at, same) ↦ absurd (free h a w (cc at))
        | inr (suc i, h, a, at, same) ↦ (done.pairs q w).1 (inr (i, h, a, at, same))
      ],
    );
  }

  Reinserted-step :
      (h : ℕ) (k : K) (v : V) (old : List (Entry K V)) (m m' r : HashMap K V)
      → Inserted m m' k v
      → Reinserted old m' r
      → Reinserted (occupied h k v ∷ old) m r
  Reinserted-step h k v old m m' r step done = record {
    counted = done.counted;
    clean = done.clean;
    same_length = done.same_length ∙ step.same_length;
    more = omega (arith, done.more, step.one_more);
    pairs = λ q w. (
      λ held. elim ((done.pairs q w).0 held) [
        | inr (i, g, a, at, same) ↦ inr (suc i, g, a, at, same)
        | inl known ↦ elim ((step.extends q w).0 known) [
          | inl before ↦ inl before
          | inr (e, same) ↦ inr (0, h, k, cc e, same)
        ]
      ],
      λ known. elim known [
        | inl before ↦ (done.pairs q w).1 (inl ((step.extends q w).1 (inl before)))
        | inr (zero, g, a, at, same) ↦
            (done.pairs q w).1 (inl ((step.extends q w).1 (inr (cc at, cc (at, same)))))
        | inr (suc i, g, a, at, same) ↦ (done.pairs q w).1 (inr (i, g, a, at, same))
      ],
    );
  }

  Apart-step :
      (h : ℕ) (k : K) (v : V) (old : List (Entry K V)) (m m' : HashMap K V)
      → Sound (occupied h k v ∷ old)
      → Inserted m m' k v
      → Apart (occupied h k v ∷ old) m
      → Apart old m'
  Apart-step h k v old m m' sound step apart i g a w at j (g', b, u, at', same) =
      elim ((step.extends a u).0 (j, g', b, at', same)) [
        | inl (x, y, c, at'', same') ↦ apart (suc i) g a w at x (y, c, u, at'', same')
        | inr (_, same') ↦ omega (arith, sound.unique 0 (suc i) h g k a v w refl at same')
      ]

  reinsert_lem :
      (old : List (Entry K V)) (m : HashMap K V)
      → Sound old
      → Counted m
      → m.erased_count ≡ 0
      → m.size + weigh live old < bucket_count m + 1
      → Apart old m
      → Returns (reinsert old m) (Reinserted old m)
  unfolding reinsert
  reinsert_lem [] m sound counted clean room apart = (
    m,
    refl,
    record {
      counted = counted;
      clean = clean;
      same_length = refl;
      more = omega arith;
      pairs =
          λ q w. (inl, λ known. elim known [ inl held ↦ held | inr (i, h, a, at, same) ↦ cc at ]);
    },
  )
  reinsert_lem (empty ∷ old) m sound counted clean room apart =
      Returns_mono
        (reinsert_lem old m (Sound-tail empty old sound) counted clean (omega arith)
          (λ i. apart (suc i)))
        λ r done. Reinserted-skip empty old m r (λ h a v e. cc e) refl done
  reinsert_lem (erased ∷ old) m sound counted clean room apart =
      Returns_mono
        (reinsert_lem old m (Sound-tail erased old sound) counted clean (omega arith)
          (λ i. apart (suc i)))
        λ r done. Reinserted-skip erased old m r (λ h a v e. cc e) refl done
  reinsert_lem (occupied h k v ∷ old) m sound counted clean room apart =
      Returns-bind
        (insert_rehashed_value_lem m h k v counted (sound.hashed 0 h k v refl) clean (omega arith)
          (apart 0 h k v refl))
        λ m' step.
          Returns_mono
            (reinsert_lem old m' (Sound-tail (occupied h k v) old sound) step.counted
              (omega (arith, step.no_new_erasure)) (omega (arith, step.one_more, step.same_length))
              (Apart-step h k v old m m' sound step apart))
            λ r done. Reinserted-step h k v old m m' r step done

abbrev pub no_entry {ℓ} : {K V : Type ℓ} → Entry K V
no_entry = empty

-- The table of `n` empty entries.
module _ {ℓ} {K V : Type ℓ} ⦃key_ops : Key K⦄ (n : ℕ) where
  abbrev pub blank : HashMap K V
  blank = record { entries = replicate n empty; size = 0; erased_count = 0 }

  pub blank-none :
      (i h : ℕ) (a : K) (v : V) → ¬ At (replicate n (no_entry {K = K} {V = V})) i (occupied h a v)
  blank-none i h a v at =
      let lt : i < n = omega (arith, At-lt _ i at, length-replicate n (no_entry {K = K} {V = V})) in
      cc (at, get_elem?-replicate n i (no_entry {K = K} {V = V}) lt)

  pub blank-Counted : (k : ℕ) → n ≡ 2 ^ k → k ≤ 63 → Counted blank
  blank-Counted k power bound = record {
    valid = record {
      sound = record {
        hashed = λ i h a v at. absurd (blank-none i h a v at);
        unique = λ i j h g a b v w at at' same. absurd (blank-none i h a v at);
      };
      bits = k;
      sized = length-replicate n (no_entry {K = K} {V = V}) ∙ power;
      bounded = bound;
      reached = λ i h a v at. absurd (blank-none i h a v at);
    };
    sized = sym (weigh-replicate live n refl);
    erasures = sym (weigh-replicate gone n refl);
  }

module _ {ℓ} (entry_size : ℕ) (overloaded : ℕ → ℕ → Bool) {K V : Type ℓ} ⦃key_ops : Key K⦄ where
  -- A map after `rehash`: a larger or smaller table with the same pairs.
  pub record Rehashed (m r : HashMap K V) (count : ℕ) : Type ℓ where
    pub counted : Counted r
    pub clean : r.erased_count ≡ 0
    pub buckets : bucket_count r ≡ round_up_power_of_two (max count 8)
    pub same_size : r.size ≡ weigh live m.entries
    pub pairs : (q : K) (w : V) → Holds r.entries q w ↔ Holds m.entries q w

  -- `rehash` terminates and keeps every pair, when the table asked for is not smaller than the
  -- number of pairs and its bytes do not pass `2 ^ 63`.
  pub rehash_lem :
      (m : HashMap K V) (count : ℕ)
      → Sound m.entries
      → max count 8 ≤ 2 ^ 63
      → weigh live m.entries ≤ max count 8
      → entry_size * round_up_power_of_two (max count 8) ≤ 2 ^ 63
      → Returns (rehash entry_size overloaded m count) λ r. Rehashed m r count
  unfolding rehash new_entries
  rehash_lem m count sound small room bytes =
      let n = round_up_power_of_two (max count 8) in
      let (k, power, above, least) = round_up_power_of_two_lem (max count 8) small in
      let bound : k < 64 = lt_of_pow-lt-pow k 64 (omega (arith, least 63 small)) in
      let no_wrap : (entry_size * n) % 2 ^ 64 ≡ entry_size * n = omega arith in
      let fits : leb (entry_size * n) (byte_capacity (entry_size * n)) ≡ true =
        ground (arith, (byte_capacity_lem (entry_size * n) bytes).0) in
      let len : length (replicate n (no_entry {K = K} {V = V})) ≡ n = length-replicate n empty in
      rw (no_wrap, fits)
        (Returns_mono
          (reinsert_lem m.entries (blank n) sound (blank-Counted n k power (omega arith)) refl
            (omega (arith, len)) (λ i h a v at j (g, b, w, at', same). blank-none n j g b w at'))
          λ r done. record {
            counted = done.counted;
            clean = done.clean;
            buckets = done.same_length ∙ len;
            same_size = done.more ∙ omega arith;
            pairs = λ q w. (
              λ held. elim ((done.pairs q w).0 held) [
                | inl (i, h, a, at, same) ↦ absurd (blank-none n i h a w at)
                | inr old ↦ old
              ],
              λ held. (done.pairs q w).1 (inr held),
            );
          })
