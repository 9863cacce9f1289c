-- ===== src/HashMap/Update.antt =====
-- The updates of PooledHashMap change its finite map at one key.
use bhcpp_hptool_kit.Base.{
  ℕ, ◌≡◌, ◌≢◌, ◌↔◌, inl, inr, refl, ◌∙◌, arith, List, Option, none, true, false, set,
  get_elem?-set_ne, if◌then◌else◌, ◌==◌, Bool-cases,
}
use bhcpp_hptool_kit.Base.Run.{Returns}
use bhcpp_hptool_kit.HashMap.KeyOps.{Key}
use bhcpp_hptool_kit.HashMap.{Entry, erased, occupied, HashMap, bucket_count, erase, erase_at}
use bhcpp_hptool_kit.HashMap.Table.{At, At-lt, At-set, Absent, Sound, Valid-erase}
use bhcpp_hptool_kit.HashMap.Count.{live, gone, weigh-set}
use bhcpp_hptool_kit.HashMap.Insert.{Holds}
use bhcpp_hptool_kit.HashMap.Refine.{Repr, find_existing_index_lem, is_some}

-- The map `f` without the key `k`.
unfoldable pub without {ℓ} : {K V : Type ℓ} ⦃key_ops : Key K⦄ → (K → Option V) → K → K → Option V
without ⦃key_ops⦄ f k q = if key_ops.equal k q then none else f q

module _ {ℓ} {K V : Type ℓ} ⦃key_ops : Key K⦄ where
  -- Erasing the entry of a key takes away the pairs with equal keys.
  Holds-erase :
      (entries : List (Entry K V)) (j h : ℕ) (a : K) (v : V) (k : K)
      → Sound entries
      → At entries j (occupied h a v)
      → key_ops.equal a k ≡ true
      → (q : K) (w : V)
      → Holds (set entries j erased) q w ↔ (Holds entries q w × (key_ops.equal k q ≡ false))
  Holds-erase entries j h a v k sound at same q w = (
    λ (i, g, b, at', same').
        elim (At-set entries j i erased (occupied g b w) (At-lt entries j at) at') [
          | inl (_, e) ↦ cc e
          | inr (other, old) ↦ (
            (i, g, b, old, same'),
            elim (Bool-cases (key_ops.equal k q)) [
              | inr e ↦ e
              | inl e ↦ absurd (
                  other (
                    sound.unique j i h g a b v w at old (
                      key_ops.equal_join a q b (key_ops.equal_join a k q same e)
                        (key_ops.equal_turn b q same'))))
            ],
          )
        ],
    λ ((i, g, b, at', same'), differs).
        let other : j ≢ i = λ e.
          let both : b ≡ a = cc (at, at', e) in
          let eq : key_ops.equal k q ≡ true =
            key_ops.equal_join k a q (key_ops.equal_turn a k same) (cc (both, same')) in
          cc (eq, differs) in
        (i, g, b, get_elem?-set_ne entries erased other ∙ at', same'),
  )

  erase_at-Repr :
      (m : HashMap K V) (f : K → Option V) (k : K) (j h : ℕ) (a : K) (v : V)
      → Repr m f
      → At m.entries j (occupied h a v)
      → key_ops.equal a k ≡ true
      → Repr (erase_at m j) (without f k)
  unfolding erase_at without
  erase_at-Repr m f k j h a v repr at same =
      let old = occupied h a v in
      record {
        counted = record {
          valid = Valid-erase m.entries j (At-lt m.entries j at) repr.counted.valid;
          sized = omega (arith, repr.counted.sized, weigh-set live m.entries j old erased at);
          erasures = omega (arith, repr.counted.erasures, weigh-set gone m.entries j old erased at);
        };
        agrees = λ q w.
            let held = Holds-erase m.entries j h a v k repr.counted.valid.sound at same q w in
            elim (Bool-cases (key_ops.equal k q)) [
              | inl e ↦ rw e (λ impossible. cc impossible, λ kept. cc (e, (held.0 kept).1))
              | inr e ↦ rw e (
                λ known. held.1 ((repr.agrees q w).0 known, e),
                λ kept. (repr.agrees q w).1 (held.0 kept).0,
              )
            ];
      }

  without-Repr :
      (m : HashMap K V) (f : K → Option V) (k : K)
      → Repr m f
      → Absent m.entries k
      → Repr m (without f k)
  unfolding without
  without-Repr m f k repr absent = record {
    counted = repr.counted;
    agrees = λ q w. elim (Bool-cases (key_ops.equal k q)) [
      | inr e ↦ rw e (repr.agrees q w)
      | inl e ↦ rw e (
        λ impossible. cc impossible,
        λ (i, g, b, at, same).
            absurd
              (absent i (g, b, w, at, key_ops.equal_join b q k same (key_ops.equal_turn k q e))),
      )
    ];
  }

  -- `erase` takes the key away and tells whether it was there.
  pub erase_lem :
      (m : HashMap K V) (f : K → Option V) (k : K)
      → Repr m f
      → Returns (erase m k) λ r. (r.0 ≡ (if is_some (f k) then 1 else 0)) × Repr r.1 (without f k)
  unfolding erase
  erase_lem m f k repr =
      let (i, run, found) = find_existing_index_lem m f k repr in
      elim found [
        | inl (past, absent, missing) ↦
            let test : (i == bucket_count m) ≡ true = ground arith in
            ((0, m), rw (run, test), (rw missing refl, without-Repr m f k repr absent))
        | inr (below, (h, a, v, at, same, value)) ↦
            let test : (i == bucket_count m) ≡ false = ground arith in
            (
              (1, erase_at m i),
              rw (run, test),
              (rw value refl, erase_at-Repr m f k i h a v repr at same),
            )
      ]
