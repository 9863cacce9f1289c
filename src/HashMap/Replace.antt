-- ===== src/HashMap/Replace.antt =====
-- A write through what `operator[]` of PooledHashMap refers to changes the value of one key.
use mathlib.Core.Path.{subst}
use bhcpp_hptool_kit.Base.{
  ℕ, ◌≡◌, ◌≢◌, inl, inr, ◌∙◌, arith, List, Option, some, true, set, get_elem?-set_self,
  get_elem?-set_ne, if◌then◌else◌, Bool-cases,
}
use bhcpp_hptool_kit.HashMap.KeyOps.{Key}
use bhcpp_hptool_kit.HashMap.{Entry, occupied, HashMap}
use bhcpp_hptool_kit.HashMap.Table.{At, At-lt, At-set, Reach, Sound, Valid-set}
use bhcpp_hptool_kit.HashMap.Count.{live, gone, weigh-set}
use bhcpp_hptool_kit.HashMap.Refine.{Repr}

-- The map `f` with the value `v` at the key `k`.
unfoldable pub put {ℓ} : {K V : Type ℓ} ⦃key_ops : Key K⦄ → (K → Option V) → K → V → K → Option V
put ⦃key_ops⦄ f k v q = if key_ops.equal k q then some v else f q

module _ {ℓ} {K V : Type ℓ} ⦃key_ops : Key K⦄ where
  -- Every entry had its hash and key before.
  At-before :
      (entries : List (Entry K V)) (j h : ℕ) (a : K) (v w : V)
      → At entries j (occupied h a w)
      → (i g : ℕ) (b : K) (u : V) → At (set entries j (occupied h a v)) i (occupied g b u)
      → (u' : V) × At entries i (occupied g b u')
  At-before entries j h a v w at i g b u at' =
      elim (At-set entries j i (occupied h a v) (occupied g b u) (At-lt entries j at) at') [
        | inl (same, e) ↦ (w, cc (at, same, e))
        | inr (_, old) ↦ (u, old)
      ]

  Sound-replace :
      (entries : List (Entry K V)) (j h : ℕ) (a : K) (v w : V)
      → At entries j (occupied h a w)
      → Sound entries
      → Sound (set entries j (occupied h a v))
  Sound-replace entries j h a v w at sound = record {
    hashed = λ i g b u at'.
        let (u', old) = At-before entries j h a v w at i g b u at' in sound.hashed i g b u' old;
    unique = λ i i' g g' b b' u u' at1 at2 same.
        let (x, old) = At-before entries j h a v w at i g b u at1 in
        let (x', old') = At-before entries j h a v w at i' g' b' u' at2 in
        sound.unique i i' g g' b b' x x' old old' same;
  }

  -- Writing the value of an entry is a change of the finite map at its key.
  pub replace_value_lem :
      (m : HashMap K V) (f : K → Option V) (k : K) (j h : ℕ) (a : K) (v w : V)
      → Repr m f
      → At m.entries j (occupied h a w)
      → key_ops.equal a k ≡ true
      → Repr (record m { entries = set m.entries j (occupied h a v) }) (put f k v)
  unfolding put
  replace_value_lem m f k j h a v w repr at same =
      let entries = m.entries in
      let lt = At-lt entries j at in
      let new = occupied h a v in
      let valid = repr.counted.valid in
      let sound = valid.sound in
      let turned = key_ops.equal_turn a k same in
      record {
        counted = record {
          valid =
              Valid-set entries j new lt (λ e. grind arith) valid
                (Sound-replace entries j h a v w at sound)
                (λ g b u e.
                  let eq : h ≡ g = cc e in
                  subst (λ t. Reach entries t j) eq (valid.reached j h a w at));
          sized =
              omega (arith, repr.counted.sized, weigh-set live entries j (occupied h a w) new at);
          erasures =
              omega
                (arith, repr.counted.erasures, weigh-set gone entries j (occupied h a w) new at);
        };
        agrees = λ q u. elim (Bool-cases (key_ops.equal k q)) [
          | inl e ↦ rw e (
            λ known.
                let eq : v ≡ u = cc known in
                (
                  j,
                  h,
                  a,
                  rw (← eq) (get_elem?-set_self entries j new lt),
                  key_ops.equal_join a k q same e,
                ),
            λ (i, g, b, at', same'). elim (At-set entries j i new (occupied g b u) lt at') [
              | inl (_, eq) ↦ cc eq
              | inr (other, old) ↦ absurd (
                  other (
                    sound.unique j i h g a b w u at old (
                      key_ops.equal_join a q b (key_ops.equal_join a k q same e)
                        (key_ops.equal_turn b q same'))))
            ],
          )
          | inr e ↦ rw e (
            λ known.
                let (i, g, b, at', same') = (repr.agrees q u).0 known in
                let other : j ≢ i = λ eq.
                  let both : b ≡ a = cc (at, at', eq) in
                  let yes : key_ops.equal k q ≡ true =
                    key_ops.equal_join k a q turned (cc (both, same')) in
                  cc (yes, e) in
                (i, g, b, get_elem?-set_ne entries new other ∙ at', same'),
            λ (i, g, b, at', same'). elim (At-set entries j i new (occupied g b u) lt at') [
              | inl (_, eq) ↦
                  let both : b ≡ a = cc eq in
                  let yes : key_ops.equal k q ≡ true =
                    key_ops.equal_join k a q turned (cc (both, same')) in
                  absurd (cc (yes, e))
              | inr (_, old) ↦ (repr.agrees q u).1 (i, g, b, old, same')
            ],
          )
        ];
      }
