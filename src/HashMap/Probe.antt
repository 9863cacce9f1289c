-- ===== src/HashMap/Probe.antt =====
-- What the two probe loops of PooledHashMap find in a valid table.
use native.Mathlib.Nat.{pow-le-pow_right, mod-add-mod}
use native.Mathlib.Decide.{dec_lt, ℕ_discrete}
use mathlib.Core.Path.{subst}
use bhcpp_hptool_kit.Base.{
  ℕ, zero, suc, ◌+◌, ◌%◌, ◌^◌, ◌≤◌, ◌<◌, ◌≡◌, ◌⊎◌, inl, inr, refl, ◌∙◌, ap, arith, List, true,
  false, length, get_elem?_of_lt, Bool-cases, ◌==◌,
}
use bhcpp_hptool_kit.Base.Run.{ok, Returns}
use bhcpp_hptool_kit.Base.Bits.{bit_and_ones, pow_pos}
use bhcpp_hptool_kit.HashMap.KeyOps.{Key}
use bhcpp_hptool_kit.HashMap.{
  Entry, empty, erased, occupied, read_entry, mask_index, next_probe, matches, find_probe,
}
use bhcpp_hptool_kit.HashMap.Table.{At, Filled, Reach, Match, Absent, Valid}

module _ {ℓ} {K V : Type ℓ} (entries : List (Entry K V)) where
  pub read_entry-At : (i : ℕ) (e : Entry K V) → At entries i e → read_entry entries i ≡ ok e
  unfolding read_entry
  read_entry-At i e at = rw (at, read_entry)

module _ {ℓ} {K V : Type ℓ} ⦃key_ops : Key K⦄ (entries : List (Entry K V))
    (valid : Valid entries) where
  pub size_pos : 0 < length entries
  size_pos = omega (arith, valid.sized, pow_pos valid.bits)

  size_lt : length entries < 2 ^ 64
  size_lt =
      omega (arith, valid.sized, pow-le-pow_right {n = 2} (omega arith) {j = 63} valid.bounded)

  pub mask_index_lem : (i : ℕ) → mask_index entries i ≡ i % length entries
  mask_index_lem i = rw valid.sized (bit_and_ones valid.bits i)

  pub next_probe_lem :
      (h e : ℕ) → next_probe entries ((h + e) % length entries) ≡ (h + (e + 1)) % length entries
  next_probe_lem h e =
      let lt : (h + e) % length entries < length entries = omega (arith, size_pos) in
      let wrap : ((h + e) % length entries + 1) % 2 ^ 64 ≡ (h + e) % length entries + 1 =
        omega (arith, size_lt) in
      mask_index_lem (((h + e) % length entries + 1) % 2 ^ 64)
      ∙ rw (wrap, mod-add-mod) (ap (λ t. t % length entries) (omega arith))

  module _ (k : K) where
    hash_of : ℕ
    hash_of = key_ops.hasher k

    -- The first `e` entries of the probe sequence are not empty and do not match.
    abbrev pub Clear : ℕ → Type ℓ
    Clear e =
        (d : ℕ)
        → d < e
        → Filled entries ((key_ops.hasher k + d) % length entries)
          × ¬ Match entries k ((key_ops.hasher k + d) % length entries)

    -- At the end of the sequence, no entry matches.
    pub Clear-Absent :
        (e : ℕ)
        → Clear e
        → (At entries ((key_ops.hasher k + e) % length entries) empty) ⊎ (length entries ≤ e)
        → Absent entries k
    Clear-Absent e clear ends i (g, a, v, at, same) =
        let h = key_ops.hasher k in
        let hashes : g ≡ h = valid.sound.hashed i g a v at ∙ key_ops.hasher_respects a k same in
        let (d, below, here, filled) =
          subst (λ t. Reach entries t i) hashes (valid.reached i g a v at) in
        elim (dec_lt d e) [
          | yes before ↦ (clear d before).1 (g, a, v, (rw (← here) at), same)
          | no after ↦ elim ends [
            | inr over ↦ omega arith
            | inl hole ↦ elim (ℕ_discrete d e) [
              | yes now ↦ cc (hole, here, now, at)
              | no later ↦ filled e (omega arith) hole
            ]
          ]
        ]

    pub Clear-next :
        (e : ℕ)
        → Clear e
        → Filled entries ((key_ops.hasher k + e) % length entries)
        → ¬ Match entries k ((key_ops.hasher k + e) % length entries)
        → Clear (e + 1)
    Clear-next e clear filled unlike d below = elim (ℕ_discrete d e) [
      | yes now ↦ rw now (filled, unlike)
      | no before ↦ clear d (omega arith)
    ]

    -- The test of the loops on an occupied entry.
    pub matches-Match :
        (i h : ℕ) (a : K) (v : V)
        → At entries i (occupied h a v)
        → ((matches h a (key_ops.hasher k) k ≡ true) × Match entries k i)
          ⊎ ((matches h a (key_ops.hasher k) k ≡ false) × ¬ Match entries k i)
    unfolding matches
    matches-Match i h a v at = elim (Bool-cases (key_ops.equal a k)) [
      | inl same ↦
          let e : h ≡ key_ops.hasher k =
            valid.sound.hashed i h a v at ∙ key_ops.hasher_respects a k same in
          let test : (h == key_ops.hasher k) ≡ true = ground arith in
          inl (rw (test, same), (h, a, v, at, same))
      | inr other ↦ inr (
        elim (Bool-cases (h == key_ops.hasher k)) [ inl t ↦ rw (t, other) | inr t ↦ rw t ],
        λ (g, b, w, at', same). cc (at, at', same, other),
      )
    ]

    -- A probe that ends gives a matching index, or the bucket count when nothing matches.
    abbrev pub Found : ℕ → Type ℓ
    Found i = ((i ≡ length entries) × Absent entries k) ⊎ Match entries k i

    -- One round of the loop, by the entry it meets.
    find_probe-entry :
        (count e : ℕ) (entry : Entry K V)
        → Clear e
        → (Clear (e + 1)
            → Returns
                (find_probe count
                  ((key_ops.hasher k + (e + 1)) % length entries)
                  entries
                  k
                  (key_ops.hasher k))
                Found)
        → At entries ((key_ops.hasher k + e) % length entries) entry
        → Returns
            (find_probe
              (suc count)
              ((key_ops.hasher k + e) % length entries)
              entries
              k
              (key_ops.hasher k))
            Found
    unfolding find_probe
    find_probe-entry count e empty clear rest at = (
      length entries,
      rw (read_entry-At entries _ empty at),
      inl (refl, Clear-Absent e clear (inl at)),
    )
    find_probe-entry count e erased clear rest at =
        rw (read_entry-At entries _ erased at, next_probe_lem (key_ops.hasher k) e)
          (rest (Clear-next e clear (λ hole. cc (at, hole)) (λ (g, b, w, at', same). cc (at, at'))))
    find_probe-entry count e (occupied h a v) clear rest at =
        let i = (key_ops.hasher k + e) % length entries in
        elim (matches-Match i h a v at) [
          | inl (test, match) ↦
              (i, rw (read_entry-At entries _ (occupied h a v) at, test), inr match)
          | inr (test, unlike) ↦
              rw
                (
                  read_entry-At entries _ (occupied h a v) at,
                  test,
                  next_probe_lem (key_ops.hasher k) e,
                )
                (rest (Clear-next e clear (λ hole. cc (at, hole)) unlike))
        ]

    pub find_probe_lem :
        (count e : ℕ)
        → count + e ≡ length entries
        → Clear e
        → Returns
            (find_probe count
              ((key_ops.hasher k + e) % length entries)
              entries
              k
              (key_ops.hasher k))
            Found
    unfolding find_probe
    find_probe_lem zero e total clear =
        (length entries, refl, inl (refl, Clear-Absent e clear (inr (omega arith))))
    find_probe_lem (suc count) e total clear =
        let i = (key_ops.hasher k + e) % length entries in
        let (entry, at) = get_elem?_of_lt entries i (omega (arith, size_pos)) in
        find_probe-entry count e entry clear (find_probe_lem count (e + 1) (omega arith)) at
