-- ===== src/HashMap/Slot.antt =====
-- The slot that `find_slot_for_insert` picks in a valid table.
use native.Mathlib.Nat.{add-zero}
use bhcpp_hptool_kit.Base.{
  ℕ, zero, suc, ◌+◌, ◌%◌, ◌≤◌, ◌<◌, ◌≡◌, ◌⊎◌, inl, inr, refl, sym, ◌∙◌, ap, arith, List, Option,
  none, some, length, get_elem?_of_lt,
}
use bhcpp_hptool_kit.Base.Run.{Run, Returns}
use bhcpp_hptool_kit.HashMap.KeyOps.{Key}
use bhcpp_hptool_kit.HashMap.{
  Entry, empty, erased, occupied, mask_index, slot_probe, find_slot_for_insert,
}
use bhcpp_hptool_kit.HashMap.Table.{At, Filled, Reach, Match, Absent, Valid}
use bhcpp_hptool_kit.HashMap.Probe.{
  read_entry-At, size_pos, mask_index_lem, next_probe_lem, Clear, Clear-Absent, Clear-next,
  matches-Match,
}

module _ {ℓ} {K V : Type ℓ} ⦃key_ops : Key K⦄ (entries : List (Entry K V)) (k : K) where
  abbrev pub Vacant : ℕ → Type ℓ
  Vacant i = At entries i empty ⊎ At entries i erased

  -- The first erased entry that the probe has passed in its first `e` steps.
  abbrev FirstErased : ℕ → Option ℕ → Type ℓ
  FirstErased e none = Unit
  FirstErased e (some j) =
      (d : ℕ) × (d < e) × (j ≡ (key_ops.hasher k + d) % length entries) × At entries j erased

  -- What the loop returns: the matching entry, a free one that a later probe reaches, or null.
  abbrev pub SlotFound : Option ℕ → Type ℓ
  SlotFound none =
      (d : ℕ) → d < length entries → Filled entries ((key_ops.hasher k + d) % length entries)
  SlotFound (some j) =
      Match entries k j ⊎ (Vacant j × Reach entries (key_ops.hasher k) j × Absent entries k)

module _ {ℓ} {K V : Type ℓ} ⦃key_ops : Key K⦄ (entries : List (Entry K V)) (valid : Valid entries)
    (k : K) where
  abbrev probe_from : ℕ → ℕ → Option ℕ → Run (Option ℕ)
  probe_from count e first =
      slot_probe count ((key_ops.hasher k + e) % length entries) entries k (key_ops.hasher k) first

  FirstErased-Reach :
      (e j : ℕ)
      → e ≤ length entries
      → Clear entries valid k e
      → FirstErased entries k e (some j)
      → Reach entries (key_ops.hasher k) j
  FirstErased-Reach e j small clear (d, below, here, at) =
      (d, omega arith, here, λ x p. (clear x (omega arith)).0)

  FirstErased-mono :
      (e : ℕ) (first : Option ℕ)
      → FirstErased entries k e first
      → FirstErased entries k (e + 1) first
  FirstErased-mono e none seen = tt
  FirstErased-mono e (some j) (d, below, here, at) = (d, omega arith, here, at)

  slot_probe-entry :
      (count e : ℕ) (entry : Entry K V) (first : Option ℕ)
      → e < length entries
      → Clear entries valid k e
      → FirstErased entries k e first
      → ((next : Option ℕ)
          → Clear entries valid k (e + 1)
          → FirstErased entries k (e + 1) next
          → Returns (probe_from count (e + 1) next) (SlotFound entries k))
      → At entries ((key_ops.hasher k + e) % length entries) entry
      → Returns (probe_from (suc count) e first) (SlotFound entries k)
  unfolding slot_probe
  slot_probe-entry count e empty none lt clear seen rest at = (
    some ((key_ops.hasher k + e) % length entries),
    rw (read_entry-At entries _ empty at),
    inr (
      inl at,
      (e, lt, refl, λ x p. (clear x p).0),
      Clear-Absent entries valid k e clear (inl at),
    ),
  )
  slot_probe-entry count e empty (some j) lt clear seen rest at = (
    some j,
    rw (read_entry-At entries _ empty at),
    inr (
      inr seen.3,
      FirstErased-Reach e j (omega arith) clear seen,
      Clear-Absent entries valid k e clear (inl at),
    ),
  )
  slot_probe-entry count e erased none lt clear seen rest at =
      rw (read_entry-At entries _ erased at, next_probe_lem entries valid (key_ops.hasher k) e)
        (rest (some ((key_ops.hasher k + e) % length entries))
          (Clear-next entries valid k e clear (λ hole. cc (at, hole))
            (λ (g, b, w, at', same). cc (at, at')))
          (e, omega arith, refl, at))
  slot_probe-entry count e erased (some j) lt clear seen rest at =
      rw (read_entry-At entries _ erased at, next_probe_lem entries valid (key_ops.hasher k) e)
        (rest (some j)
          (Clear-next entries valid k e clear (λ hole. cc (at, hole))
            (λ (g, b, w, at', same). cc (at, at')))
          (FirstErased-mono e (some j) seen))
  slot_probe-entry count e (occupied h a v) first lt clear seen rest at =
      let i = (key_ops.hasher k + e) % length entries in
      elim (matches-Match entries valid k i h a v at) [
        | inl (test, match) ↦
            (some i, rw (read_entry-At entries _ (occupied h a v) at, test), inl match)
        | inr (test, unlike) ↦
            rw
              (
                read_entry-At entries _ (occupied h a v) at,
                test,
                next_probe_lem entries valid (key_ops.hasher k) e,
              )
              (rest first (Clear-next entries valid k e clear (λ hole. cc (at, hole)) unlike)
                (FirstErased-mono e first seen))
      ]

  slot_probe_lem :
      (count e : ℕ) (first : Option ℕ)
      → count + e ≡ length entries
      → Clear entries valid k e
      → FirstErased entries k e first
      → Returns (probe_from count e first) (SlotFound entries k)
  unfolding slot_probe
  slot_probe_lem zero e none total clear seen = (none, refl, λ d p. (clear d (omega arith)).0)
  slot_probe_lem zero e (some j) total clear seen = (
    some j,
    refl,
    inr (
      inr seen.3,
      FirstErased-Reach e j (omega arith) clear seen,
      Clear-Absent entries valid k e clear (inr (omega arith)),
    ),
  )
  slot_probe_lem (suc count) e first total clear seen =
      let i = (key_ops.hasher k + e) % length entries in
      let (entry, at) = get_elem?_of_lt entries i (omega (arith, size_pos entries valid)) in
      slot_probe-entry count e entry first (omega arith) clear seen
        (λ next. slot_probe_lem count (e + 1) next (omega arith)) at

  pub find_slot_for_insert_lem :
      Returns (find_slot_for_insert entries k (key_ops.hasher k)) (SlotFound entries k)
  unfolding find_slot_for_insert
  find_slot_for_insert_lem =
      let start : mask_index entries (key_ops.hasher k) ≡ (key_ops.hasher k + 0) % length entries =
        mask_index_lem entries valid (key_ops.hasher k)
        ∙ ap (λ t. t % length entries) (sym (add-zero (key_ops.hasher k))) in
      rw start
        (slot_probe_lem (length entries) 0 none (omega arith) (λ d p. absurd (omega arith)) tt)
