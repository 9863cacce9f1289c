-- ===== src/Sync/Groups/Ids.antt =====
-- `BHGCDController::getGroupId`: the ids that groups get.
use bhcpp_hptool_kit.Base.{
  ℕ, zero, suc, ◌+◌, ◌≡◌, inl, inr, refl, sym, ◌∙◌, ap, true, false, List, ◌∷◌, Option, none, some,
  Bool-cases,
}
use bhcpp_hptool_kit.Base.Run.{ok, fault, diverges}
use bhcpp_hptool_kit.Sync.Groups.{
  Controller, contains, lock_groups, draw_group, add_group, get_group_id,
}

draw_group_lem :
    (left : ℕ) (random : ℕ → ℕ) (groups : List ℕ) (i g : ℕ)
    → draw_group left random groups i ≡ some g
    → contains groups g ≡ false
unfolding draw_group
draw_group_lem zero random groups i g e = elim (Bool-cases (contains groups (random i))) [
  | inl taken ↦ let step : draw_group zero random groups i ≡ none = rw taken in cc (e, step)
  | inr free ↦
      let step : draw_group zero random groups i ≡ some (random i) = rw free in
      let same : random i ≡ g = cc (e, step) in rw (← same) free
]
draw_group_lem (suc left) random groups i g e = elim (Bool-cases (contains groups (random i))) [
  | inl taken ↦
      let step : draw_group (suc left) random groups i ≡ draw_group left random groups (i + 1) =
        rw taken in
      draw_group_lem left random groups (i + 1) g (sym step ∙ e)
  | inr free ↦
      let step : draw_group (suc left) random groups i ≡ some (random i) = rw free in
      let same : random i ≡ g = cc (e, step) in rw (← same) free
]

module _ {ℓ} {F : Type ℓ} where
  -- `getGroupId` gives an id that no group has, and makes it a group, and gives the lock back.
  -- (It may also give -1, or wait for the lock.)
  pub get_group_id-fresh :
      (random : ℕ → ℕ) (c c' : Controller F) (g : ℕ)
      → get_group_id random c ≡ ok (some g, c')
      → (contains c.exist_groups g ≡ false)
        × (c'.exist_groups ≡ g ∷ c.exist_groups)
        × (c'.group_opt_lock ≡ false)
  unfolding get_group_id lock_groups add_group
  get_group_id-fresh random c c' g e = elim (Bool-cases c.group_opt_lock) [
    | inl taken ↦ let step : get_group_id random c ≡ fault diverges = rw taken in cc (e, step)
    | inr free ↦
        let locked : Controller F = record c { group_opt_lock = true } in
        let added = add_group locked (draw_group 100 random c.exist_groups 0) in
        let step : get_group_id random c ≡ ok added = rw free in
        let both : ok added ≡ ok (some g, c') = sym step ∙ e in
        let result : added ≡ (some g, c') = cc both in
        drawn (draw_group 100 random c.exist_groups 0) refl result
  ]
    where
      drawn :
          (o : Option ℕ)
          → draw_group 100 random c.exist_groups 0 ≡ o
          → add_group (record c { group_opt_lock = true }) o ≡ (some g, c')
          → (contains c.exist_groups g ≡ false)
            × (c'.exist_groups ≡ g ∷ c.exist_groups)
            × (c'.group_opt_lock ≡ false)
      drawn none d e' = let id : none ≡ some g = ap (λ p. p.0) e' in cc id
      drawn (some h) d e' =
          let id : some h ≡ some g = ap (λ p. p.0) e' in
          let same : h ≡ g = cc id in
          let after = ap (λ p. p.1) e' in
          (
            draw_group_lem 100 random c.exist_groups 0 g (d ∙ id),
            sym (ap (λ r. r.exist_groups) after) ∙ ap (λ x. x ∷ c.exist_groups) same,
            sym (ap (λ r. r.group_opt_lock) after),
          )
