-- ===== src/TreeMap/Focus.antt =====
-- PooledMap.hpp: a heap with a tree, seen from one of its nodes, and the ways to go to another node.
use mathlib.Core.Path.{◌≡◌, subst}
use bhcpp_hptool_kit.Base.{ℕ, ◌+◌, ◌≤◌, refl, sym, ◌∙◌, ap, arith, List, [], ◌∷◌, some}
use bhcpp_hptool_kit.Base.Run.{Returns}
use bhcpp_hptool_kit.TreeMap.{Color, Side, Heap, update, with_color}
use bhcpp_hptool_kit.TreeMap.Shape.{
  Item, Tree, Frame, here, join, link, cell, Cell, Holds, up, HoldsPath, top, plug, occurs,
  occurs_around, Holds-join, join-Holds, occurs-join, link-join,
}
use bhcpp_hptool_kit.TreeMap.Writes.{with_color-cell, Holds-frame, HoldsPath-frame, update_lem}

module _ {ℓ κ} {K : Type ℓ} {V : Type κ} where
  -- The heap holds a tree and the nodes around it, each once.
  abbrev pub Focus : Heap K V → List (Frame K V) → Tree K V → Type (ℓ ⊔ κ)
  Focus h path t =
      Holds h (up path) t
      × HoldsPath h (link t) path
      × ((a : ℕ) → occurs a t + occurs_around a path ≤ 1)

  pub Focus-up :
      (h : Heap K V) (f : Frame K V) (path : List (Frame K V)) (t : Tree K V)
      → Focus h (f ∷ path) t
      → Focus h path (join f.side f.color f.item t f.sibling)
  unfolding HoldsPath occurs_around
  Focus-up h f path t (ht, (e, hs, hp), once) = (
    Holds-join h (up path) f.side f.color f.item t f.sibling e ht hs,
    subst (λ q. HoldsPath h q path) (sym (link-join f.side f.color f.item t f.sibling)) hp,
    λ a. omega (arith, once a, occurs-join a f.side f.color f.item t f.sibling),
  )

  pub Focus-down :
      (h : Heap K V) (f : Frame K V) (path : List (Frame K V)) (t : Tree K V)
      → Focus h path (join f.side f.color f.item t f.sibling)
      → Focus h (f ∷ path) t
  unfolding HoldsPath occurs_around
  Focus-down h f path t (holds, hp, once) =
      let (e, ht, hs) = join-Holds h (up path) f.side f.color f.item t f.sibling holds in
      (
        ht,
        (e, hs, subst (λ q. HoldsPath h q path) (link-join f.side f.color f.item t f.sibling) hp),
        λ a. omega (arith, once a, occurs-join a f.side f.color f.item t f.sibling),
      )

  -- The way up to the root.
  pub Focus-top :
      (h : Heap K V) (path : List (Frame K V)) (t : Tree K V)
      → Focus h path t
      → Focus h [] (plug path t)
  Focus-top h [] t focus = focus
  Focus-top h (f ∷ path) t focus =
      Focus-top h path (join f.side f.color f.item t f.sibling) (Focus-up h f path t focus)

  pub link-plug : (path : List (Frame K V)) (t : Tree K V) → link (plug path t) ≡ top (link t) path
  link-plug [] t = refl
  link-plug (f ∷ path) t =
      link-plug path (join f.side f.color f.item t f.sibling)
      ∙ ap (λ q. top q path) (link-join f.side f.color f.item t f.sibling)

  pub Focus_cell :
      (h : Heap K V) (path : List (Frame K V)) (s : Side) (c : Color) (i : Item K V)
      (t u : Tree K V)
      → Focus h path (join s c i t u)
      → Cell h s c i (up path) (link t) (link u)
  Focus_cell h path s c i t u (holds, around, once) = (join-Holds h (up path) s c i t u holds).0

  -- The record of the node above.
  pub Focus_above :
      (h : Heap K V) (f : Frame K V) (path : List (Frame K V)) (t : Tree K V)
      → Focus h (f ∷ path) t
      → Cell h f.side f.color f.item (up path) (link t) (link f.sibling)
  unfolding HoldsPath
  Focus_above h f path t (holds, around, once) = around.0

  -- A write to the colour.
  pub recolor :
      (h : Heap K V) (path : List (Frame K V)) (s : Side) (c c' : Color) (i : Item K V)
      (t u : Tree K V)
      → Focus h path (join s c i t u)
      → Returns (update (with_color c') h (some i.address)) λ h'. Focus h' path (join s c' i t u)
  recolor h path s c c' i t u (holds, around, once) =
      let (e, ht, hu) = join-Holds h (up path) s c i t u holds in
      let n = cell s c i (up path) (link t) (link u) in
      let (h', run, (e', same)) = update_lem h i.address n (with_color c') e in
      let count : (a : ℕ) → here i.address a + occurs a t + occurs a u + occurs_around a path ≤ 1 =
        λ a. omega (arith, once a, occurs-join a s c i t u) in
      (
        h',
        run,
        (
          Holds-join h' (up path) s c' i t u
              (e' ∙ ap some (with_color-cell s c c' i (up path) (link t) (link u)))
              (Holds-frame h h' (here i.address) (some i.address) t same
                (λ a. omega (arith, count a)) ht)
              (Holds-frame h h' (here i.address) (some i.address) u same
                (λ a. omega (arith, count a)) hu),
          HoldsPath-frame h h' (here i.address) (link (join s c' i t u)) path same
              (λ a. omega (arith, count a))
              (subst (λ q. HoldsPath h q path) (link-join s c i t u ∙ sym (link-join s c' i t u))
                around),
          λ a. omega (arith, count a, occurs-join a s c' i t u),
        ),
      )

  -- A write to the colour of the node above.
  pub recolor_above :
      (h : Heap K V) (s : Side) (c c' : Color) (i : Item K V) (u : Tree K V)
      (path : List (Frame K V)) (t : Tree K V)
      → Focus h (record { side = s; color = c; item = i; sibling = u } ∷ path) t
      → Returns
          (update (with_color c') h (some i.address))
          λ h'. Focus h' (record { side = s; color = c'; item = i; sibling = u } ∷ path) t
  recolor_above h s c c' i u path t focus =
      let (h', run, focus') =
        recolor h path s c c' i t u
          (Focus-up h (record { side = s; color = c; item = i; sibling = u }) path t focus) in
      (
        h',
        run,
        Focus-down h' (record { side = s; color = c'; item = i; sibling = u }) path t focus',
      )
