-- ===== src/TreeMap/Writes.antt =====
-- PooledMap.hpp: what a write to a node keeps of the tree around it.
use native.Mathlib.Decide.{ℕ_discrete}
use mathlib.Core.Logic.{if_pos, if_neg}
use mathlib.Core.Path.{◌≡◌}
use bhcpp_hptool_kit.Base.{
  ℕ, ◌+◌, ◌≤◌, if◌then◌else◌, refl, ◌∙◌, ap, arith, List, [], ◌∷◌, some, true, false,
}
use bhcpp_hptool_kit.Base.Run.{ok, Returns}
use bhcpp_hptool_kit.TreeMap.{
  Link, Color, Side, left, right, opposite, Node, Heap, child, with_child, with_parent, with_color,
  write_node, read_node, update, link_parent, replace_child, same_link,
}
use bhcpp_hptool_kit.TreeMap.Shape.{
  Item, Tree, leaf, node, Frame, here, here_self, here_zero, link, cell, Holds, up, HoldsPath, top,
  occurs, occurs_around,
}

pub same_link_self : (x : ℕ) → same_link (some x) (some x) ≡ true
unfolding same_link
same_link_self x = ground arith

-- The sides of a record of a node.
module _ {ℓ κ} {K : Type ℓ} {V : Type κ} where
  pub child-cell :
      (s : Side) (c : Color) (i : Item K V) (p q u : Link) → child s (cell s c i p q u) ≡ q
  child-cell left c i p q u = refl
  child-cell right c i p q u = refl

  pub child-opposite-cell :
      (s : Side) (c : Color) (i : Item K V) (p q u : Link)
      → child (opposite s) (cell s c i p q u) ≡ u
  child-opposite-cell left c i p q u = refl
  child-opposite-cell right c i p q u = refl

  pub with_child-cell :
      (s : Side) (c : Color) (i : Item K V) (p q q' u : Link)
      → with_child s q' (cell s c i p q u) ≡ cell s c i p q' u
  with_child-cell left c i p q q' u = refl
  with_child-cell right c i p q q' u = refl

  pub with_child-opposite-cell :
      (s : Side) (c : Color) (i : Item K V) (p q u u' : Link)
      → with_child (opposite s) u' (cell s c i p q u) ≡ cell s c i p q u'
  with_child-opposite-cell left c i p q u u' = refl
  with_child-opposite-cell right c i p q u u' = refl

  pub with_parent-cell :
      (s : Side) (c : Color) (i : Item K V) (p p' q u : Link)
      → with_parent p' (cell s c i p q u) ≡ cell s c i p' q u
  with_parent-cell left c i p p' q u = refl
  with_parent-cell right c i p p' q u = refl

  pub with_color-cell :
      (s : Side) (c c' : Color) (i : Item K V) (p q u : Link)
      → with_color c' (cell s c i p q u) ≡ cell s c' i p q u
  with_color-cell left c c' i p q u = refl
  with_color-cell right c c' i p q u = refl

  pub parent-cell :
      (s : Side) (c : Color) (i : Item K V) (p q u : Link) → (cell s c i p q u).parent ≡ p
  parent-cell left c i p q u = refl
  parent-cell right c i p q u = refl

  pub color-cell :
      (s : Side) (c : Color) (i : Item K V) (p q u : Link) → (cell s c i p q u).color ≡ c
  color-cell left c i p q u = refl
  color-cell right c i p q u = refl

  pub cell-opposite :
      (s : Side) (c : Color) (i : Item K V) (p q u : Link)
      → cell (opposite s) c i p q u ≡ cell s c i p u q
  cell-opposite left c i p q u = refl
  cell-opposite right c i p q u = refl

  -- Two heaps agree wherever the address is counted zero times.
  abbrev pub Changed : Heap K V → Heap K V → (ℕ → ℕ) → Type (ℓ ⊔ κ)
  Changed heap heap' n = (a : ℕ) → n a ≡ 0 → heap' a ≡ heap a

  pub Changed-trans :
      (h h' h'' : Heap K V) (m n : ℕ → ℕ)
      → Changed h h' m
      → Changed h' h'' n
      → Changed h h'' (λ a. m a + n a)
  Changed-trans h h' h'' m n c d a e = d a (omega arith) ∙ c a (omega arith)

  pub Holds-frame :
      (h h' : Heap K V) (n : ℕ → ℕ) (p : Link) (t : Tree K V)
      → Changed h h' n
      → ((a : ℕ) → occurs a t + n a ≤ 1)
      → Holds h p t
      → Holds h' p t
  unfolding Holds occurs
  Holds-frame h h' n p leaf c apart holds = tt
  Holds-frame h h' n p (node k i l r) c apart (e, hl, hr) = (
    c i.address (omega (arith, apart i.address, here_self i.address)) ∙ e,
    Holds-frame h h' n (some i.address) l c (λ a. omega (arith, apart a)) hl,
    Holds-frame h h' n (some i.address) r c (λ a. omega (arith, apart a)) hr,
  )

  pub HoldsPath-frame :
      (h h' : Heap K V) (n : ℕ → ℕ) (q : Link) (path : List (Frame K V))
      → Changed h h' n
      → ((a : ℕ) → occurs_around a path + n a ≤ 1)
      → HoldsPath h q path
      → HoldsPath h' q path
  unfolding HoldsPath occurs_around
  HoldsPath-frame h h' n q [] c apart holds = tt
  HoldsPath-frame h h' n q (f ∷ path) c apart (e, hs, hp) =
      let i = f.item in
      (
        c i.address (omega (arith, apart i.address, here_self i.address)) ∙ e,
        Holds-frame h h' n (some i.address) f.sibling c (λ a. omega (arith, apart a)) hs,
        HoldsPath-frame h h' n (some i.address) path c (λ a. omega (arith, apart a)) hp,
      )

  pub read_lem : (h : Heap K V) (a : ℕ) (n : Node K V) → h a ≡ some n → read_node h (some a) ≡ ok n
  unfolding read_node
  read_lem h a n e = rw (e, read_node) refl

  pub update_lem :
      (h : Heap K V) (a : ℕ) (n : Node K V) (change : Node K V → Node K V)
      → h a ≡ some n
      → Returns (update change h (some a)) λ h'. (h' a ≡ some (change n)) × Changed h h' (here a)
  unfolding update
  update_lem h a n change e =
      let h' = write_node h a (some (change n)) in
      (
        h',
        rw (read_lem h a n e) refl,
        (if_pos (ℕ_discrete a a) refl _ _, λ b z. if_neg (ℕ_discrete a b) (here_zero a b z) _ _),
      )

  -- `if (p) p->parent = q;`, for the root of a tree
  pub link_parent-Holds :
      (h : Heap K V) (p q : Link) (t : Tree K V)
      → ((a : ℕ) → occurs a t ≤ 1)
      → Holds h p t
      → Returns (link_parent h (link t) q) λ h'. Holds h' q t × Changed h h' (λ a. occurs a t)
  unfolding Holds link_parent occurs
  link_parent-Holds h p q leaf once holds = (h, refl, (tt, λ a z. refl))
  link_parent-Holds h p q (node c i l r) once (e, hl, hr) =
      let n = cell left c i p (link l) (link r) in
      let (h', run, (e', same)) = update_lem h i.address n (with_parent q) e in
      (
        h',
        run,
        (
          (
            e',
            Holds-frame h h' (here i.address) (some i.address) l same (λ a. omega (arith, once a))
                hl,
            Holds-frame h h' (here i.address) (some i.address) r same (λ a. omega (arith, once a))
                hr,
          ),
          λ a z. same a (omega arith),
        ),
      )

  -- A pointer to another node is not the link to a tree without that node.
  pub same_link-link : (x : ℕ) (t : Tree K V) → occurs x t ≡ 0 → same_link (some x) (link t) ≡ false
  unfolding same_link occurs here
  same_link-link x leaf z = refl
  same_link-link x (node c i l r) z = ground arith

  -- The test for the side of a child finds it.
  pub replaced_side :
      (s fs : Side) (c : Color) (i : Item K V) (p : Link) (x : ℕ) (t : Tree K V)
      → occurs x t ≡ 0
      → (if same_link (some x) (child s (cell fs c i p (some x) (link t))) then s else opposite s)
        ≡ fs
  replaced_side left left c i p x t z = rw (same_link_self x) refl
  replaced_side left right c i p x t z = rw (same_link-link x t z) refl
  replaced_side right left c i p x t z = rw (same_link-link x t z) refl
  replaced_side right right c i p x t z = rw (same_link_self x) refl

  -- The node above gets another child in place of `x`.
  pub replace_child-HoldsPath :
      (s : Side) (h : Heap K V) (x : ℕ) (y : Link) (path : List (Frame K V))
      → ((a : ℕ) → here x a + occurs_around a path ≤ 1)
      → HoldsPath h (some x) path
      → Returns
          (replace_child s h (top (some x) path) (up path) (some x) y)
          λ r. HoldsPath r.0 y path × (r.1 ≡ top y path) × Changed h r.0 (λ a. occurs_around a path)
  unfolding HoldsPath replace_child occurs_around
  replace_child-HoldsPath s h x y [] once holds = ((h, y), refl, (tt, refl, λ a z. refl))
  replace_child-HoldsPath s h x y (f ∷ path) once (e, hs, hp) =
      let i = f.item in
      let n = cell f.side f.color i (up path) (some x) (link f.sibling) in
      let (h', run, (e', same)) = update_lem h i.address n (with_child f.side y) e in
      let apart : occurs x f.sibling ≡ 0 = omega (arith, once x, here_self x) in
      let side = replaced_side s f.side f.color i (up path) x f.sibling apart in
      (
        (h', top (some i.address) path),
        rw (read_lem h i.address n e, side, run) refl,
        (
          (
            e' ∙ ap some (with_child-cell f.side f.color i (up path) (some x) y (link f.sibling)),
            Holds-frame h h' (here i.address) (some i.address) f.sibling same
                (λ a. omega (arith, once a)) hs,
            HoldsPath-frame h h' (here i.address) (some i.address) path same
                (λ a. omega (arith, once a)) hp,
          ),
          refl,
          λ a z. same a (omega arith),
        ),
      )
