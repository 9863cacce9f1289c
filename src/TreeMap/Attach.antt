-- ===== src/TreeMap/Attach.antt =====
-- PooledMap.hpp: `operator[]` puts a new node below the place where the walk down ended.
use native.Mathlib.Decide.{ℕ_discrete}
use mathlib.Core.Logic.{if_pos, if_neg}
use mathlib.Core.Path.{◌≡◌}
use bhcpp_hptool_kit.Base.{
  ℕ, ◌+◌, ◌≤◌, ◌≢◌, ◌∙◌, ap, refl, sym, arith, Bool, List, [], ◌∷◌, none, some, if◌then◌else◌,
}
use bhcpp_hptool_kit.Base.Run.{ok, Returns}
use bhcpp_hptool_kit.TreeMap.{Color, red, left, right, Heap, Link, Side, update, create, with_child}
use bhcpp_hptool_kit.TreeMap.Shape.{
  Item, Tree, leaf, node, Frame, here, here_self, here_ne, here_zero, link, cell, Cell, up, top,
  Holds, HoldsPath, occurs, occurs_around,
}
use bhcpp_hptool_kit.TreeMap.Writes.{
  Changed, Holds-frame, HoldsPath-frame, read_lem, update_lem, with_child-cell,
}
use bhcpp_hptool_kit.TreeMap.Focus.{Focus}
use bhcpp_hptool_kit.TreeMap.Rounds.{top-some}
use bhcpp_hptool_kit.TreeMap.Search.{attach}
use bhcpp_hptool_kit.TreeMap.Descend.{Toward}

pub here_apart : (a b : ℕ) (n : ℕ → ℕ) → n a ≡ 0 → n b ≤ 1 → here a b + n b ≤ 1
unfolding here
here_apart a b n z once = elim (ℕ_discrete a b) [
  | yes e ↦ omega (arith, here_self a, z, ap n e, ap (λ x. here a x) e)
  | no ne ↦ omega (arith, here_ne a b ne, once)
]

module _ {ℓ κ} {K : Type ℓ} {V : Type κ} where
  abbrev pub item : ℕ → K → V → Item K V
  item a key v = record { address = a; key = key; value = v }

  -- An address without a node stands in no tree.
  pub Holds-unused :
      (h : Heap K V) (a : ℕ) (p : Link) (t : Tree K V) → h a ≡ none → Holds h p t → occurs a t ≡ 0
  unfolding Holds occurs
  Holds-unused h a p leaf e holds = refl
  Holds-unused h a p (node c i l r) e (n, hl, hr) =
      let other : i.address ≢ a = λ q. cc (e, n, ap h q) in
      omega (
        arith,
        here_ne i.address a other,
        Holds-unused h a (some i.address) l e hl,
        Holds-unused h a (some i.address) r e hr,
      )

  pub HoldsPath-unused :
      (h : Heap K V) (a : ℕ) (q : Link) (path : List (Frame K V))
      → h a ≡ none
      → HoldsPath h q path
      → occurs_around a path ≡ 0
  unfolding HoldsPath occurs_around
  HoldsPath-unused h a q [] e holds = refl
  HoldsPath-unused h a q (f ∷ path) e (n, hs, hp) =
      let other : f.item.address ≢ a = λ same. cc (e, n, ap h same) in
      omega (
        arith,
        here_ne f.item.address a other,
        Holds-unused h a (some f.item.address) f.sibling e hs,
        HoldsPath-unused h a (some f.item.address) path e hp,
      )

  -- What `create` writes.
  pub create_lem :
      (h : Heap K V) (a : ℕ) (key : K) (v : V) (p : Link)
      → (create h a key v p a ≡ some (cell left red (item a key v) p none none))
        × Changed h (create h a key v p) (here a)
  unfolding create
  create_lem h a key v p =
      (if_pos (ℕ_discrete a a) refl _ _, λ b z. if_neg (ℕ_discrete a b) (here_zero a b z) _ _)

  pub key-cell :
      (s : Side) (c : Color) (i : Item K V) (p q u : Link) → (cell s c i p q u).key ≡ i.key
  key-cell left c i p q u = refl
  key-cell right c i p q u = refl

  -- The write to the parent of the new node.
  pub attach_run :
      (equal less : K → K → Bool) (h h' : Heap K V) (a y : ℕ) (key : K) (s : Side) (c : Color)
      (f : Item K V) (p q u : Link)
      → Cell h s c f p q u
      → (if less key f.key then left else right) ≡ s
      → update (with_child s (some a)) h (some f.address) ≡ ok h'
      → attach equal less h (some y) (some f.address) key a ≡ ok (h', some y)
  unfolding attach
  attach_run equal less h h' a y key s c f p q u e to run =
      rw (read_lem h f.address _ e, key-cell s c f p q u, to, run) refl

  -- The new node at the end of the path.
  pub attach-Focus :
      (equal less : K → K → Bool) (h : Heap K V) (a : ℕ) (key : K) (v : V) (path : List (Frame K V))
      → h a ≡ none
      → Toward equal less key path
      → Focus h path leaf
      → Returns
          (attach equal less (create h a key v (up path)) (top none path) (up path) key a)
          λ r. Focus r.0 path (node red (item a key v) leaf leaf) × (r.1 ≡ top (some a) path)
  unfolding attach Holds HoldsPath occurs occurs_around
  attach-Focus equal less h a key v [] free to (holds, around, once) =
      let (e, same) = create_lem h a key v none in
      (
        (create h a key v none, some a),
        refl,
        (((e, tt, tt), tt, λ b. omega (arith, here_apart a b (λ x. 0) refl (omega arith))), refl),
      )
  attach-Focus equal less h a key v (f ∷ path) free to (holds, around, once) =
      let fa = f.item.address in
      let (e, same) = create_lem h a key v (some fa) in
      let h1 = create h a key v (some fa) in
      let unused = HoldsPath-unused h a none (f ∷ path) free around in
      let apart : (b : ℕ) → here a b + occurs_around b (f ∷ path) ≤ 1 =
        λ b. here_apart a b (λ x. occurs_around x (f ∷ path)) unused (omega (arith, once b)) in
      let (ef, hs, hp) =
        HoldsPath-frame h h1 (here a) none (f ∷ path) same (λ b. omega (arith, apart b)) around in
      let n = cell f.side f.color f.item (up path) none (link f.sibling) in
      let (h2, run, (ef2, same2)) = update_lem h1 fa n (with_child f.side (some a)) ef in
      let (y, root) = top-some fa path in
      (
        (h2, some y),
        rw root (
            attach_run equal less h1 h2 a y key f.side f.color f.item (up path) none
              (link f.sibling) ef to run),
        (
          (
            (same2 a (omega (arith, unused)) ∙ e, tt, tt),
            (
              ef2
                  ∙ ap some (
                      with_child-cell f.side f.color f.item (up path) none (some a)
                        (link f.sibling)),
              Holds-frame h1 h2 (here fa) (some fa) f.sibling same2 (λ b. omega (arith, once b)) hs,
              HoldsPath-frame h1 h2 (here fa) (some fa) path same2 (λ b. omega (arith, once b)) hp,
            ),
            λ b. omega (arith, apart b),
          ),
          sym root,
        ),
      )
