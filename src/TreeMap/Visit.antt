-- ===== src/TreeMap/Visit.antt =====
-- PooledMap.hpp: `for_each` on a heap that holds the tree.
use mathlib.Core.Path.{◌≡◌, subst}
use bhcpp_hptool_kit.Base.{
  Bool, ℕ, zero, suc, ◌+◌, ◌≤◌, ◌<◌, ◌∙◌, ap, refl, sym, arith, List, [], ◌∷◌, ◌++◌, none, some,
  length,
}
use bhcpp_hptool_kit.Base.Run.{ok, Returns}
use bhcpp_hptool_kit.TreeMap.{left, Heap, Link, TreeMap, with_value, update}
use bhcpp_hptool_kit.TreeMap.Shape.{
  Item, Tree, leaf, node, inorder, link, here, here_self, cell, Cell, Holds, HoldsPath, occurs,
  occurs_around, none_below,
}
use bhcpp_hptool_kit.TreeMap.Writes.{Changed, Changed-trans, Holds-frame, read_lem, update_lem}
use bhcpp_hptool_kit.TreeMap.Traverse.{inorder_traverse, for_each}
use bhcpp_hptool_kit.TreeMap.Attach.{item}
use bhcpp_hptool_kit.TreeMap.Descend.{length-inorder-node}
use bhcpp_hptool_kit.TreeMap.Alike.{
  Alike, alike_leaf, alike_node, Alike-link, Alike-occurs, Alike-RedBlack, Alike-Sorted, Alike-keys,
  length-keys,
}
use bhcpp_hptool_kit.TreeMap.Insert.{IsMap}

module _ {ℓ κ μ} {K : Type ℓ} {V : Type κ} {S : Type μ} (func : S → K → V → S × V) where
  -- The function called for one entry after the other.
  abbrev pub visit : S → List (Item K V) → List (Item K V) × S
  visit s [] = ([], s)
  visit s (i ∷ items) =
      let called = func s i.key i.value in
      let rest = visit called.0 items in (item i.address i.key called.1 ∷ rest.0, rest.1)

  pub visit-append :
      (s : S) (xs ys : List (Item K V))
      → visit s (xs ++ ys)
        ≡ ((visit s xs).0 ++ (visit (visit s xs).1 ys).0, (visit (visit s xs).1 ys).1)
  visit-append s [] ys = refl
  visit-append s (x ∷ xs) ys =
      let called = func s x.key x.value in
      ap (λ r. (item x.address x.key called.1 ∷ r.0, r.1)) (visit-append called.0 xs ys)

  -- The calls below a node: on the left, the node, on the right.
  pub visit_node :
      (s s1 s2 : S) (xs xs' ys ys' : List (Item K V)) (i : Item K V)
      → (xs', s1) ≡ visit s xs
      → (ys', s2) ≡ visit (func s1 i.key i.value).0 ys
      → (xs' ++ item i.address i.key (func s1 i.key i.value).1 ∷ ys', s2) ≡ visit s (xs ++ i ∷ ys)
  visit_node s s1 s2 xs xs' ys ys' i e f =
      let j = item i.address i.key (func s1 i.key i.value).1 in
      ap (λ z. (xs' ++ j ∷ z.0, z.1)) f
      ∙ ap (λ z. (z.0 ++ (visit z.1 (i ∷ ys)).0, (visit z.1 (i ∷ ys)).1)) e
      ∙ sym (visit-append s xs (i ∷ ys))

  abbrev pub Visited : Heap K V → Link → S → Tree K V → Heap K V × S → Type (ℓ ⊔ κ ⊔ μ)
  Visited h p s t r =
      (t' : Tree K V) × Alike t t'
      × Holds r.0 p t'
      × ((inorder t', r.1) ≡ visit s (inorder t))
      × Changed h r.0 (λ a. occurs a t)

  pub traverse_run :
      (fuel : ℕ) (h h2 : Heap K V) (s : S) (i : Item K V) (c : _) (p q u q1 u1 : Link) (v : V)
      (x y : Heap K V × S)
      → Cell h left c i p q u
      → inorder_traverse func fuel h s q ≡ ok x
      → Cell x.0 left c i p q1 u1
      → update (with_value (func x.1 i.key i.value).1) x.0 (some i.address) ≡ ok h2
      → Cell h2 left c (item i.address i.key v) p q1 u
      → inorder_traverse func fuel h2 (func x.1 i.key i.value).0 u ≡ ok y
      → inorder_traverse func (suc fuel) h s (some i.address) ≡ ok y
  unfolding inorder_traverse
  traverse_run fuel h h2 s i c p q u q1 u1 v x y e run1 e1 run2 e2 run3 =
      rw
        (
          read_lem h i.address _ e,
          run1,
          read_lem x.0 i.address _ e1,
          run2,
          read_lem h2 i.address _ e2,
          run3,
        )
        refl

  pub inorder_traverse-visit :
      (fuel : ℕ) (h : Heap K V) (p : Link) (s : S) (t : Tree K V)
      → length (inorder t) < fuel
      → ((a : ℕ) → occurs a t ≤ 1)
      → Holds h p t
      → Returns (inorder_traverse func fuel h s (link t)) (Visited h p s t)
  unfolding Holds occurs inorder_traverse
  inorder_traverse-visit zero h p s t few once holds =
      elim (none_below (length (inorder t)) few) [ ]
  inorder_traverse-visit (suc fuel) h p s leaf few once holds =
      ((h, s), refl, (leaf, alike_leaf, tt, refl, λ a z. refl))
  inorder_traverse-visit (suc fuel) h p s (node c i l r) few once (e, hl, hr) =
      let ia = i.address in
      let count = length-inorder-node c i l r in
      let (x, run1, (l', al, hl', vl, ch1)) =
        inorder_traverse-visit fuel h (some ia) s l (omega (arith, few, count))
          (λ a. omega (arith, once a)) hl in
      let e1 : Cell x.0 left c i p (link l) (link r) =
        ch1 ia (omega (arith, once ia, here_self ia)) ∙ e in
      let called = func x.1 i.key i.value in
      let (h2, run2, (e2, ch2)) =
        update_lem x.0 ia (cell left c i p (link l) (link r)) (with_value called.1) e1 in
      let ch12 = Changed-trans h x.0 h2 (λ a. occurs a l) (here ia) ch1 ch2 in
      let hr2 =
        Holds-frame h h2 (λ a. occurs a l + here ia a) (some ia) r ch12 (λ a. omega (arith, once a))
          hr in
      let (y, run3, (r', ar, hr', vr, ch3)) =
        inorder_traverse-visit fuel h2 (some ia) called.0 r (omega (arith, few, count))
          (λ a. omega (arith, once a)) hr2 in
      let e3 = ch3 ia (omega (arith, once ia, here_self ia)) ∙ e2 in
      let ch23 = Changed-trans x.0 h2 y.0 (here ia) (λ a. occurs a r) ch2 ch3 in
      let j = item ia i.key called.1 in
      (
        y,
        traverse_run fuel h h2 s i c p (link l) (link r) (link l) (link r) called.1 x y e run1 e1
            run2 e2 run3,
        (
          node c j l' r',
          alike_node c ia i.key i.value called.1 l l' r r' al ar,
          (
            subst (λ q. Cell y.0 left c j p (link l') q) (Alike-link r r' ar)
                (subst (λ q. Cell y.0 left c j p q (link r)) (Alike-link l l' al) e3),
            Holds-frame x.0 y.0 (λ a. here ia a + occurs a r) (some ia) l' ch23
                (λ a. omega (arith, once a, Alike-occurs a l l' al)) hl',
            hr',
          ),
          visit_node s x.1 y.1 (inorder l) (inorder l') (inorder r) (inorder r') i vl vr,
          λ a z. ch3 a (omega arith) ∙ ch12 a (omega arith),
        ),
      )

  -- `for_each` on a red-black tree ends; it calls the function for the entries in the order of their keys,
  -- each with the state that the call before left, and the values of the map are those that the calls
  -- have left.
  pub for_each-visit :
      (equal less : K → K → Bool) (h : Heap K V) (m : TreeMap) (s : S) (t : Tree K V)
      → IsMap equal less h m t
      → Returns (for_each func h s m) λ r.
        (t' : Tree K V) × IsMap equal less r.0 m t' × ((inorder t', r.1) ≡ visit s (inorder t))
  unfolding for_each occurs_around HoldsPath
  for_each-visit equal less h m s t ((holds, around, once), root, size, sorted, rb) =
      let (r, run, (t', alike, holds', visited, ch)) =
        inorder_traverse-visit (suc m.size) h none s t (omega (arith, size))
          (λ a. omega (arith, once a)) holds in
      (
        r,
        ap (λ q. inorder_traverse func (suc m.size) h s q) root ∙ run,
        (
          t',
          (
            (holds', tt, λ a. omega (arith, once a, Alike-occurs a t t' alike)),
            root ∙ Alike-link t t' alike,
            size
                ∙ sym (length-keys (inorder t))
                ∙ ap (λ ks. length ks) (Alike-keys t t' alike)
                ∙ length-keys (inorder t'),
            Alike-Sorted equal less t t' alike sorted,
            Alike-RedBlack t t' alike rb,
          ),
          visited,
        ),
      )
