-- ===== src/TreeMap/Shape.antt =====
-- PooledMap.hpp: which heaps hold a tree, and a tree seen from one of its nodes.
use mathlib.Core.List.{append_assoc}
use mathlib.Core.Path.{◌≡◌}
use bhcpp_hptool_kit.Base.{
  ℕ, ◌+◌, ◌<◌, ◌≢◌, ◌==◌, if◌then◌else◌, refl, sym, arith, Option, List, [], ◌∷◌, ◌++◌, none, some,
}
use bhcpp_hptool_kit.TreeMap.{Link, Color, Side, left, right, opposite, Node, Heap}

-- What a node keeps for ever: its address, its key and its value.
pub record Item {ℓ κ} (K : Type ℓ) (V : Type κ) : Type (ℓ ⊔ κ) where
  pub address : ℕ
  pub key : K
  pub value : V

pub data Tree {ℓ κ} (K : Type ℓ) (V : Type κ) : Type (ℓ ⊔ κ) where
  leaf : Tree K V
  node : Color → Item K V → Tree K V → Tree K V → Tree K V

-- A step from a node to its child on a side: the node, and its other child.
pub record Frame {ℓ κ} (K : Type ℓ) (V : Type κ) : Type (ℓ ⊔ κ) where
  pub side : Side
  pub color : Color
  pub item : Item K V
  pub sibling : Tree K V

pub none_below : (n : ℕ) → n < 0 → ⊥
none_below n h = omega arith

-- Whether an address is another one, as a number.
unfoldable pub here : ℕ → ℕ → ℕ
here x a = if x == a then 1 else 0

pub here_self : (x : ℕ) → here x x ≡ 1
unfolding here
here_self x = ground arith

pub here_ne : (x a : ℕ) → x ≢ a → here x a ≡ 0
unfolding here
here_ne x a n = ground arith

pub here_zero : (x a : ℕ) → here x a ≡ 0 → x ≢ a
unfolding here
here_zero x a e = ground arith

module _ {ℓ κ} {K : Type ℓ} {V : Type κ} where
  -- The node with `t` on the side `s` and `u` on the other.
  abbrev pub join : Side → Color → Item K V → Tree K V → Tree K V → Tree K V
  join left c i t u = node c i t u
  join right c i t u = node c i u t

  abbrev pub link : Tree K V → Link
  link leaf = none
  link (node c i l r) = some i.address

  -- The record of a node, with its child on the side `s` and the other one.
  abbrev pub cell : Side → Color → Item K V → Link → Link → Link → Node K V
  cell left c i p q u = record {
    key = i.key;
    value = i.value;
    left_child = q;
    right_child = u;
    parent = p;
    color = c;
  }
  cell right c i p q u = record {
    key = i.key;
    value = i.value;
    left_child = u;
    right_child = q;
    parent = p;
    color = c;
  }

  abbrev pub Cell : Heap K V → Side → Color → Item K V → Link → Link → Link → Type (ℓ ⊔ κ)
  Cell heap s c i p q u = heap i.address ≡ some (cell s c i p q u)

  -- The nodes of the tree are in the heap, below the node `p`.
  unfoldable pub Holds : Heap K V → Link → Tree K V → Type (ℓ ⊔ κ)
  Holds heap p leaf = Unit
  Holds heap p (node c i l r) =
      Cell heap left c i p (link l) (link r)
      × Holds heap (some i.address) l
      × Holds heap (some i.address) r

  -- The frames from a node up to the root.
  abbrev pub up : List (Frame K V) → Link
  up [] = none
  up (f ∷ path) = some f.item.address

  -- The nodes around a subtree are in the heap, where `q` is the link to the subtree.
  unfoldable pub HoldsPath : Heap K V → Link → List (Frame K V) → Type (ℓ ⊔ κ)
  HoldsPath heap q [] = Unit
  HoldsPath heap q (f ∷ path) =
      Cell heap f.side f.color f.item (up path) q (link f.sibling)
      × Holds heap (some f.item.address) f.sibling
      × HoldsPath heap (some f.item.address) path

  -- The link to the root.
  abbrev pub top : Link → List (Frame K V) → Link
  top q [] = q
  top q (f ∷ path) = top (some f.item.address) path

  abbrev pub plug : List (Frame K V) → Tree K V → Tree K V
  plug [] t = t
  plug (f ∷ path) t = plug path (join f.side f.color f.item t f.sibling)

  -- The nodes in the order of the traversal.
  abbrev pub inorder : Tree K V → List (Item K V)
  inorder leaf = []
  inorder (node c i l r) = inorder l ++ i ∷ inorder r

  abbrev pub root_item : Tree K V → Option (Item K V)
  root_item leaf = none
  root_item (node c i l r) = some i

  -- How often the address stands in the tree, and around a subtree.
  unfoldable pub occurs : ℕ → Tree K V → ℕ
  occurs a leaf = 0
  occurs a (node c i l r) = here i.address a + occurs a l + occurs a r

  unfoldable pub occurs_around : ℕ → List (Frame K V) → ℕ
  occurs_around a [] = 0
  occurs_around a (f ∷ path) = here f.item.address a + occurs a f.sibling + occurs_around a path

  pub Holds-join :
      (heap : Heap K V) (p : Link) (s : Side) (c : Color) (i : Item K V) (t u : Tree K V)
      → Cell heap s c i p (link t) (link u)
      → Holds heap (some i.address) t
      → Holds heap (some i.address) u
      → Holds heap p (join s c i t u)
  unfolding Holds
  Holds-join heap p left c i t u n ht hu = (n, ht, hu)
  Holds-join heap p right c i t u n ht hu = (n, hu, ht)

  pub join-Holds :
      (heap : Heap K V) (p : Link) (s : Side) (c : Color) (i : Item K V) (t u : Tree K V)
      → Holds heap p (join s c i t u)
      → Cell heap s c i p (link t) (link u)
        × Holds heap (some i.address) t
        × Holds heap (some i.address) u
  unfolding Holds
  join-Holds heap p left c i t u h = h
  join-Holds heap p right c i t u (n, hu, ht) = (n, ht, hu)

  pub join-opposite :
      (s : Side) (c : Color) (i : Item K V) (t u : Tree K V)
      → join (opposite s) c i t u ≡ join s c i u t
  join-opposite left c i t u = refl
  join-opposite right c i t u = refl

  pub link-join :
      (s : Side) (c : Color) (i : Item K V) (t u : Tree K V)
      → link (join s c i t u) ≡ some i.address
  link-join left c i t u = refl
  link-join right c i t u = refl

  pub occurs-join :
      (a : ℕ) (s : Side) (c : Color) (i : Item K V) (t u : Tree K V)
      → occurs a (join s c i t u) ≡ here i.address a + occurs a t + occurs a u
  unfolding occurs
  occurs-join a left c i t u = refl
  occurs-join a right c i t u = omega arith

  -- A rotation keeps the order of the traversal.
  pub inorder-rotate :
      (s : Side) (c d : Color) (x y : Item K V) (t u v : Tree K V)
      → inorder (join s d y (join s c x t u) v) ≡ inorder (join s c x t (join s d y u v))
  inorder-rotate left c d x y t u v = append_assoc (inorder t) (x ∷ inorder u) (y ∷ inorder v)
  inorder-rotate right c d x y t u v =
      sym (append_assoc (inorder v) (y ∷ inorder u) (x ∷ inorder t))
