-- ===== src/HashMap/Table.antt =====
-- What the entries of PooledHashMap hold, and what keeps every probe sequence whole.
use native.Mathlib.Decide.{ℕ_discrete}
use mathlib.Core.Path.{subst}
use bhcpp_hptool_kit.Base.{
  ℕ, zero, suc, ◌+◌, ◌%◌, ◌^◌, ◌≤◌, ◌<◌, ◌≡◌, ◌≢◌, ◌⊎◌, inl, inr, sym, ◌∙◌, arith, List, [], ◌∷◌,
  some, true, get_elem?, set, length, length-set, get_elem?-set_self, get_elem?-set_ne,
}
use bhcpp_hptool_kit.HashMap.KeyOps.{Key}
use bhcpp_hptool_kit.HashMap.{Entry, empty, erased, occupied}

module _ {ℓ} {K V : Type ℓ} where
  abbrev pub At : List (Entry K V) → ℕ → Entry K V → Type ℓ
  At entries i e = get_elem? entries i ≡ some e

  abbrev pub Filled : List (Entry K V) → ℕ → Type ℓ
  Filled entries i = get_elem? entries i ≢ some empty

  -- A probe from `hash_value` meets no empty entry before `i`.
  abbrev pub Reach : List (Entry K V) → ℕ → ℕ → Type ℓ
  Reach entries hash_value i =
      (d : ℕ) × (d < length entries)
      × (i ≡ (hash_value + d) % length entries)
      × ((e : ℕ) → e < d → Filled entries ((hash_value + e) % length entries))

  pub At-lt :
      (entries : List (Entry K V)) (i : ℕ) {e : Entry K V} → At entries i e → i < length entries
  At-lt [] i at = grind arith
  At-lt (x ∷ entries) zero at = omega arith
  At-lt (x ∷ entries) (suc i) at = omega (arith, At-lt entries i at)

  pub At-set :
      (entries : List (Entry K V)) (j i : ℕ) (x y : Entry K V)
      → j < length entries
      → At (set entries j x) i y
      → ((i ≡ j) × (x ≡ y)) ⊎ ((j ≢ i) × At entries i y)
  At-set entries j i x y lt at = elim (ℕ_discrete j i) [
    | yes same ↦ inl (sym same, cc (get_elem?-set_self entries j x lt, at, same))
    | no other ↦ inr (other, sym (get_elem?-set_ne entries x other) ∙ at)
  ]

  pub Filled-set :
      (entries : List (Entry K V)) (j i : ℕ) (x : Entry K V)
      → j < length entries
      → x ≢ empty
      → Filled entries i
      → Filled (set entries j x) i
  Filled-set entries j i x lt full filled at = elim (At-set entries j i x empty lt at) [
    | inl (_, e) ↦ full e
    | inr (_, e) ↦ filled e
  ]

module _ {ℓ} {K V : Type ℓ} ⦃key_ops : Key K⦄ where
  -- An entry holds a key equal to `k`.
  abbrev pub Match : List (Entry K V) → K → ℕ → Type ℓ
  Match entries k i =
      (hash : ℕ) × (a : K) × (v : V) × At entries i (occupied hash a v) × (key_ops.equal a k ≡ true)

  abbrev pub Absent : List (Entry K V) → K → Type ℓ
  Absent entries k = (i : ℕ) → ¬ Match entries k i

  -- Hashes are those of the keys, and no two entries hold equal keys.
  pub record Sound (entries : List (Entry K V)) : Type ℓ where
    pub hashed : (i h : ℕ) (k : K) (v : V) → At entries i (occupied h k v) → h ≡ key_ops.hasher k
    pub unique :
        (i j h g : ℕ) (a b : K) (v w : V)
        → At entries i (occupied h a v)
        → At entries j (occupied g b w)
        → key_ops.equal a b ≡ true
        → i ≡ j

  -- A table that probes can search.
  pub record Valid (entries : List (Entry K V)) : Type ℓ where
    pub sound : Sound entries
    pub bits : ℕ
    pub sized : length entries ≡ 2 ^ bits
    pub bounded : bits ≤ 63
    pub reached : (i h : ℕ) (k : K) (v : V) → At entries i (occupied h k v) → Reach entries h i

  Reach-set :
      (entries : List (Entry K V)) (j : ℕ) (x : Entry K V) (h i : ℕ)
      → j < length entries
      → x ≢ empty
      → Reach entries h i
      → Reach (set entries j x) h i
  Reach-set entries j x h i lt full (d, below, at, filled) =
      rw (length-set entries j x) (
        d,
        below,
        at,
        λ e p. Filled-set entries j ((h + e) % length entries) x lt full (filled e p),
      )

  pub Valid-set :
      (entries : List (Entry K V)) (j : ℕ) (x : Entry K V)
      → j < length entries
      → x ≢ empty
      → Valid entries
      → Sound (set entries j x)
      → ((h : ℕ) (k : K) (v : V) → x ≡ occupied h k v → Reach entries h j)
      → Valid (set entries j x)
  Valid-set entries j x lt full valid sound new = record {
    sound = sound;
    bits = valid.bits;
    sized = length-set entries j x ∙ valid.sized;
    bounded = valid.bounded;
    reached = λ i h k v at.
        Reach-set entries j x h i lt full (elim (At-set entries j i x (occupied h k v) lt at) [
          | inl (same, e) ↦ subst (Reach entries h) (sym same) (new h k v e)
          | inr (_, old) ↦ valid.reached i h k v old
        ]);
  }

  -- A new pair at a place where no entry of the table holds an equal key.
  pub Sound-insert :
      (entries : List (Entry K V)) (j : ℕ) (k : K) (v : V)
      → j < length entries
      → Sound entries
      → Absent entries k
      → Sound (set entries j (occupied (key_ops.hasher k) k v))
  Sound-insert entries j k v lt sound absent =
      let new = occupied (key_ops.hasher k) k v in
      record {
        hashed = λ i h a w at. elim (At-set entries j i new (occupied h a w) lt at) [
          | inl (_, e) ↦ cc e
          | inr (_, old) ↦ sound.hashed i h a w old
        ];
        unique = λ i i' h g a b w w' at at' same.
            elim (At-set entries j i new (occupied h a w) lt at) [
              | inl (here, e) ↦ elim (At-set entries j i' new (occupied g b w') lt at') [
                | inl (here', _) ↦ here ∙ sym here'
                | inr (_, old) ↦
                    absurd (absent i' (g, b, w', old, key_ops.equal_turn k b (cc (e, same))))
              ]
              | inr (_, old) ↦ elim (At-set entries j i' new (occupied g b w') lt at') [
                | inl (_, e) ↦ absurd (absent i (h, a, w, old, cc (e, same)))
                | inr (_, old') ↦ sound.unique i i' h g a b w w' old old' same
              ]
            ];
      }

  pub Valid-insert :
      (entries : List (Entry K V)) (j : ℕ) (k : K) (v : V)
      → j < length entries
      → Valid entries
      → Absent entries k
      → Reach entries (key_ops.hasher k) j
      → Valid (set entries j (occupied (key_ops.hasher k) k v))
  Valid-insert entries j k v lt valid absent reach =
      Valid-set entries j (occupied (key_ops.hasher k) k v) lt (λ e. grind arith) valid
        (Sound-insert entries j k v lt valid.sound absent)
        (λ h a w e. subst (λ t. Reach entries t j) (cc e) reach)

  pub Sound-erase :
      (entries : List (Entry K V)) (j : ℕ)
      → j < length entries
      → Sound entries
      → Sound (set entries j erased)
  Sound-erase entries j lt sound = record {
    hashed = λ i h a w at. elim (At-set entries j i erased (occupied h a w) lt at) [
      | inl (_, e) ↦ cc e
      | inr (_, old) ↦ sound.hashed i h a w old
    ];
    unique = λ i i' h g a b w w' at at' same.
        elim (At-set entries j i erased (occupied h a w) lt at) [
          | inl (_, e) ↦ cc e
          | inr (_, old) ↦ elim (At-set entries j i' erased (occupied g b w') lt at') [
            | inl (_, e) ↦ cc e
            | inr (_, old') ↦ sound.unique i i' h g a b w w' old old' same
          ]
        ];
  }

  pub Valid-erase :
      (entries : List (Entry K V)) (j : ℕ)
      → j < length entries
      → Valid entries
      → Valid (set entries j erased)
  Valid-erase entries j lt valid =
      Valid-set entries j erased lt (λ e. cc e) valid (Sound-erase entries j lt valid.sound)
        (λ h k v e. cc e)
