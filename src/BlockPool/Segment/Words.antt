-- ===== src/BlockPool/Segment/Words.antt =====
-- The digits of a bitmap, and what taking and releasing a slot does to each of them.
use native.Mathlib.Nat.{pow-le-pow_right}
use native.Mathlib.Decide.{dec_lt, ℕ_discrete}
use mathlib.Core.Logic.{ite, if_pos, if_neg}
use bhcpp_hptool_kit.Base.{
  ℕ, zero, suc, ◌+◌, ◌-◌, ◌*◌, ◌/◌, ◌%◌, ◌^◌, ◌≤◌, ◌<◌, min, ◌≡◌, refl, sym, ◌∙◌, ap, arith, List,
  [], ◌∷◌, Option, none, some, leb, ◌==◌, bit_and, bit_or, get_or, set, length, get_or-set,
  Bool-cases, inl, inr,
}
use bhcpp_hptool_kit.Base.Bits.{
  bit, bit_le_one, bit-bit_or, bit-bit_and, bit-pow_self, bit-pow_ne, bit-complement, bit_or-lt,
  bit_of_ones,
}
use bhcpp_hptool_kit.MathBits.{find_first_zero_bit, find_first_zero_bit_lem}
use bhcpp_hptool_kit.BlockPool.Segment.{uint64_max, acquire_words}

-- Digit `i` of the bitmap: 1 if slot `i` is in use.
unfoldable pub slot_bit : List ℕ → ℕ → ℕ
slot_bit ws i = bit (get_or ws (i / 64) 0) (i % 64)

pub slot_bit_le_one : (ws : List ℕ) (i : ℕ) → slot_bit ws i ≤ 1
unfolding slot_bit
slot_bit_le_one ws i = bit_le_one (get_or ws (i / 64) 0) (i % 64)

pub slot_bit-head : (w : ℕ) (ws : List ℕ) (i : ℕ) → i < 64 → slot_bit (w ∷ ws) i ≡ bit w i
unfolding slot_bit
slot_bit-head w ws i h =
    let e : i / 64 ≡ 0 = omega arith in let f : i % 64 ≡ i = omega arith in rw (e, f)

pub slot_bit-tail : (w : ℕ) (ws : List ℕ) (i : ℕ) → slot_bit (w ∷ ws) (64 + i) ≡ slot_bit ws i
unfolding slot_bit
slot_bit-tail w ws i =
    let e : (64 + i) / 64 ≡ suc (i / 64) = omega arith in
    let f : (64 + i) % 64 ≡ i % 64 = omega arith in rw (e, f)

-- Every word fits in 64 bits.
abbrev pub AllWords : List ℕ → Type 0
AllWords [] = Unit
AllWords (w ∷ ws) = (w < 2 ^ 64) × AllWords ws

pub mark-bit : (w k i : ℕ) → bit (bit_or w (2 ^ k)) i ≡ ite (ℕ_discrete k i) 1 (bit w i)
mark-bit w k i = elim (ℕ_discrete k i) as (λ d. bit (bit_or w (2 ^ k)) i ≡ ite d 1 (bit w i)) [
  | yes e ↦ rw (← e) (omega (arith, bit-bit_or w (2 ^ k) k, bit-pow_self k, bit_le_one w k))
  | no n ↦ omega (arith, bit-bit_or w (2 ^ k) i, bit-pow_ne k i (λ e. n (sym e)))
]

pub clear-bit :
    (w k i : ℕ)
    → k < 64
    → i < 64
    → bit (bit_and w (2 ^ 64 - 1 - 2 ^ k)) i ≡ ite (ℕ_discrete k i) 0 (bit w i)
clear-bit w k i hk hi =
    elim (ℕ_discrete k i) as (λ d. bit (bit_and w (2 ^ 64 - 1 - 2 ^ k)) i ≡ ite d 0 (bit w i)) [
      | yes e ↦ rw (← e) (omega (arith, both k hk, bit-pow_self k))
      | no n ↦ omega (arith, both i hi, bit-pow_ne k i (λ e. n (sym e)), bit_le_one w i)
    ]
  where
    both :
        (i : ℕ)
        → i < 64
        → bit (bit_and w (2 ^ 64 - 1 - 2 ^ k)) i ≡ min (bit w i) (1 - bit (2 ^ k) i)
    both i hi = omega (
      arith,
      bit-bit_and w (2 ^ 64 - 1 - 2 ^ k) i,
      bit-complement 64 (2 ^ k) i
          (omega (arith, pow-le-pow_right {n = 2} (omega arith) {i = k} {j = 63} (omega arith))) hi,
    )

-- What one round of the search returns, from word `w` on: slot `w * 64 + i`, the lowest free one.
pub record Taken (capacity w : ℕ) (ws : List ℕ) (i slot : ℕ) (ws' : List ℕ) : Type 0 where
  pub place : slot ≡ w * 64 + i
  pub inside : slot < capacity
  pub room : i < 64 * length ws
  pub free : slot_bit ws i ≡ 0
  pub lowest : (j : ℕ) → j < i → slot_bit ws j ≡ 1
  pub marked : (j : ℕ) → slot_bit ws' j ≡ ite (ℕ_discrete i j) 1 (slot_bit ws j)
  pub words : AllWords ws'
  pub same : length ws' ≡ length ws

abbrev pub Outcome : ℕ → ℕ → List ℕ → Option (ℕ × List ℕ) → Type 0
Outcome capacity w ws none =
    (j : ℕ) → j < 64 * length ws → w * 64 + j < capacity → slot_bit ws j ≡ 1
Outcome capacity w ws (some (slot, ws')) = (i : ℕ) × Taken capacity w ws i slot ws'

-- A statement on every slot of `word ∷ ws` is one on the first 64 and one on the others.
pub by_word : (P : ℕ → Type 0) → ((j : ℕ) → j < 64 → P j) → ((j : ℕ) → P (64 + j)) → (j : ℕ) → P j
by_word P low high j = elim (dec_lt j 64) [
  | yes p ↦ low j p
  | no p ↦ let e : 64 + (j - 64) ≡ j = omega arith in rw e at (high (j - 64))
]

-- A word with no free slot below the capacity is passed over.
continue-Outcome :
    (capacity w word : ℕ) (ws : List ℕ)
    → word < 2 ^ 64
    → ((j : ℕ) → j < 64 → w * 64 + j < capacity → bit word j ≡ 1)
    → (r : Option (ℕ × List ℕ)) → Outcome capacity (w + 1) ws r
    → Outcome capacity w
        (word ∷ ws)
        (elim r [ none ↦ none | some (slot, ws') ↦ some (slot, word ∷ ws') ])
continue-Outcome capacity w word ws small full none rest =
    by_word (λ j. j < 64 * length (word ∷ ws) → w * 64 + j < capacity → slot_bit (word ∷ ws) j ≡ 1)
      (λ j p _ q. slot_bit-head word ws j p ∙ full j p q)
      (λ j p q. slot_bit-tail word ws j ∙ rest j (omega arith) (omega arith))
continue-Outcome capacity w word ws small full (some (slot, ws')) (i, t) = (
  64 + i,
  record {
    place = omega (arith, t.place);
    inside = t.inside;
    room = omega (arith, t.room);
    free = slot_bit-tail word ws i ∙ t.free;
    lowest =
        by_word (λ j. j < 64 + i → slot_bit (word ∷ ws) j ≡ 1)
          (λ j p _. slot_bit-head word ws j p ∙ full j p (omega (arith, t.place, t.inside)))
          (λ j p. slot_bit-tail word ws j ∙ t.lowest j (omega arith));
    marked =
        by_word
          (λ j. slot_bit (word ∷ ws') j ≡ ite (ℕ_discrete (64 + i) j) 1 (slot_bit (word ∷ ws) j))
          (λ j p. ground (arith, slot_bit-head word ws j p, slot_bit-head word ws' j p))
          (λ j. ground (arith, slot_bit-tail word ws j, slot_bit-tail word ws' j, t.marked j));
    words = (small, t.words);
    same = ap suc t.same;
  },
)

take-Outcome :
    (capacity w word k : ℕ) (ws : List ℕ)
    → word < 2 ^ 64
    → AllWords ws
    → k < 64
    → bit word k ≡ 0
    → ((j : ℕ) → j < k → bit word j ≡ 1)
    → w * 64 + k < capacity
    → Outcome capacity w (word ∷ ws) (some (w * 64 + k, bit_or word (2 ^ k) ∷ ws))
take-Outcome capacity w word k ws small words lt clear ones inside = (
  k,
  record {
    place = refl;
    inside = inside;
    room = omega arith;
    free = slot_bit-head word ws k lt ∙ clear;
    lowest = λ j h. slot_bit-head word ws j (omega arith) ∙ ones j h;
    marked =
        by_word
          (λ j.
            slot_bit (bit_or word (2 ^ k) ∷ ws) j ≡ ite (ℕ_discrete k j) 1 (slot_bit (word ∷ ws) j))
          (λ j p. ground (
            arith,
            slot_bit-head word ws j p,
            slot_bit-head (bit_or word (2 ^ k)) ws j p,
            mark-bit word k j,
          ))
          (λ j. ground (arith, slot_bit-tail word ws j, slot_bit-tail (bit_or word (2 ^ k)) ws j));
    words = (
      bit_or-lt 64 word (2 ^ k) small
          (omega (arith, pow-le-pow_right {n = 2} (omega arith) {i = k} {j = 63} (omega arith))),
      words,
    );
    same = refl;
  },
)

pub acquire_words-Outcome :
    (capacity w : ℕ) (ws : List ℕ)
    → AllWords ws
    → Outcome capacity w ws (acquire_words capacity w ws)
unfolding acquire_words
acquire_words-Outcome capacity w [] h = λ j p q. absurd (omega arith)
acquire_words-Outcome capacity w (word ∷ ws) h = elim (Bool-cases (word == uint64_max)) [
  | inl e ↦
      let all : word ≡ uint64_max = ground arith in
      rw e (
        continue-Outcome capacity w word ws h.0 (λ j p q. rw all (bit_of_ones 64 j p)) _
          (acquire_words-Outcome capacity (w + 1) ws h.1))
  | inr n ↦
      let (lt, clear, ones) = find_first_zero_bit_lem word h.0 (ground arith) in
      elim (Bool-cases (leb capacity (w * 64 + find_first_zero_bit word))) [
        | inl past ↦
            rw (n, past)
              (continue-Outcome capacity w word ws h.0 (λ j p q. ones j (ground arith)) _
                (acquire_words-Outcome capacity (w + 1) ws h.1))
        | inr below ↦
            rw (n, below) (take-Outcome capacity w word _ ws h.0 h.1 lt clear ones (ground arith))
      ]
]

pub AllWords-get_or : (ws : List ℕ) (i : ℕ) → AllWords ws → get_or ws i 0 < 2 ^ 64
AllWords-get_or [] i h = omega arith
AllWords-get_or (w ∷ ws) zero h = h.0
AllWords-get_or (w ∷ ws) (suc i) h = AllWords-get_or ws i h.1

pub AllWords-set : (ws : List ℕ) (i v : ℕ) → AllWords ws → v < 2 ^ 64 → AllWords (set ws i v)
AllWords-set [] i v h small = h
AllWords-set (w ∷ ws) zero v h small = (small, h.1)
AllWords-set (w ∷ ws) (suc i) v h small = (h.0, AllWords-set ws i v h.1 small)

-- `bitmap[wordIndex] &= ~mask` clears the digit of the slot, and no other.
pub slot_bit-clear :
    (ws : List ℕ) (slot j : ℕ)
    → slot < 64 * length ws
    → slot_bit
        (set ws (slot / 64) (bit_and (get_or ws (slot / 64) 0) (2 ^ 64 - 1 - 2 ^ (slot % 64))))
        j
      ≡ ite (ℕ_discrete slot j) 0 (slot_bit ws j)
unfolding slot_bit
slot_bit-clear ws slot j h =
    let w = get_or ws (slot / 64) 0 in
    let new = bit_and w (2 ^ 64 - 1 - 2 ^ (slot % 64)) in
    let written = get_or-set ws (slot / 64) (j / 64) new 0 (omega arith) in
    elim (ℕ_discrete (slot / 64) (j / 64)) [
      | yes e ↦
          rw (written, if_pos _ e)
            (rw (clear-bit w (slot % 64) (j % 64) (omega arith) (omega arith))
              (elim (ℕ_discrete slot j) [
                | yes p ↦ rw (
                  if_pos (ℕ_discrete slot j) p,
                  if_pos (ℕ_discrete (slot % 64) (j % 64)) (omega arith),
                )
                | no n ↦ rw (
                  if_neg (ℕ_discrete slot j) n,
                  if_neg (ℕ_discrete (slot % 64) (j % 64)) (λ p. n (omega arith)),
                  e,
                )
              ]))
      | no n ↦ rw (written, if_neg _ n) (rw (if_neg (ℕ_discrete slot j) (λ p. n (omega arith))))
    ]
