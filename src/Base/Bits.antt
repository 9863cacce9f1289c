-- ===== src/Base/Bits.antt =====
-- The binary digits of a native number, and what `&`, `|` and `>>` do to each of them.
use Prim.Native.Nat.{digits, bit_and-bitwise, bit_or-bitwise}
use native.Mathlib.Nat.{
  mod-eq_of_lt, div-add-mod, mul_assoc, add-mul-mod_self_left, pow-suc, div-div-eq-div-mul,
  pow-zero, mul_comm, add-suc,
}
use bhcpp_hptool_kit.Base.{
  ℕ, zero, suc, ◌+◌, ◌-◌, ◌*◌, ◌/◌, ◌%◌, ◌^◌, ◌≤◌, ◌<◌, min, max, bit_and, bit_or, ◌≡◌, ◌≢◌, refl,
  ap, arith, ◌∙◌,
}

-- Digit `i` of `x`: 0 or 1.
unfoldable pub bit : ℕ → ℕ → ℕ
bit x zero = x % 2
bit x (suc i) = bit (x / 2) i

pub bit_le_one : (x i : ℕ) → bit x i ≤ 1
unfolding bit
bit_le_one x zero = omega arith
bit_le_one x (suc i) = bit_le_one (x / 2) i

pub bit_zero : (i : ℕ) → bit 0 i ≡ 0
unfolding bit
bit_zero zero = refl
bit_zero (suc i) = bit_zero i

-- `&` and `|` go digit by digit.
module _ (z : ℕ → ℕ) (g : ℕ → ℕ → ℕ) where
  digits-zero : (fuel b : ℕ) → digits z g fuel zero b ≡ z b
  digits-zero zero b = refl
  digits-zero (suc fuel) b = refl

  enough_fuel : (k l x y : ℕ) → x ≤ k → x ≤ l → digits z g k x y ≡ digits z g l x y
  enough_fuel k l zero y _ _ = rw (digits-zero k y, digits-zero l y)
  enough_fuel zero l (suc x) y small room = absurd (omega arith)
  enough_fuel (suc k) zero (suc x) y room small = absurd (omega arith)
  enough_fuel (suc k) (suc l) (suc x) y small room =
      rw (enough_fuel k l (suc x / 2) (y / 2) (omega arith) (omega arith))

pub bit_and_step : (a b : ℕ) → bit_and a b ≡ bit_and (a / 2) (b / 2) * 2 + min (a % 2) (b % 2)
bit_and_step zero b = omega (arith, bit_and-bitwise 0 b, bit_and-bitwise 0 (b / 2))
bit_and_step (suc a) b = omega (
  arith,
  bit_and-bitwise (suc a) b,
  bit_and-bitwise (suc a / 2) (b / 2),
  enough_fuel (λ b. zero) min a (suc a / 2) (suc a / 2) (b / 2) (omega arith) (omega arith),
)

pub bit_or_step : (a b : ℕ) → bit_or a b ≡ bit_or (a / 2) (b / 2) * 2 + max (a % 2) (b % 2)
bit_or_step zero b = omega (arith, bit_or-bitwise 0 b, bit_or-bitwise 0 (b / 2))
bit_or_step (suc a) b = omega (
  arith,
  bit_or-bitwise (suc a) b,
  bit_or-bitwise (suc a / 2) (b / 2),
  enough_fuel (λ b. b) max a (suc a / 2) (suc a / 2) (b / 2) (omega arith) (omega arith),
)

pub bit-bit_and : (a b i : ℕ) → bit (bit_and a b) i ≡ min (bit a i) (bit b i)
unfolding bit
bit-bit_and a b zero = omega (arith, bit_and_step a b)
bit-bit_and a b (suc i) =
    let half : bit_and a b / 2 ≡ bit_and (a / 2) (b / 2) = omega (arith, bit_and_step a b) in
    rw half (bit-bit_and (a / 2) (b / 2) i)

pub bit-bit_or : (a b i : ℕ) → bit (bit_or a b) i ≡ max (bit a i) (bit b i)
unfolding bit
bit-bit_or a b zero = omega (arith, bit_or_step a b)
bit-bit_or a b (suc i) =
    let half : bit_or a b / 2 ≡ bit_or (a / 2) (b / 2) = omega (arith, bit_or_step a b) in
    rw half (bit-bit_or (a / 2) (b / 2) i)

pub bit-shr : (x s i : ℕ) → bit (x / 2 ^ s) i ≡ bit x (i + s)
unfolding bit
bit-shr x zero i =
    let whole : x / 2 ^ 0 ≡ x = omega arith in
    let same : i + 0 ≡ i = omega arith in rw (whole, same)
bit-shr x (suc s) i =
    let half : x / 2 ^ suc s ≡ x / 2 / 2 ^ s =
      rw (div-div-eq-div-mul, pow-suc, mul_comm (2 ^ s) 2) in
    rw (half, add-suc) (bit-shr (x / 2) s i)

pub lt-pow-half : (x n : ℕ) → x < 2 ^ suc n → x / 2 < 2 ^ n
lt-pow-half x n h = let e = pow-suc 2 n in omega arith

pub double_lt-pow : (x n : ℕ) → x / 2 < 2 ^ n → x < 2 ^ suc n
double_lt-pow x n h = let e = pow-suc 2 n in omega arith

-- Digits from `n` on are 0 exactly in the numbers below `2 ^ n`.
pub bit_above : (x n i : ℕ) → x < 2 ^ n → n ≤ i → bit x i ≡ 0
unfolding bit
bit_above x zero i h le = rw x-zero (bit_zero i)
  where
    x-zero : x ≡ 0
    x-zero = omega (arith, pow-zero 2)
bit_above x (suc n) zero h le = absurd (omega arith)
bit_above x (suc n) (suc i) h le = bit_above (x / 2) n i (lt-pow-half x n h) (omega arith)

-- Numbers below `2 ^ n` with the same digits are equal.
pub bit_ext : (n x y : ℕ) → x < 2 ^ n → y < 2 ^ n → ((i : ℕ) → i < n → bit x i ≡ bit y i) → x ≡ y
unfolding bit
bit_ext zero x y hx hy same = omega (arith, pow-zero 2)
bit_ext (suc n) x y hx hy same = omega (
  arith,
  same 0 (omega arith),
  bit_ext n (x / 2) (y / 2) (lt-pow-half x n hx) (lt-pow-half y n hy)
      (λ i h. same (suc i) (omega arith)),
)

-- `|` of two numbers below `2 ^ n` stays below.
pub bit_or-lt : (n x y : ℕ) → x < 2 ^ n → y < 2 ^ n → bit_or x y < 2 ^ n
bit_or-lt zero x y hx hy =
    let e : x ≡ 0 = omega (arith, pow-zero 2) in
    let f : y ≡ 0 = omega (arith, pow-zero 2) in rw (e, f) (omega arith)
bit_or-lt (suc n) x y hx hy =
    let half = bit_or-lt n (x / 2) (y / 2) (lt-pow-half x n hx) (lt-pow-half y n hy) in
    double_lt-pow (bit_or x y) n (omega (arith, bit_or_step x y))

pub bit_and-le : (n x y : ℕ) → x ≤ n → bit_and x y ≤ x
bit_and-le zero x y h = omega (arith, bit_and_step x y, bit_and-bitwise 0 (y / 2), zero_of x)
  where
    zero_of : (x : ℕ) → x ≤ 0 → bit_and (x / 2) (y / 2) ≡ 0
    zero_of zero h = bit_and-bitwise 0 (y / 2)
    zero_of (suc x) h = absurd (omega arith)
bit_and-le (suc n) zero y h = omega (arith, bit_and-bitwise 0 y)
bit_and-le (suc n) (suc x) y h =
    omega (arith, bit_and_step (suc x) y, bit_and-le n (suc x / 2) (y / 2) (omega arith))

-- The digits of `2 ^ k`, and of `2 ^ n - 1`.
pub bit-pow_self : (k : ℕ) → bit (2 ^ k) k ≡ 1
unfolding bit
bit-pow_self zero = refl
bit-pow_self (suc k) =
    let half : 2 ^ suc k / 2 ≡ 2 ^ k = omega (arith, pow-suc 2 k) in rw half (bit-pow_self k)

pub bit-pow_ne : (k i : ℕ) → i ≢ k → bit (2 ^ k) i ≡ 0
unfolding bit
bit-pow_ne zero zero h = absurd (h refl)
bit-pow_ne zero (suc i) h = bit_zero i
bit-pow_ne (suc k) zero h = omega (arith, pow-suc 2 k)
bit-pow_ne (suc k) (suc i) h =
    let half : 2 ^ suc k / 2 ≡ 2 ^ k = omega (arith, pow-suc 2 k) in
    rw half (bit-pow_ne k i (omega arith))

pub pow_pos : (n : ℕ) → 0 < 2 ^ n
pow_pos zero = omega arith
pow_pos (suc n) = omega (arith, pow-suc 2 n, pow_pos n)

-- `~x` at width `n`.
pub bit-complement : (n x i : ℕ) → x < 2 ^ n → i < n → bit (2 ^ n - 1 - x) i ≡ 1 - bit x i
unfolding bit
bit-complement zero x i h lt = absurd (omega arith)
bit-complement (suc n) x zero h lt = omega (arith, pow-suc 2 n)
bit-complement (suc n) x (suc i) h lt =
    let half : (2 ^ suc n - 1 - x) / 2 ≡ 2 ^ n - 1 - x / 2 = omega (arith, pow-suc 2 n) in
    rw half (bit-complement n (x / 2) i (lt-pow-half x n h) (omega arith))

pub bit_of_ones : (n i : ℕ) → i < n → bit (2 ^ n - 1) i ≡ 1
bit_of_ones n i h =
    let e : 2 ^ n - 1 ≡ 2 ^ n - 1 - 0 = omega arith in
    rw e (rw (bit-complement n 0 i (pow_pos n) h, bit_zero i))

-- `& 0`, with room to halve `x`
bit_and-zero_fuel : (fuel x : ℕ) → x ≤ fuel → bit_and x 0 ≡ 0
bit_and-zero_fuel fuel zero room = bit_and-bitwise 0 0
bit_and-zero_fuel zero (suc x) room = absurd (omega arith)
bit_and-zero_fuel (suc fuel) (suc x) room =
    omega (arith, bit_and_step (suc x) 0, bit_and-zero_fuel fuel (suc x / 2) (omega arith))

-- `x & (1 << k)` is digit `k` at its place.
pub bit_and-pow : (x k : ℕ) → bit_and x (2 ^ k) ≡ bit x k * 2 ^ k
unfolding bit
bit_and-pow x zero =
    omega (arith, bit_and_step x 1, bit_and-zero_fuel (x / 2) (x / 2) (omega arith))
bit_and-pow x (suc k) =
    let half : 2 ^ suc k / 2 ≡ 2 ^ k = omega (arith, pow-suc 2 k) in
    let step : bit_and (x / 2) (2 ^ suc k / 2) ≡ bit (x / 2) k * 2 ^ k =
      rw half (bit_and-pow (x / 2) k) in
    omega (
      arith,
      bit_and_step x (2 ^ suc k),
      step,
      pow-suc 2 k,
      ap (λ (t : ℕ). bit (x / 2) k * t) (pow-suc 2 k),
    )

pub mod_double : (p x : ℕ) → 0 < p → x % (2 * p) ≡ x % 2 + 2 * (x / 2 % p)
mod_double p x pos =
    let low = x % 2 + 2 * (x / 2 % p) in
    let below : low < 2 * p = omega arith in
    let whole : x ≡ low + 2 * p * (x / 2 / p) =
      omega (arith, div-add-mod (x / 2) p, mul_assoc 2 p (x / 2 / p)) in
    ap (λ t. t % (2 * p)) whole
    ∙ (add-mul-mod_self_left low (2 * p) (x / 2 / p) ∙ mod-eq_of_lt below)

-- `x & (2 ^ n - 1)` is the rest modulo `2 ^ n`.
pub bit_and_ones : (n x : ℕ) → bit_and x (2 ^ n - 1) ≡ x % 2 ^ n
bit_and_ones zero x =
    let one : 2 ^ 0 ≡ 1 = refl in omega (arith, bit_and-zero_fuel x x (omega arith))
bit_and_ones (suc n) x =
    let double : 2 ^ suc n ≡ 2 * 2 ^ n = omega (arith, pow-suc 2 n) in
    let half : (2 ^ suc n - 1) / 2 ≡ 2 ^ n - 1 = omega (arith, pow_pos n) in
    let low : (2 ^ suc n - 1) % 2 ≡ 1 = omega (arith, pow_pos n) in
    let high : bit_and (x / 2) ((2 ^ suc n - 1) / 2) ≡ x / 2 % 2 ^ n =
      rw half (bit_and_ones n (x / 2)) in
    let split : x % 2 ^ suc n ≡ x % 2 + 2 * (x / 2 % 2 ^ n) =
      rw double (mod_double (2 ^ n) x (pow_pos n)) in
    let step = bit_and_step x (2 ^ suc n - 1) in
    let least : min (x % 2) ((2 ^ suc n - 1) % 2) ≡ x % 2 = rw low (omega arith) in
    omega (arith, step, high, least, split)

bit_and_comm_fuel : (fuel x y : ℕ) → x ≤ fuel → y ≤ fuel → bit_and x y ≡ bit_and y x
bit_and_comm_fuel zero zero zero hx hy = refl
bit_and_comm_fuel zero (suc x) y hx hy = absurd (omega arith)
bit_and_comm_fuel zero zero (suc y) hx hy = absurd (omega arith)
bit_and_comm_fuel (suc fuel) x y hx hy = omega (
  arith,
  bit_and_step x y,
  bit_and_step y x,
  bit_and_comm_fuel fuel (x / 2) (y / 2) (omega arith) (omega arith),
)

pub bit_and_comm : (x y : ℕ) → bit_and x y ≡ bit_and y x
bit_and_comm x y = bit_and_comm_fuel (x + y) x y (omega arith) (omega arith)
