-- ===== src/MathBits/Examples.antt =====
-- Foundations/MathBits.hpp on concrete numbers.
use bhcpp_hptool_kit.Base.{ℕ, ◌^◌, ◌≤◌, ◌≡◌, refl, arith, true, ◌↔◌}
use bhcpp_hptool_kit.MathBits.Divisors.{gcd, lcm}
use bhcpp_hptool_kit.MathBits.Powers.{
  is_power_of_two, round_up_power_of_two, is_power_of_two_iff, round_up_power_of_two_lem,
}
use bhcpp_hptool_kit.MathBits.ZeroBit.{find_first_zero_bit}

gcd_runs : gcd 48 36 ≡ 12
unfolding gcd
gcd_runs = refl

lcm_runs : lcm 4096 24 ≡ 12288
unfolding lcm
lcm_runs = refl

round_up_power_of_two_runs : round_up_power_of_two 1000 ≡ 1024
unfolding round_up_power_of_two
round_up_power_of_two_runs = refl

find_first_zero_bit_runs : find_first_zero_bit 0b10111 ≡ 3
unfolding find_first_zero_bit
find_first_zero_bit_runs = refl

is_power_of_two_iff_example : (is_power_of_two 24 ≡ true) ↔ ((k : ℕ) × (24 ≡ 2 ^ k))
is_power_of_two_iff_example = is_power_of_two_iff 24

round_up_power_of_two_lem_example :
    (k : ℕ) × (round_up_power_of_two 100 ≡ 2 ^ k)
    × (100 ≤ 2 ^ k)
    × ((j : ℕ) → 100 ≤ 2 ^ j → 2 ^ k ≤ 2 ^ j)
round_up_power_of_two_lem_example = round_up_power_of_two_lem 100 (omega arith)
