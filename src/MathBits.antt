-- ===== src/MathBits.antt =====
-- Foundations/MathBits.hpp: the arithmetic that the pools and the hash map size themselves by.
-- `std::size_t` has 64 bits: a value stands for itself and is below `2 ^ 64`, and an operation
-- that may wrap has its `% 2 ^ 64` written out. `round_up_power_of_two` takes the branch
-- `sizeof(std::size_t) >= 8`, and `find_first_zero_bit` is the portable loop.
mod Divisors
mod Rounding
pub mod Powers
mod ZeroBit
mod Examples
unfoldable pub use Divisors.{gcd, lcm}
unfoldable pub use Rounding.{round_up, round_up_to_multiple}
unfoldable pub use Powers.{is_power_of_two, round_up_power_of_two}
unfoldable pub use ZeroBit.{find_first_zero_bit}
pub use Divisors.*
pub use Rounding.*
pub use Powers.*
pub use ZeroBit.*
