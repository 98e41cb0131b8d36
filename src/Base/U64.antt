-- ===== src/Base/U64.antt =====
-- u64 arithmetic of a release build: `+` and `*` wrap, the saturating operations stop at the ends.
use Prim.Native.Nat.{ℕ, ◌+◌, ◌-◌, ◌*◌, ◌%◌, ◌≤◌, min}
use mathlib.Core.Path.{◌≡◌}
use native.Mathlib.Omega.{arith}

abbrev pub u64_max : ℕ
u64_max = 18_446_744_073_709_551_615

-- a + b
abbrev pub add_u64 : ℕ → ℕ → ℕ
add_u64 a b = (a + b) % 18_446_744_073_709_551_616

-- a * b
abbrev pub mul_u64 : ℕ → ℕ → ℕ
mul_u64 a b = (a * b) % 18_446_744_073_709_551_616

-- a.saturating_add(b)
abbrev pub saturating_add : ℕ → ℕ → ℕ
saturating_add a b = min (a + b) u64_max

-- a.saturating_sub(b)
abbrev pub saturating_sub : ℕ → ℕ → ℕ
saturating_sub a b = a - b

-- Where the sum fits a u64, nothing wraps.
pub add_u64-eq_of_le : (a b : ℕ) → a + b ≤ u64_max → add_u64 a b ≡ a + b
add_u64-eq_of_le a b h = omega arith

pub add_u64-le : (a b : ℕ) → add_u64 a b ≤ a + b
add_u64-le a b = omega arith

pub add_u64-le-u64_max : (a b : ℕ) → add_u64 a b ≤ u64_max
add_u64-le-u64_max a b = omega arith
