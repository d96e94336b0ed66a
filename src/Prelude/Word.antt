-- ===== src/Prelude/Word.antt =====
-- Rust's `u64`: a number below 2 ^ 64, whose `+` wraps round.
use durable_streams_referenc.Prelude.Tests.{ltb, if◌then◌else◌}
use Prim.Native.Nat.{ℕ, ◌+◌, ◌-◌, ◌%◌, ◌^◌, ◌<◌}
use mathlib.Core.Path.{◌≡◌}
use mathlib.Core.Option.{Option, none, some}
use native.Mathlib.Omega.{arith}

abbrev pub u64_mod : ℕ
u64_mod = 2 ^ 64

abbrev pub u64_max : ℕ
u64_max = 2 ^ 64 - 1

abbrev pub IsU64 : ℕ → Type 0
IsU64 n = n < u64_mod

-- `a + b`
unfoldable pub u64_add : ℕ → ℕ → ℕ
u64_add a b = (a + b) % u64_mod

-- `a.checked_add(b)`
unfoldable pub checked_add : ℕ → ℕ → Option ℕ
checked_add a b = if ltb (a + b) u64_mod then some (a + b) else none

-- `a.saturating_sub(b)`: subtraction on ℕ stops at 0.
unfoldable pub saturating_sub : ℕ → ℕ → ℕ
saturating_sub a b = a - b

-- `u64::try_from(n).unwrap_or(u64::MAX)`
unfoldable pub to_u64 : ℕ → ℕ
to_u64 n = if ltb n u64_mod then n else u64_max

pub u64_add-lt : (a b : ℕ) → u64_add a b < u64_mod
unfolding u64_add
u64_add-lt a b = omega arith

pub u64_add_exact : (a b : ℕ) → a + b < u64_mod → u64_add a b ≡ a + b
unfolding u64_add
u64_add_exact a b h = omega arith

pub to_u64_exact : (n : ℕ) → n < u64_mod → to_u64 n ≡ n
unfolding to_u64
to_u64_exact n h = ground arith
