-- ===== src/Prelude/Decimal.antt =====
-- Decimal numbers: `str::parse::<u64>` and `u64::to_string` of the standard library.
pub mod Canonical
use Prim.Native.Nat.{ℕ, zero, suc, ◌+◌, ◌-◌, ◌*◌, ◌/◌, ◌%◌, ◌^◌, ◌≤◌, ◌<◌}
use mathlib.Core.Path.{◌≡◌, refl, sym, ap, ◌∙◌}
use mathlib.Core.Logic.{◌≢◌, inl, inr}
use mathlib.Core.Bool.{Bool, true, false, ◌&&◌}
use mathlib.Core.List.{[], ◌∷◌, ◌++◌, append-nil}
use native.Mathlib.Nat.{pow-suc}
use native.Mathlib.Omega.{arith}
use durable_streams_referenc.Prelude.Tests.{ltb, leb, ◌==◌, ==_iff, if◌then◌else◌, Bool-cases}
use durable_streams_referenc.Prelude.Lists.{length}
use durable_streams_referenc.Prelude.Text.{Text}
use durable_streams_referenc.Prelude.Word.{u64_mod}

-- `Result<u64, ParseIntError>`
pub data Parsed : Type 0 where
  number : ℕ → Parsed
  empty invalid_digit pos_overflow : Parsed

abbrev pub is_digit : ℕ → Bool
is_digit c = leb b'0' c && leb c b'9'

-- The checked loop over the digits.
unfoldable pub parse_digits : Text → ℕ → Parsed
parse_digits [] value = number value
parse_digits (c ∷ s) value =
    let rest = parse_digits s (value * 10 + (c - b'0')) in
    if is_digit c
    then (if ltb (value * 10 + (c - b'0')) u64_mod then rest else pos_overflow)
    else invalid_digit

-- What follows a plus sign; the sign alone is no number.
unfoldable pub parse_unsigned : Text → Parsed
parse_unsigned [] = invalid_digit
parse_unsigned (c ∷ s) = parse_digits (c ∷ s) 0

-- `s.parse::<u64>()`: a leading plus sign is accepted.
unfoldable pub parse_u64 : Text → Parsed
unfolding parse_unsigned parse_digits
parse_u64 [] = empty
parse_u64 (c ∷ s) = if c == b'+' then parse_unsigned s else parse_digits (c ∷ s) 0

-- The digits of a number in front of a text, the last one first.
unfoldable pub digits_before : ℕ → ℕ → Text → Text
digits_before zero n rest = rest
digits_before (suc fuel) n rest =
    let longer = (b'0' + n % 10) ∷ rest in
    let more = digits_before fuel (n / 10) longer in if n / 10 == 0 then longer else more

-- `n.to_string()`: twenty digits are enough for a `u64`.
unfoldable pub to_string : ℕ → Text
unfolding digits_before
to_string n = digits_before 20 n []

-- Reading one digit.
parse_digit :
    (d v : ℕ) (s : Text)
    → d < 10
    → v * 10 + d < u64_mod
    → parse_digits ((b'0' + d) ∷ s) v ≡ parse_digits s (v * 10 + d)
unfolding parse_digits
parse_digit d v s h k =
    let same : b'0' + d - b'0' ≡ d = omega arith in rw (parse_digits, same) (ground arith)

pub parse_digits-digits_before :
    (fuel n : ℕ) (rest : Text)
    → n < 10 ^ fuel
    → 0 < fuel
    → n < u64_mod
    → parse_digits (digits_before fuel n rest) 0 ≡ parse_digits rest n
unfolding digits_before
parse_digits-digits_before zero n rest h k l = absurd (omega arith)
parse_digits-digits_before (suc fuel) n rest h k l = elim (Bool-cases (n / 10 == 0)) [
  | inl small ↦
      let none_above : n / 10 ≡ 0 = (==_iff _ 0).0 small in
      let whole : 0 * 10 + n % 10 ≡ n = omega arith in
      rw small (parse_digit (n % 10) 0 rest (omega arith) (omega arith) ∙ rw whole)
  | inr large ↦
      let some_above : n / 10 ≢ 0 = λ e. cc (large, (==_iff (n / 10) 0).1 e) in
      let bound : n < 10 ^ fuel * 10 = rw pow-suc at h in
      let whole : n / 10 * 10 + n % 10 ≡ n = omega arith in
      let positive : 0 < fuel = fuel_positive fuel n bound some_above in
      rw large (
        parse_digits-digits_before fuel (n / 10) ((b'0' + n % 10) ∷ rest) (omega arith) positive
          (omega arith)
        ∙ parse_digit (n % 10) (n / 10) rest (omega arith) (omega arith)
        ∙ rw whole)
]
  where
    fuel_positive : (fuel n : ℕ) → n < 10 ^ fuel * 10 → n / 10 ≢ 0 → 0 < fuel
    fuel_positive zero n h k = absurd (k (omega arith))
    fuel_positive (suc fuel) n h k = omega arith
