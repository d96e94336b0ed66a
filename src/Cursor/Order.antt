-- ===== src/Cursor/Order.antt =====
-- The cursors of src/protocol/cursor.rs go up.
use durable_streams_referenc.Prelude.{
  ℕ, suc, ◌+◌, ◌≤◌, ◌<◌, ◌≡◌, refl, List, [], ◌∷◌, map, arith, All, length,
}
use durable_streams_referenc.Prelude.Text.{Text}
use durable_streams_referenc.Prelude.Word.{u64_mod, u64_add_exact}
use durable_streams_referenc.Prelude.Decimal.{number, parse_digits, to_string}
use durable_streams_referenc.Prelude.Decimal.Canonical.{parse_digits-to_string}
use durable_streams_referenc.Offset.{Offset, new, parse_components}
use durable_streams_referenc.Cursor.{offset_value, next_cursor, generate, generate_all}

-- Each text is a number above the one before it, the first one above `last`, and not below the
-- value of its position.
abbrev pub IsRising : ℕ → List (ℕ × ℕ) → List Text → Type 0
IsRising last [] [] = Unit {0}
IsRising last (p ∷ positions) (t ∷ texts) =
    (n : ℕ) × (parse_digits t 0 ≡ number n)
    × (last < n)
    × (offset_value p ≤ n)
    × IsRising n positions texts
IsRising last _ _ = ⊥

-- The counter and the value of every position leave room for that many more steps.
abbrev pub HasRoom : ℕ → ℕ → List (ℕ × ℕ) → Type 0
HasRoom calls last positions =
    (last + calls < u64_mod) × All (λ p. offset_value p + calls < u64_mod) positions

abbrev pub offset_of : ℕ × ℕ → Offset
offset_of (read_seq, byte_offset) = new read_seq byte_offset

generate-offset_of :
    (p : ℕ × ℕ) (last : ℕ)
    → generate (offset_of p) last ≡ (to_string (next_cursor p last), next_cursor p last)
unfolding generate new parse_components
generate-offset_of p last = refl

next_cursor_bounds :
    (p : ℕ × ℕ) (last calls : ℕ)
    → last + suc calls < u64_mod
    → offset_value p + suc calls < u64_mod
    → let n = next_cursor p last in (last < n) × (offset_value p ≤ n) × (n + calls < u64_mod)
unfolding next_cursor
next_cursor_bounds p last calls h k =
    rw (u64_add_exact last 1 (omega arith)) (omega arith, omega arith, omega arith)

weaker :
    (calls : ℕ) (positions : List (ℕ × ℕ))
    → All (λ p. offset_value p + suc calls < u64_mod) positions
    → All (λ p. offset_value p + calls < u64_mod) positions
weaker calls [] h = tt
weaker calls (p ∷ positions) h = (omega arith, weaker calls positions h.1)

-- The cursors of any sequence of responses are strictly increasing decimal numbers, each at least
-- the value of its own position, as long as the counter and the positions stay below 2^64 by as
-- much as there are calls.
pub generate_all-IsRising :
    (positions : List (ℕ × ℕ)) (last : ℕ)
    → HasRoom (length positions) last positions
    → IsRising last positions (generate_all (map offset_of positions) last)
unfolding generate_all
generate_all-IsRising [] last h = tt
generate_all-IsRising (p ∷ positions) last h =
    let n = next_cursor p last in
    let (above, floor, room) = next_cursor_bounds p last (length positions) h.0 h.1.0 in
    rw (generate-offset_of p last) (
      n,
      parse_digits-to_string n (omega arith),
      above,
      floor,
      generate_all-IsRising positions n (room, weaker (length positions) positions h.1.1),
    )
