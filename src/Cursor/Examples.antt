-- ===== src/Cursor/Examples.antt =====
-- The theorem on cursors at three responses.
use durable_streams_referenc.Prelude.{ℕ, List, [], ◌∷◌, map, arith}
use durable_streams_referenc.Cursor.{offset_value, generate_all}
use durable_streams_referenc.Cursor.Order.{IsRising, offset_of, HasRoom, generate_all-IsRising}

abbrev positions : List (ℕ × ℕ)
positions = (0, 0) ∷ (1, 5) ∷ (1, 5) ∷ []

positions-HasRoom : HasRoom 3 0 positions
unfolding offset_value
positions-HasRoom = (omega arith, (omega arith, (omega arith, (omega arith, tt))))

generate_all-IsRising_example : IsRising 0 positions (generate_all (map offset_of positions) 0)
generate_all-IsRising_example = generate_all-IsRising positions 0 positions-HasRoom
