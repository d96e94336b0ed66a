-- ===== src/Prelude/Search.antt =====
-- The standard library's `slice::binary_search_by`: the loop halves `size`, and the last probe
-- decides. The slice is its length and the answer of the comparison at each index.
use Prim.Native.Nat.{ℕ, zero, suc, ◌+◌, ◌-◌, ◌/◌, ◌≤◌, ◌<◌, Ordering}
use mathlib.Core.Path.{◌≡◌}
use mathlib.Core.Logic.{◌≢◌}
use native.Mathlib.Omega.{arith}
use durable_streams_referenc.Prelude.Tests.{ltb, ◌==◌, if◌then◌else◌}

-- `Ok(idx)` or `Err(idx)`
pub data Found : Type 0 where
  at_index : ℕ → Found
  insert_at : ℕ → Found

-- `Ok(idx) | Err(idx) => idx`
unfoldable pub index_of : Found → ℕ
index_of (at_index i) = i
index_of (insert_at i) = i

last_probe : ℕ → Ordering → Found
last_probe base Ordering.eq = at_index base
last_probe base Ordering.lt = insert_at (base + 1)
last_probe base Ordering.gt = insert_at base

module _ (order : ℕ → Ordering) where
  -- `while size > 1`; each round takes `size / 2` off, so `size` rounds are enough.
  search_loop : (fuel base size : ℕ) → ℕ
  search_loop zero base size = base
  search_loop (suc fuel) base size =
      let half : ℕ = size / 2 in
      let stay = search_loop fuel base (size - half) in
      let move = search_loop fuel (base + half) (size - half) in
      if ltb 1 size then elim (order (base + half)) [ Ordering.gt ↦ stay | _ ↦ move ] else base

  unfoldable pub binary_search_by : ℕ → Found
  unfolding search_loop last_probe
  binary_search_by size =
      if size == 0
      then insert_at 0
      else let base = search_loop size 0 size in last_probe base (order base)

  -- `p` of the `n` elements compare less, and those behind the next one compare greater.
  pub record Splits (n p : ℕ) : Type 0 where
    pub within : p ≤ n
    pub below : (i : ℕ) → i < p → order i ≡ Ordering.lt
    pub at_split : p < n → order p ≢ Ordering.lt
    pub above : (i : ℕ) → p < i → i < n → order i ≡ Ordering.gt

  module _ (n p : ℕ) (s : Splits n p) where
    search_loop-Splits :
        (fuel base size : ℕ)
        → size ≤ fuel
        → 0 < size
        → base ≤ p
        → p ≤ base + size
        → base + size ≤ n
        → let b = search_loop fuel base size in (b ≤ p) × (p ≤ b + 1) × (b < n)
    unfolding search_loop
    search_loop-Splits zero base size h0 h1 h2 h3 h4 = absurd (omega arith)
    search_loop-Splits (suc fuel) base size h0 h1 h2 h3 h4 = ground (
      arith,
      s.below (base + size / 2),
      s.above (base + size / 2),
      search_loop-Splits fuel base (size - size / 2),
      search_loop-Splits fuel (base + size / 2) (size - size / 2),
    )

    last_probe-Splits : (b : ℕ) → b ≤ p → p ≤ b + 1 → b < n → index_of (last_probe b (order b)) ≡ p
    unfolding last_probe index_of
    last_probe-Splits b h k l = ground (arith, s.below b, s.at_split, s.above b)

  -- On a slice that splits, the index that the search gives is the split.
  pub binary_search_by-Splits : (n p : ℕ) → Splits n p → index_of (binary_search_by n) ≡ p
  unfolding binary_search_by index_of
  binary_search_by-Splits n p s =
      let b = search_loop n 0 n in
      ground (arith, s.within, search_loop-Splits n p s n 0 n, last_probe-Splits n p s b)

module _ (order : ℕ → Ordering) where
  -- One more element in front, which compares less.
  Splits-suc_below :
      (n p : ℕ)
      → order 0 ≡ Ordering.lt
      → Splits (λ i. order (suc i)) n p
      → (i : ℕ) → i < suc p
      → order i ≡ Ordering.lt
  Splits-suc_below n p h s zero k = h
  Splits-suc_below n p h s (suc i) k = s.below i (omega arith)

  Splits-suc_above :
      (n p : ℕ)
      → Splits (λ i. order (suc i)) n p
      → (i : ℕ) → suc p < i
      → i < suc n
      → order i ≡ Ordering.gt
  Splits-suc_above n p s zero k l = absurd (omega arith)
  Splits-suc_above n p s (suc i) k l = s.above i (omega arith) (omega arith)

  pub Splits-suc :
      (n p : ℕ)
      → order 0 ≡ Ordering.lt
      → Splits (λ i. order (suc i)) n p
      → Splits order (suc n) (suc p)
  Splits-suc n p h s = record {
    within = omega (arith, s.within);
    below = Splits-suc_below n p h s;
    at_split = λ k. s.at_split (omega arith);
    above = Splits-suc_above n p s;
  }

  Splits-zero_above :
      (n : ℕ) → ((i : ℕ) → order (suc i) ≡ Ordering.gt) → (i : ℕ) → 0 < i → order i ≡ Ordering.gt
  Splits-zero_above n h zero k = absurd (omega arith)
  Splits-zero_above n h (suc i) k = h i

  -- One more element in front, which does not, before elements that all compare greater.
  pub Splits-zero :
      (n : ℕ)
      → order 0 ≢ Ordering.lt
      → ((i : ℕ) → order (suc i) ≡ Ordering.gt)
      → Splits order (suc n) 0
  Splits-zero n h behind = record {
    within = omega arith;
    below = λ i k. absurd (omega arith);
    at_split = λ k. h;
    above = λ i k l. Splits-zero_above n behind i k;
  }
