-- ===== src/Memory/Reads.antt =====
-- What a read returns: the messages that do not lie before the offset, found by binary search.
use durable_streams_referenc.Prelude.{
  ℕ, zero, suc, ◌+◌, ◌-◌, ◌≤◌, ◌≡◌, ◌≢◌, refl, ap, sym, ◌∙◌, subst, Bool, true, false, List, [],
  ◌∷◌, arith, Ordering, leb, length, length-map, length-drop, map-drop, drop, inl, inr, ◌⊎◌,
  if◌then◌else◌,
}
use durable_streams_referenc.Prelude.Search.{
  Splits, Splits-suc, Splits-zero, binary_search_by, index_of, binary_search_by-Splits,
}
use durable_streams_referenc.Prelude.Text.{Bytes}
use durable_streams_referenc.Error.{ok}
use durable_streams_referenc.Offset.{Offset, start, now, concrete, new, cmp, is_start, is_now}
use durable_streams_referenc.Offset.Order.{cmp-sentinels, cmp-start}
use durable_streams_referenc.Storage.{Message, ReadResult, DateTime, is_stream_expired}
use durable_streams_referenc.Memory.Entry.{StreamEntry, tail_offset}
use durable_streams_referenc.Memory.Methods.{order_at, start_index, read_held}
use durable_streams_referenc.Memory.Layout.{layout, bodies, contents, IsValid}

abbrev is_lt : Ordering → Bool
is_lt Ordering.lt = true
is_lt Ordering.eq = false
is_lt Ordering.gt = false

lt-cases : (o : Ordering) → (o ≡ Ordering.lt) ⊎ ((is_lt o ≡ false) × (o ≢ Ordering.lt))
lt-cases Ordering.lt = inl refl
lt-cases Ordering.eq = inr (refl, λ e. cc)
lt-cases Ordering.gt = inr (refl, λ e. cc)

abbrev is_before : Message → Offset → Bool
is_before m from = is_lt (cmp m.offset from)

-- The messages that do not lie before an offset, one by one.
abbrev pub since : Offset → List Message → List Bytes
since from [] = []
since from (m ∷ messages) =
    if is_before m from then since from messages else m.body ∷ since from messages

-- How many messages at the head of the list lie before an offset.
abbrev count_before : Offset → List Message → ℕ
count_before from [] = 0
count_before from (m ∷ messages) = if is_before m from then suc (count_before from messages) else 0

cmp-later_concrete :
    (c d : ℕ) (raw : Bytes) (s b b' : ℕ)
    → cmp (new s b) (concrete c d raw) ≢ Ordering.lt
    → cmp (new (suc s) b') (concrete c d raw) ≡ Ordering.gt
unfolding cmp new
cmp-later_concrete c d raw s b b' h = ground arith

-- A position that is not before an offset has all later positions behind the offset.
cmp-later :
    (from : Offset) (s b b' : ℕ)
    → cmp (new s b) from ≢ Ordering.lt
    → cmp (new (suc s) b') from ≡ Ordering.gt
cmp-later start s b b' h = cmp-start (suc s) b'
cmp-later now s b b' h = absurd (h (cmp-sentinels s b).1)
cmp-later (concrete c d raw) s b b' h = cmp-later_concrete c d raw s b b' h

order_at-behind :
    (from : Offset) (s b b' : ℕ) (xs : List Bytes) (i : ℕ)
    → cmp (new s b) from ≢ Ordering.lt
    → order_at (layout (suc s) b' xs) from i ≡ Ordering.gt
unfolding order_at layout
order_at-behind from s b b' [] i h = refl
order_at-behind from s b b' (x ∷ xs) zero h = cmp-later from s b b' h
order_at-behind from s b b' (x ∷ xs) (suc i) h =
    order_at-behind from (suc s) b' (b' + length x) xs i (λ e. cc (e, cmp-later from s b b' h))

layout-Splits :
    (from : Offset) (s b : ℕ) (xs : List Bytes)
    → Splits
        (order_at (layout s b xs) from)
        (length (layout s b xs))
        (count_before from (layout s b xs))
unfolding order_at layout
layout-Splits from s b [] = record {
  within = omega arith;
  below = λ i h. absurd (omega arith);
  at_split = λ h. absurd (omega arith);
  above = λ i h k. refl;
}
layout-Splits from s b (x ∷ xs) =
    let rest = layout (suc s) (b + length x) xs in
    let order = order_at (layout s b (x ∷ xs)) from in
    elim (lt-cases (cmp (new s b) from)) [
      | inl before ↦ rw before (
          Splits-suc order (length rest) (count_before from rest) before
            (layout-Splits from (suc s) (b + length x) xs))
      | inr (late, not_before) ↦ rw late (
          Splits-zero order (length rest) not_before
            (λ i. order_at-behind from s b (b + length x) xs i not_before))
    ]

pub since-behind :
    (from : Offset) (s b b' : ℕ) (xs : List Bytes)
    → cmp (new s b) from ≢ Ordering.lt
    → since from (layout (suc s) b' xs) ≡ xs
unfolding layout
since-behind from s b b' [] h = refl
since-behind from s b b' (x ∷ xs) h =
    let later = cmp-later from s b b' h in
    rw later (ap (λ t. x ∷ t) (since-behind from (suc s) b' (b' + length x) xs (λ e. cc)))

-- Nothing lies before an offset behind the first message that does not.
since-layout :
    (from : Offset) (s b : ℕ) (xs : List Bytes)
    → since from (layout s b xs) ≡ drop (count_before from (layout s b xs)) xs
unfolding layout
since-layout from s b [] = refl
since-layout from s b (x ∷ xs) = elim (lt-cases (cmp (new s b) from)) [
  | inl before ↦ rw before (since-layout from (suc s) (b + length x) xs)
  | inr (late, not_before) ↦
      rw late (ap (λ t. x ∷ t) (since-behind from s b (b + length x) xs not_before))
]

count_before-start : (xs : List Bytes) → count_before start (layout 0 0 xs) ≡ 0
unfolding layout
count_before-start [] = refl
count_before-start (x ∷ xs) = rw (cmp-start 0 0)

pub since-now : (s b : ℕ) (xs : List Bytes) → since now (layout s b xs) ≡ []
unfolding layout
since-now s b [] = refl
since-now s b (x ∷ xs) = rw ((cmp-sentinels s b).1) (since-now (suc s) (b + length x) xs)

search-layout :
    (from : Offset) (xs : List Bytes)
    → index_of (binary_search_by (order_at (layout 0 0 xs) from) (length (layout 0 0 xs)))
      ≡ count_before from (layout 0 0 xs)
search-layout from xs =
    binary_search_by-Splits (order_at (layout 0 0 xs) from) (length (layout 0 0 xs))
      (count_before from (layout 0 0 xs)) (layout-Splits from 0 0 xs)

-- The index at which `read` cuts the messages of a valid stream.
start_index-layout :
    (from : Offset) (xs : List Bytes)
    → start_index (layout 0 0 xs) from ≡ count_before from (layout 0 0 xs)
unfolding start_index is_start
start_index-layout start xs = sym (count_before-start xs)
start_index-layout now xs = search-layout now xs
start_index-layout (concrete a b raw) xs = search-layout (concrete a b raw) xs

count_before-le : (from : Offset) (ms : List Message) → count_before from ms ≤ length ms
count_before-le from [] = omega arith
count_before-le from (m ∷ ms) = ground (arith, count_before-le from ms)

-- The result that a read of a stream has.
abbrev pub read_outcome : Offset → StreamEntry → ReadResult
read_outcome from e = record {
  messages = since from e.messages;
  next_offset = tail_offset e;
  at_tail = true;
  closed = e.closed;
}

module _ (time : DateTime) (e : StreamEntry) (v : IsValid e)
    (live : is_stream_expired e.config time ≡ false) where
  index_lem : (from : Offset) → start_index e.messages from ≡ count_before from e.messages
  index_lem from =
      subst (λ ms. start_index ms from ≡ count_before from ms) (sym v.laid_out)
        (start_index-layout from (contents e))

  bodies_lem :
      (from : Offset)
      → bodies (drop (count_before from e.messages) e.messages) ≡ since from e.messages
  bodies_lem from =
      map-drop (λ (m : Message). m.body) (count_before from e.messages) e.messages
      ∙ sym (
          subst (λ ms. since from ms ≡ drop (count_before from ms) (contents e)) (sym v.laid_out)
            (since-layout from 0 0 (contents e)))

  tail_lem :
      (from : Offset)
      → leb (length e.messages) (count_before from e.messages + length (since from e.messages))
        ≡ true
  tail_lem from =
      let p = count_before from e.messages in
      let rest : length (since from e.messages) ≡ length e.messages - p =
        ap length (sym (bodies_lem from))
        ∙ length-map (λ (m : Message). m.body) (drop p e.messages)
        ∙ length-drop p e.messages in
      ground (arith, rest, count_before-le from e.messages)

  read_held-suffix :
      (from : Offset) → is_now from ≡ false → read_held from time e ≡ ok (read_outcome from e)
  unfolding read_held
  read_held-suffix from h = rw (live, h, index_lem from, bodies_lem from, tail_lem from)

  -- A read of a live stream returns the messages that do not lie before the offset, the tail of
  -- the stream as the next offset, and always that the reader is at the tail.
  pub read_held-since : (from : Offset) → read_held from time e ≡ ok (read_outcome from e)
  read_held-since start = read_held-suffix start (unfold is_now in refl)
  read_held-since now =
      let empty : since now e.messages ≡ [] =
        subst (λ ms. since now ms ≡ []) (sym v.laid_out) (since-now 0 0 (contents e)) in
      rw empty (unfold read_held is_now in rw live)
  read_held-since (concrete a b raw) = read_held-suffix (concrete a b raw) (unfold is_now in refl)
