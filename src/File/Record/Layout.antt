-- ===== src/File/Record/Layout.antt =====
-- The bytes of a log file, src/storage/file.rs: where the records of messages lie.
use durable_streams_referenc.Prelude.{
  ℕ, zero, suc, ◌+◌, ◌-◌, ◌≤◌, ◌<◌, ◌≡◌, refl, ap, List, [], ◌∷◌, ◌++◌, append_assoc, arith, ltb,
  if◌then◌else◌, length, length-append, take,
}
use durable_streams_referenc.Prelude.Text.{Bytes}
use durable_streams_referenc.Offset.{new}
use durable_streams_referenc.File.Record.{
  u32_max, to_le_bytes, from_le_bytes, to_u32, write_buf, MessageIndex,
}

-- The messages whose records lie wholly within the first `n` bytes.
abbrev pub whole : ℕ → List Bytes → List Bytes
whole n [] = []
whole n (z ∷ zs) = if ltb n (4 + length z) then [] else z ∷ whole (n - (4 + length z)) zs

pub whole-torn : (n : ℕ) (z : Bytes) (zs : List Bytes) → n < 4 + length z → whole n (z ∷ zs) ≡ []
whole-torn n z zs h = ground arith

pub whole-record :
    (m : ℕ) (z : Bytes) (zs : List Bytes)
    → length z ≤ m
    → whole (suc (suc (suc (suc m)))) (z ∷ zs) ≡ z ∷ whole (m - length z) zs
whole-record m z zs h =
    let left : suc (suc (suc (suc m))) - (4 + length z) ≡ m - length z = omega arith in
    ground (arith, left)

-- The index of messages that lie one behind the other from a position on.
unfoldable pub index_from : (cursor read_seq byte_offset : ℕ) → List Bytes → List MessageIndex
index_from cursor s b [] = []
index_from cursor s b (z ∷ zs) =
    record { offset = new s b; file_pos = cursor + 4; byte_len = length z }
    ∷ index_from (cursor + 4 + length z) (suc s) (b + length z) zs

-- A message's length fits the header of its record.
abbrev pub IsShort : Bytes → Type 0
IsShort z = length z ≤ u32_max

pub from_le_bytes-to_le_bytes : (n : ℕ) → n ≤ u32_max → from_le_bytes (to_le_bytes n) ≡ n
unfolding from_le_bytes to_le_bytes
from_le_bytes-to_le_bytes n h = omega arith

pub to_u32_exact : (n : ℕ) → n ≤ u32_max → to_u32 n ≡ n
unfolding to_u32
to_u32_exact n h = ground arith

pub take-append_ge :
    (n : ℕ) (xs ys : Bytes) → length xs ≤ n → take n (xs ++ ys) ≡ xs ++ take (n - length xs) ys
take-append_ge n [] ys h = let same : n - 0 ≡ n = omega arith in rw same
take-append_ge zero (x ∷ xs) ys h = absurd (omega arith)
take-append_ge (suc n) (x ∷ xs) ys h =
    let same : suc n - suc (length xs) ≡ n - length xs = omega arith in
    rw same (ap (λ t. x ∷ t) (take-append_ge n xs ys (omega arith)))

pub length-take_append : (n : ℕ) (xs ys : Bytes) → n < length xs → length (take n (xs ++ ys)) ≡ n
length-take_append n [] ys h = absurd (omega arith)
length-take_append zero (x ∷ xs) ys h = refl
length-take_append (suc n) (x ∷ xs) ys h = ap suc (length-take_append n xs ys (omega arith))

pub take-write_buf_nil : (n : ℕ) → take n (write_buf []) ≡ []
unfolding write_buf
take-write_buf_nil zero = refl
take-write_buf_nil (suc n) = refl

pub write_buf_cons :
    (z : Bytes) (zs : List Bytes)
    → IsShort z
    → write_buf (z ∷ zs) ≡ to_le_bytes (length z) ++ (z ++ write_buf zs)
unfolding write_buf
write_buf_cons z zs short = rw (to_u32_exact (length z) short)

-- The bytes of a message's record.
abbrev pub record_of : Bytes → Bytes
record_of z = to_le_bytes (length z) ++ z

pub length-record_of : (z : Bytes) → length (record_of z) ≡ 4 + length z
unfolding to_le_bytes
length-record_of z = omega arith

pub header_lem :
    (m : ℕ) (z : Bytes) (zs : List Bytes)
    → IsShort z
    → take 4 (take (suc (suc (suc (suc m)))) (write_buf (z ∷ zs))) ≡ to_le_bytes (length z)
unfolding to_le_bytes
header_lem m z zs short = rw (write_buf_cons z zs short) refl

pub length-header :
    (m : ℕ) (z : Bytes) (zs : List Bytes)
    → IsShort z
    → m < length z
    → length (take (suc (suc (suc (suc m)))) (write_buf (z ∷ zs))) ≡ 4 + m
unfolding to_le_bytes
length-header m z zs short h =
    rw (write_buf_cons z zs short)
      (let cut = length-take_append m z (write_buf zs) h in omega (arith, cut))

pub take-record :
    (m : ℕ) (z : Bytes) (zs : List Bytes)
    → IsShort z
    → length z ≤ m
    → take (suc (suc (suc (suc m)))) (write_buf (z ∷ zs))
      ≡ record_of z ++ take (m - length z) (write_buf zs)
unfolding to_le_bytes
take-record m z zs short h =
    rw (write_buf_cons z zs short)
      (ap (λ t. to_le_bytes (length z) ++ t) (take-append_ge m z (write_buf zs) h))

pub write_buf-append : (xs ys : List Bytes) → write_buf (xs ++ ys) ≡ write_buf xs ++ write_buf ys
unfolding write_buf
write_buf-append [] ys = refl
write_buf-append (x ∷ xs) ys = ground (
  arith,
  write_buf-append xs ys,
  append_assoc x (write_buf xs) (write_buf ys),
  append_assoc (to_le_bytes (to_u32 (length x))) (x ++ write_buf xs) (write_buf ys),
)

length-write_buf_cons :
    (x : Bytes) (xs : List Bytes)
    → length (write_buf (x ∷ xs)) ≡ 4 + length x + length (write_buf xs)
unfolding write_buf to_le_bytes
length-write_buf_cons x xs = let l = length-append x (write_buf xs) in omega (arith, l)

-- The records of some messages are whole in a file that goes on behind them.
pub whole-append :
    (n : ℕ) (xs ys : List Bytes) → whole (length (write_buf xs) + n) (xs ++ ys) ≡ xs ++ whole n ys
unfolding write_buf
whole-append n [] ys = let same : 0 + n ≡ n = omega arith in rw same
whole-append n (x ∷ xs) ys =
    let l = length-write_buf_cons x xs in
    let behind : length (write_buf (x ∷ xs)) + n - (4 + length x) ≡ length (write_buf xs) + n =
      omega (arith, l) in
    let inside : 4 + length x ≤ length (write_buf (x ∷ xs)) + n = omega (arith, l) in
    ground (arith, behind, inside, whole-append n xs ys)
