-- ===== src/Offset/RoundTrip.antt =====
-- The text of an offset and its parser are inverse to one another.
pub mod Digits
use native.Mathlib.Nat.{div-eq_of_lt}
use durable_streams_referenc.Prelude.{
  ℕ, zero, suc, ◌+◌, ◌-◌, ◌^◌, ◌≤◌, ◌<◌, ◌/◌, ◌≡◌, ◌≢◌, subst, append-nil, refl, ap, sym, ◌∙◌, Bool,
  true, false, Option, none, some, List, [], ◌∷◌, ◌++◌, arith, ◌==◌, ==_iff, Option-cases,
  Bool-cases, inl, inr, length, length-append, get_elem?, take, drop, take-append_length,
  drop-append_length, length-drop,
}
use durable_streams_referenc.Prelude.Text.{Text, Bytes, text_eq, text_eq_iff}
use durable_streams_referenc.Prelude.Word.{u64_mod, IsU64}
use durable_streams_referenc.Error.{Result, ok, err}
use durable_streams_referenc.Offset.{
  Offset, start, now, concrete, start_text, now_text, as_str, from_str, check_byte, check_bytes,
  parse_bytes, ok_or, failed_to_parse,
}
use durable_streams_referenc.Offset.Hex.{
  encode_hex, encode_offset, hex_digit, decode_hex, decode_hex_16,
}
use Digits.{
  length-encode_hex, decode_hex-encode_hex, encode_hex-decode_hex, IsHexByte, IsHex,
  encode_hex-IsHex,
}

-- What `Offset::new` and `from_str` build: a sentinel, or two words with their canonical text.
pub data IsCanonical : Offset → Type 0 where
  at_start : IsCanonical start
  at_now : IsCanonical now
  at_position :
      {read_seq byte_offset : ℕ} {raw : Bytes}
      → IsU64 read_seq
      → IsU64 byte_offset
      → raw ≡ encode_offset read_seq byte_offset
      → IsCanonical (concrete read_seq byte_offset raw)

check_byte-IsHexByte : (s : Text) (i b : ℕ) → IsHexByte b → check_byte s i b ≡ ok tt
unfolding check_byte hex_digit
check_byte-IsHexByte s i b h = ground arith

check_bytes-IsHex :
    (s : Text) (i : ℕ) (xs ys : Bytes)
    → IsHex xs
    → check_bytes s (length xs + i) ys ≡ ok tt
    → check_bytes s i (xs ++ ys) ≡ ok tt
unfolding check_bytes
check_bytes-IsHex s i [] ys h e = let here : 0 + i ≡ i = omega arith in rw here at e
check_bytes-IsHex s i (x ∷ xs) ys h e =
    let there : suc (length xs) + i ≡ length xs + suc i = omega arith in
    rw (check_bytes, check_byte-IsHexByte s i x h.0)
      (check_bytes-IsHex s (suc i) xs ys h.1 (rw there at e))

check_bytes-IsHex_all : (s : Text) (i : ℕ) (xs : Bytes) → IsHex xs → check_bytes s i xs ≡ ok tt
check_bytes-IsHex_all s i xs h =
    subst (λ t. check_bytes s i t ≡ ok tt) (append-nil xs)
      (check_bytes-IsHex s i xs [] h (unfold check_bytes in refl))

-- The text of two words passes the tests of the loop.
check_bytes-encode_offset : (s : Text) (a b : ℕ) → check_bytes s 0 (encode_offset a b) ≡ ok tt
unfolding encode_offset check_bytes check_byte
check_bytes-encode_offset s a b =
    check_bytes-IsHex s 0 (encode_hex 16 a) (b'_' ∷ encode_hex 16 b) (encode_hex-IsHex 16 a) (
      rw (length-encode_hex 16 a)
        (check_bytes-IsHex_all s 17 (encode_hex 16 b) (encode_hex-IsHex 16 b)))

decode_hex_16-encode_hex : (v : ℕ) → IsU64 v → decode_hex_16 (encode_hex 16 v) ≡ some v
unfolding decode_hex_16
decode_hex_16-encode_hex v h =
    let top : v / 16 ^ 16 ≡ 0 = div-eq_of_lt h in
    rw (length-encode_hex 16 v) (rw top at (decode_hex-encode_hex 16 v h))

encode_hex-decode_hex_16 :
    (bytes : Bytes) (v : ℕ) → decode_hex_16 bytes ≡ some v → (encode_hex 16 v ≡ bytes) × IsU64 v
unfolding decode_hex_16
encode_hex-decode_hex_16 bytes v e = elim (Bool-cases (length bytes == 16)) [
  | inl long ↦
      let l : length bytes ≡ 16 = (==_iff _ 16).0 long in
      let e' : decode_hex bytes 0 ≡ some v = rw long at e in
      let (text, _, fits) = encode_hex-decode_hex bytes 0 v (rw l (omega arith)) e' in
      (rw l at text, fits)
  | inr short ↦ cc (rw short at e)
]

pub length-encode_offset : (a b : ℕ) → length (encode_offset a b) ≡ 33
unfolding encode_offset
length-encode_offset a b = omega (
  arith,
  length-append (encode_hex 16 a) (b'_' ∷ encode_hex 16 b),
  length-encode_hex 16 a,
  length-encode_hex 16 b,
)

-- The parts of the text that the parser cuts out.
separator-encode_offset : (a b : ℕ) → get_elem? (encode_offset a b) 16 ≡ some b'_'
unfolding encode_offset encode_hex
separator-encode_offset a b = refl

take-encode_offset : (a b : ℕ) → take 16 (encode_offset a b) ≡ encode_hex 16 a
unfolding encode_offset encode_hex
take-encode_offset a b = refl

drop-encode_offset : (a b : ℕ) → drop 17 (encode_offset a b) ≡ encode_hex 16 b
unfolding encode_offset encode_hex
drop-encode_offset a b = refl

parse_bytes-encode_offset :
    (a b : ℕ)
    → IsU64 a
    → IsU64 b
    → parse_bytes (encode_offset a b) ≡ ok (concrete a b (encode_offset a b))
unfolding parse_bytes ok_or
parse_bytes-encode_offset a b ha hb = rw (
  length-encode_offset a b,
  separator-encode_offset a b,
  check_bytes-encode_offset (encode_offset a b) a b,
  take-encode_offset a b,
  drop-encode_offset a b,
  decode_hex_16-encode_hex a ha,
  decode_hex_16-encode_hex b hb,
)

-- A text of 33 bytes is no sentinel.
pub text_eq-length : (s t : Text) → length s ≢ length t → text_eq s t ≡ false
text_eq-length s t h = elim (Bool-cases (text_eq s t)) [
  | inl same ↦ absurd (h (ap length ((text_eq_iff s t).0 same)))
  | inr other ↦ other
]

-- Parsing the text of a canonical offset gives the offset back.
pub from_str-as_str : (o : Offset) → IsCanonical o → from_str (as_str o) ≡ ok o
unfolding from_str as_str text_eq
from_str-as_str start at_start = refl
from_str-as_str now at_now = refl
from_str-as_str (concrete a b raw) (at_position ha hb e) =
    let l = length-encode_offset a b in
    rw
      (
        e,
        text_eq-length (encode_offset a b) start_text (omega arith),
        text_eq-length (encode_offset a b) now_text (omega arith),
      )
      (parse_bytes-encode_offset a b ha hb)

get_elem?-split :
    (n x : ℕ) (xs : Bytes) → get_elem? xs n ≡ some x → take n xs ++ x ∷ drop (suc n) xs ≡ xs
get_elem?-split n x [] h = cc
get_elem?-split zero x (y ∷ ys) h = let same : x ≡ y = ground arith in ap (λ t. t ∷ ys) same
get_elem?-split (suc n) x (y ∷ ys) h = ap (λ t. y ∷ t) (get_elem?-split n x ys h)

-- What is known once the parser has taken both words.
from_words :
    (s : Text) (a b : ℕ)
    → get_elem? s 16 ≡ some b'_'
    → decode_hex_16 (take 16 s) ≡ some a
    → decode_hex_16 (drop 17 s) ≡ some b
    → IsCanonical (concrete a b (encode_offset a b)) × (encode_offset a b ≡ s)
unfolding encode_offset
from_words s a b h ea eb =
    let (ta, fa) = encode_hex-decode_hex_16 (take 16 s) a ea in
    let (tb, fb) = encode_hex-decode_hex_16 (drop 17 s) b eb in
    (at_position fa fb refl, rw (ta, tb) (get_elem?-split 16 b'_' s h))

parse_bytes-separator : (s : Text) (o : Offset) → parse_bytes s ≡ ok o → get_elem? s 16 ≡ some b'_'
unfolding parse_bytes
parse_bytes-separator s o e = ground arith

module _ (s : Text) (o : Offset) (e : parse_bytes s ≡ ok o) where
  parse_bytes-first : decode_hex_16 (take 16 s) ≢ none
  unfolding parse_bytes ok_or
  parse_bytes-first h = ground arith

  parse_bytes-second : decode_hex_16 (drop 17 s) ≢ none
  unfolding parse_bytes ok_or
  parse_bytes-second h = ground arith

  parse_bytes-words :
      (a b : ℕ)
      → decode_hex_16 (take 16 s) ≡ some a
      → decode_hex_16 (drop 17 s) ≡ some b
      → concrete a b (encode_offset a b) ≡ o
  unfolding parse_bytes ok_or
  parse_bytes-words a b ea eb = ground arith

  parse_bytes-IsCanonical : IsCanonical o × (as_str o ≡ s)
  parse_bytes-IsCanonical = elim (Option-cases (decode_hex_16 (take 16 s))) [
    | inl bad ↦ absurd (parse_bytes-first bad)
    | inr (a, ea) ↦ elim (Option-cases (decode_hex_16 (drop 17 s))) [
      | inl bad ↦ absurd (parse_bytes-second bad)
      | inr (b, eb) ↦
          subst (λ t. IsCanonical t × (as_str t ≡ s)) (parse_bytes-words a b ea eb)
            (unfold as_str in (from_words s a b (parse_bytes-separator s o e) ea eb))
    ]
  ]

sentinel-IsCanonical :
    (s t : Text) (o p : Offset)
    → text_eq s t ≡ true
    → ok p ≡ ok o
    → IsCanonical p
    → as_str p ≡ t
    → IsCanonical o × (as_str o ≡ s)
sentinel-IsCanonical s t o p same e c text =
    let e' : p ≡ o = ground arith in
    (subst IsCanonical e' c, cc (e', text, (text_eq_iff s t).0 same))

-- Whatever the parser accepts is canonical, and its text is the text that was parsed.
pub as_str-from_str : (s : Text) (o : Offset) → from_str s ≡ ok o → IsCanonical o × (as_str o ≡ s)
unfolding from_str as_str
as_str-from_str s o e = elim (Bool-cases (text_eq s start_text)) [
  | inl first ↦ sentinel-IsCanonical s start_text o start first (rw first at e) at_start refl
  | inr other ↦ elim (Bool-cases (text_eq s now_text)) [
    | inl last ↦ sentinel-IsCanonical s now_text o now last (rw (other, last) at e) at_now refl
    | inr neither ↦ parse_bytes-IsCanonical s o (rw (other, neither) at e)
  ]
]
