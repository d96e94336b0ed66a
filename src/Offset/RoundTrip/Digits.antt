-- ===== src/Offset/RoundTrip/Digits.antt =====
-- Sixteen digits and back, for every number of digits.
use native.Mathlib.Nat.{div-div-eq-div-mul, pow-suc, div-one, div-le_self, mul-le-mul_left}
use durable_streams_referenc.Prelude.{
  ℕ, zero, suc, ◌+◌, ◌*◌, ◌/◌, ◌%◌, ◌^◌, ◌≤◌, ◌<◌, ◌≡◌, ◌≢◌, refl, ap, sym, ◌∙◌, none, some, [],
  ◌∷◌, arith, length, All, Option-cases, inl, inr,
}
use durable_streams_referenc.Prelude.Text.{Bytes}
use durable_streams_referenc.Prelude.Word.{u64_mod, IsU64}
use durable_streams_referenc.Offset.Hex.{hex_char, encode_hex, hex_digit, decode_hex}

pub length-encode_hex : (k v : ℕ) → length (encode_hex k v) ≡ k
unfolding encode_hex
length-encode_hex zero v = refl
length-encode_hex (suc k) v = ap suc (length-encode_hex k v)

-- A byte is a digit in lower case.
abbrev pub IsHexByte : ℕ → Type 0
IsHexByte b = hex_digit b ≢ none

abbrev pub IsHex : Bytes → Type 0
IsHex = All IsHexByte

pub hex_digit-hex_char : (d : ℕ) → d < 16 → hex_digit (hex_char d) ≡ some d
unfolding hex_digit hex_char
hex_digit-hex_char d h = ground arith

pub hex_char-hex_digit : (b d : ℕ) → hex_digit b ≡ some d → (hex_char d ≡ b) × (d < 16)
unfolding hex_digit hex_char
hex_char-hex_digit b d h = ground arith

pub encode_hex-IsHex : (k v : ℕ) → IsHex (encode_hex k v)
unfolding encode_hex
encode_hex-IsHex zero v = tt
encode_hex-IsHex (suc k) v =
    (λ e. cc (e, hex_digit-hex_char (v / 16 ^ k % 16) (omega arith)), encode_hex-IsHex k v)

-- One more digit of the quotient.
pub shift_step : (k v : ℕ) → v / 16 ^ suc k ≡ v / 16 ^ k / 16
shift_step k v = rw (pow-suc, div-div-eq-div-mul)

word_step : (k v : ℕ) → IsU64 v → v / 16 ^ suc k * 16 % u64_mod + v / 16 ^ k % 16 ≡ v / 16 ^ k
word_step k v h = rw (shift_step k v) (omega (arith, div-le_self v (16 ^ k)))

decode_hex_digit :
    (b d : ℕ) (bytes : Bytes) (acc : ℕ)
    → hex_digit b ≡ some d
    → decode_hex (b ∷ bytes) acc ≡ decode_hex bytes (acc * 16 % u64_mod + d)
unfolding decode_hex
decode_hex_digit b d bytes acc h = rw (decode_hex, h)

decode_hex_bad :
    (b : ℕ) (bytes : Bytes) (acc : ℕ) → hex_digit b ≡ none → decode_hex (b ∷ bytes) acc ≡ none
unfolding decode_hex
decode_hex_bad b bytes acc h = rw (decode_hex, h)

-- The accumulator of the decoder is the number shifted by the digits that are left.
pub pow-pos : (n : ℕ) → 0 < 16 ^ n
pow-pos zero = omega arith
pow-pos (suc n) = omega (arith, pow-suc 16 n, pow-pos n)

pub decode_hex-encode_hex : (k v : ℕ) → IsU64 v → decode_hex (encode_hex k v) (v / 16 ^ k) ≡ some v
unfolding decode_hex encode_hex
decode_hex-encode_hex zero v h = ap some (div-one v)
decode_hex-encode_hex (suc k) v h =
    decode_hex_digit _ (v / 16 ^ k % 16) (encode_hex k v) _ (hex_digit-hex_char _ (omega arith))
    ∙ rw (word_step k v h) (decode_hex-encode_hex k v h)

-- The room that is left in the word after one more digit.
no_wrap : (p acc d : ℕ) → p * 16 * suc acc ≤ u64_mod → 0 < p → acc * 16 % u64_mod + d ≡ acc * 16 + d
no_wrap zero acc d h hp = absurd (omega arith)
no_wrap (suc q) acc d h hp = omega arith

room_step : (p acc d : ℕ) → p * 16 * suc acc ≤ u64_mod → d < 16 → p * suc (acc * 16 + d) ≤ u64_mod
room_step p acc d h hd = let digit : p * d ≤ p * 15 = mul-le-mul_left p (omega arith) in omega arith

pub encode_hex-decode_hex :
    (bytes : Bytes) (acc v : ℕ)
    → 16 ^ length bytes * suc acc ≤ u64_mod
    → decode_hex bytes acc ≡ some v
    → (encode_hex (length bytes) v ≡ bytes) × (v / 16 ^ length bytes ≡ acc) × IsU64 v
unfolding decode_hex encode_hex
encode_hex-decode_hex [] acc v h e =
    let same : acc ≡ v = ground arith in (refl, div-one v ∙ sym same, omega arith)
encode_hex-decode_hex (b ∷ bytes) acc v h e = elim (Option-cases (hex_digit b)) [
  | inl bad ↦ cc (decode_hex_bad b bytes acc bad)
  | inr (d, good) ↦
      let p = 16 ^ length bytes in
      let h' : p * 16 * suc acc ≤ u64_mod = rw pow-suc at h in
      let (char, small) = hex_char-hex_digit b d good in
      let exact = no_wrap p acc d h' (pow-pos (length bytes)) in
      let (text, top, fits) =
        encode_hex-decode_hex bytes (acc * 16 % u64_mod + d) v
          (rw exact (room_step p acc d h' small)) (sym (decode_hex_digit b d bytes acc good) ∙ e) in
      let value : v / p ≡ acc * 16 + d = top ∙ exact in
      let low : v / p % 16 ≡ d = omega arith in
      let high : v / p / 16 ≡ acc = omega arith in
      (cc (low, char, text), shift_step (length bytes) v ∙ high, fits)
]
