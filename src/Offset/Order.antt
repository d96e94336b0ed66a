-- ===== src/Offset/Order.antt =====
-- The order of offsets is the order of their texts, and the sentinels bound all positions.
use native.Mathlib.Nat.{div-one, div-lt_iff_lt-mul, div-mul-le_self}
use mathlib.Core.Path.{subst₂}
use durable_streams_referenc.Prelude.{
  ℕ, zero, suc, ◌*◌, ◌/◌, ◌%◌, ◌^◌, ◌<◌, ◌≡◌, refl, sym, ◌∙◌, [], ◌∷◌, ◌++◌, append-nil, arith,
  Ordering, compare,
}
use durable_streams_referenc.Prelude.Text.{Text, text_compare}
use durable_streams_referenc.Prelude.Word.{IsU64}
use durable_streams_referenc.Offset.{Offset, start, now, concrete, as_str, compare_pair, cmp, new}
use durable_streams_referenc.Offset.Hex.{hex_char, encode_hex, encode_offset}
use durable_streams_referenc.Offset.RoundTrip.{IsCanonical, at_start, at_now, at_position}
use durable_streams_referenc.Offset.RoundTrip.Digits.{shift_step, pow-pos}

-- A comparison that goes on to a second one where the first finds no difference.
abbrev then_compare : Ordering → Ordering → Ordering
then_compare Ordering.lt r = Ordering.lt
then_compare Ordering.eq r = r
then_compare Ordering.gt r = Ordering.gt

text_compare-cons :
    (x y : ℕ) (xs ys : Text)
    → text_compare (x ∷ xs) (y ∷ ys) ≡ then_compare (compare x y) (text_compare xs ys)
unfolding text_compare
text_compare-cons x y xs ys = ground arith

compare-hex_char : (d e : ℕ) → d < 16 → e < 16 → compare (hex_char d) (hex_char e) ≡ compare d e
unfolding hex_char
compare-hex_char d e hd he = ground arith

compare_self : (n : ℕ) → compare n n ≡ Ordering.eq
compare_self n = ground arith

lt_of_quotients : (k v w : ℕ) → v / 16 ^ k < w / 16 ^ k → v < w
lt_of_quotients k v w h =
    let below : v < w / 16 ^ k * 16 ^ k = (div-lt_iff_lt-mul (pow-pos k)).0 h in
    omega (arith, div-mul-le_self w (16 ^ k))

-- Words that agree above their last `k` digits are ordered as those digits.
text_compare-encode_hex :
    (k v w : ℕ) (xs ys : Text)
    → v / 16 ^ k ≡ w / 16 ^ k
    → text_compare (encode_hex k v ++ xs) (encode_hex k w ++ ys)
      ≡ then_compare (compare v w) (text_compare xs ys)
unfolding encode_hex
text_compare-encode_hex zero v w xs ys h =
    let same : v ≡ w = sym (div-one v) ∙ h ∙ div-one w in rw (same, compare_self)
text_compare-encode_hex (suc k) v w xs ys h =
    let above : v / 16 ^ k / 16 ≡ w / 16 ^ k / 16 = sym (shift_step k v) ∙ h ∙ shift_step k w in
    text_compare-cons _ _ (encode_hex k v ++ xs) (encode_hex k w ++ ys)
    ∙ rw (compare-hex_char (v / 16 ^ k % 16) (w / 16 ^ k % 16) (omega arith) (omega arith)) (
        ground (
          arith,
          text_compare-encode_hex k v w xs ys,
          lt_of_quotients k v w,
          lt_of_quotients k w v,
        ))

-- Two words have no bit above their sixteen digits.
above_word : (v w : ℕ) → IsU64 v → IsU64 w → v / 16 ^ 16 ≡ w / 16 ^ 16
above_word v w hv hw = omega arith

then_compare-eq : (o : Ordering) → then_compare o Ordering.eq ≡ o
then_compare-eq Ordering.lt = refl
then_compare-eq Ordering.eq = refl
then_compare-eq Ordering.gt = refl

text_compare-word :
    (b d : ℕ) → IsU64 b → IsU64 d → text_compare (encode_hex 16 b) (encode_hex 16 d) ≡ compare b d
unfolding text_compare
text_compare-word b d hb hd =
    subst₂ (λ x y. text_compare x y ≡ compare b d) (append-nil (encode_hex 16 b))
      (append-nil (encode_hex 16 d))
      (text_compare-encode_hex 16 b d [] [] (above_word b d hb hd) ∙ then_compare-eq (compare b d))

text_compare-encode_offset :
    (a b c d : ℕ)
    → IsU64 a
    → IsU64 b
    → IsU64 c
    → IsU64 d
    → text_compare (encode_offset a b) (encode_offset c d) ≡ compare_pair (a, b) (c, d)
unfolding encode_offset compare_pair
text_compare-encode_offset a b c d ha hb hc hd =
    text_compare-encode_hex 16 a c (b'_' ∷ encode_hex 16 b) (b'_' ∷ encode_hex 16 d)
      (above_word a c ha hc)
    ∙ rw
        (
          text_compare-cons b'_' b'_' (encode_hex 16 b) (encode_hex 16 d),
          text_compare-word b d hb hd,
        )
        (ground arith)

-- The order of two canonical offsets is the byte order of their texts.
pub cmp-as_str :
    (o p : Offset) → IsCanonical o → IsCanonical p → cmp o p ≡ text_compare (as_str o) (as_str p)
unfolding cmp
cmp-as_str (concrete a b _) (concrete c d _) (at_position ha hb eo) (at_position hc hd ep) =
    rw (eo, ep) (sym (text_compare-encode_offset a b c d ha hb hc hd))
cmp-as_str _ _ at_start _ = refl
cmp-as_str _ _ at_now _ = refl
cmp-as_str _ _ _ at_start = refl
cmp-as_str _ _ _ at_now = refl

hex_char_bounds : (d : ℕ) → d < 16 → (b'-' < hex_char d) × (hex_char d < b'n')
unfolding hex_char
hex_char_bounds d h = ground arith

-- Every position lies after the start sentinel and before the tail sentinel.
pub cmp-sentinels :
    (a b : ℕ) → (cmp start (new a b) ≡ Ordering.lt) × (cmp (new a b) now ≡ Ordering.lt)
unfolding cmp new text_compare encode_offset encode_hex
cmp-sentinels a b = ground (arith, hex_char_bounds (a / 16 ^ 15 % 16))

pub cmp-start : (a b : ℕ) → cmp (new a b) start ≡ Ordering.gt
unfolding cmp new text_compare encode_offset encode_hex
cmp-start a b = ground (arith, hex_char_bounds (a / 16 ^ 15 % 16))
