-- ===== src/Offset/Equality.antt =====
-- The equality and the hash of offsets, `PartialEq` and `Hash` in src/protocol/offset.rs.
use durable_streams_referenc.Prelude.{
  ℕ, ◌≡◌, refl, sym, ap, subst, ◌∙◌, ◌↔◌, ◌≢◌, true, false, [], ◌∷◌, arith, Ordering, length,
}
use durable_streams_referenc.Prelude.Text.{Text, text_eq, text_compare}
use durable_streams_referenc.Offset.{
  Offset, start, now, concrete, start_text, now_text, as_str, eq, cmp, hash,
}
use durable_streams_referenc.Offset.Hex.{encode_offset}
use durable_streams_referenc.Offset.RoundTrip.{
  IsCanonical, at_start, at_now, at_position, length-encode_offset, text_eq-length, from_str-as_str,
}
use durable_streams_referenc.Offset.Order.{cmp-as_str}

text_compare-eq : (a b : Text) → text_compare a b ≡ Ordering.eq → a ≡ b
unfolding text_compare
text_compare-eq [] [] h = refl
text_compare-eq [] (y ∷ ys) h = cc
text_compare-eq (x ∷ xs) [] h = cc
text_compare-eq (x ∷ xs) (y ∷ ys) h = ground (arith, text_compare-eq xs ys)

text_compare_self : (a : Text) → text_compare a a ≡ Ordering.eq
unfolding text_compare
text_compare_self [] = refl
text_compare_self (x ∷ xs) = ground (arith, text_compare_self xs)

-- A sentinel's text is no position's text.
sentinel_text :
    (t raw : Text) (a b : ℕ)
    → raw ≡ encode_offset a b
    → length t ≢ 33
    → (text_eq t raw ≡ false) × (text_eq raw t ≡ false)
sentinel_text t raw a b e short =
    let l : length raw ≡ 33 = ap length e ∙ length-encode_offset a b in
    (text_eq-length t raw (omega arith), text_eq-length raw t (omega arith))

eq_sound : (o p : Offset) → IsCanonical o → IsCanonical p → eq o p ≡ true → o ≡ p
unfolding eq text_eq
eq_sound (concrete a b r) (concrete c d s) (at_position ha hb e) (at_position hc hd f) h =
    let first : a ≡ c = ground arith in
    let second : b ≡ d = ground arith in cc (e, f, first, second)
eq_sound start start at_start at_start h = refl
eq_sound now now at_now at_now h = refl
eq_sound start now at_start at_now h = cc
eq_sound now start at_now at_start h = cc
eq_sound start (concrete a b r) at_start (at_position ha hb e) h =
    cc ((sentinel_text start_text r a b e (omega arith)).0)
eq_sound now (concrete a b r) at_now (at_position ha hb e) h =
    cc ((sentinel_text now_text r a b e (omega arith)).0)
eq_sound (concrete a b r) start (at_position ha hb e) at_start h =
    cc ((sentinel_text start_text r a b e (omega arith)).1)
eq_sound (concrete a b r) now (at_position ha hb e) at_now h =
    cc ((sentinel_text now_text r a b e (omega arith)).1)

eq_self : (o : Offset) → eq o o ≡ true
unfolding eq text_eq
eq_self start = refl
eq_self now = refl
eq_self (concrete a b r) = ground arith

pub as_str-injective : (o p : Offset) → IsCanonical o → IsCanonical p → as_str o ≡ as_str p → o ≡ p
as_str-injective o p co cp e = cc (from_str-as_str o co, from_str-as_str p cp, e)

-- On the offsets that the program builds, `==` is equality, the order answers `Equal` exactly on
-- equal offsets, and equal offsets are hashed alike.
pub eq_iff :
    (o p : Offset)
    → IsCanonical o
    → IsCanonical p
    → ((eq o p ≡ true) ↔ (o ≡ p))
      × ((cmp o p ≡ Ordering.eq) ↔ (o ≡ p))
      × (eq o p ≡ true → hash o ≡ hash p)
eq_iff o p co cp = (
  (eq_sound o p co cp, λ e. subst (λ t. eq o t ≡ true) e (eq_self o)),
  (
    λ h.
        as_str-injective o p co cp
          (text_compare-eq (as_str o) (as_str p) (sym (cmp-as_str o p co cp) ∙ h)),
    λ e.
        cmp-as_str o p co cp
        ∙ subst (λ t. text_compare (as_str o) (as_str t) ≡ Ordering.eq) e
            (text_compare_self (as_str o)),
  ),
  λ h. ap hash (eq_sound o p co cp h),
)
