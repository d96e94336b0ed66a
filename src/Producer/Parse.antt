-- ===== src/Producer/Parse.antt =====
-- What the parser of the producer headers accepts, src/protocol/producer.rs.
use durable_streams_referenc.Prelude.{
  ℕ, ◌≤◌, ◌<◌, ◌≡◌, ◌≢◌, refl, sym, ap, ◌∙◌, ◌↔◌, ◌⊎◌, inl, inr, false, Option, none, some, [], ◌∷◌,
  arith, Bool-cases, ◌==◌, ==_iff,
}
use durable_streams_referenc.Prelude.Text.{Text}
use durable_streams_referenc.Prelude.Word.{u64_mod}
use durable_streams_referenc.Prelude.Decimal.{
  number, parse_digits, parse_unsigned, parse_u64, to_string,
}
use durable_streams_referenc.Prelude.Decimal.Canonical.{
  has_leading_zero, to_string-parse, IsNumeral, to_string-IsNumeral, parse_digits-to_string,
}
use durable_streams_referenc.Error.{ok}
use durable_streams_referenc.Producer.{
  Headers, ProducerHeaders, max_safe_integer, parse_non_negative_int, parse_producer_headers,
  producer_id, producer_epoch, producer_seq, match_headers, parse_all,
}

-- A text that stands for a number: the number's own text, or a plus sign and then digits, zeros in
-- front included.
abbrev pub Denotes : Text → ℕ → Type 0
Denotes value n =
    (value ≡ to_string n)
    ⊎ ((s : Text) × (value ≡ b'+' ∷ s) × (s ≢ []) × (parse_digits s 0 ≡ number n))

parse_u64-Denotes :
    (value : Text) (n : ℕ)
    → has_leading_zero value ≡ false
    → parse_u64 value ≡ number n
    → Denotes value n
unfolding parse_u64
parse_u64-Denotes [] n plain h = cc
parse_u64-Denotes (c ∷ s) n plain h = elim (Bool-cases (c == b'+')) [
  | inl plus ↦
      let (some_digit, digits) = signed s n (rw plus at h) in
      inr (s, ap (λ t. t ∷ s) ((==_iff c b'+').0 plus), some_digit, digits)
  | inr no_sign ↦ inl (sym (to_string-parse (c ∷ s) n (λ e. cc) plain (rw no_sign at h)).0)
]
  where
    signed :
        (s : Text) (n : ℕ) → parse_unsigned s ≡ number n → (s ≢ []) × (parse_digits s 0 ≡ number n)
    signed [] n h = cc
    signed (c ∷ s) n h = (λ e. cc, h)

parse_u64-IsNumeral : (s : Text) → IsNumeral s → parse_u64 s ≡ parse_digits s 0
unfolding parse_u64
parse_u64-IsNumeral [] h = absurd (h.some_digit refl)
parse_u64-IsNumeral (c ∷ s) h = ground (arith, h.digits.0)

parse_unsigned-digits : (s : Text) → s ≢ [] → parse_unsigned s ≡ parse_digits s 0
unfolding parse_unsigned
parse_unsigned-digits [] h = absurd (h refl)
parse_unsigned-digits (c ∷ s) h = refl

Denotes-parse_u64 :
    (value : Text) (n : ℕ)
    → n < u64_mod
    → Denotes value n
    → (has_leading_zero value ≡ false) × (parse_u64 value ≡ number n)
unfolding parse_u64
Denotes-parse_u64 value n h (inl e) =
    let own = to_string-IsNumeral n h in
    rw e (own.plain, parse_u64-IsNumeral (to_string n) own ∙ parse_digits-to_string n h)
Denotes-parse_u64 value n h (inr (s, e, some_digit, digits)) =
    rw e (ground arith, parse_unsigned-digits s some_digit ∙ digits)

accepted_number :
    (value name : Text) (n : ℕ)
    → parse_non_negative_int value name ≡ ok n
    → (has_leading_zero value ≡ false) × (parse_u64 value ≡ number n) × (n ≤ max_safe_integer)
unfolding parse_non_negative_int
accepted_number value name n h = ground arith

number_accepted :
    (value name : Text) (n : ℕ)
    → has_leading_zero value ≡ false
    → parse_u64 value ≡ number n
    → n ≤ max_safe_integer
    → parse_non_negative_int value name ≡ ok n
unfolding parse_non_negative_int
number_accepted value name n plain h k = rw (plain, h) (ground arith)

-- A header's value is taken as a number exactly when the text stands for it, as the number's own
-- text or as a plus sign with digits behind it, and it does not exceed 2^53 - 1.
pub parse_non_negative_int_iff :
    (value name : Text) (n : ℕ)
    → (parse_non_negative_int value name ≡ ok n) ↔ (Denotes value n × (n ≤ max_safe_integer))
parse_non_negative_int_iff value name n = (
  λ h.
      let (plain, parsed, small) = accepted_number value name n h in
      (parse_u64-Denotes value n plain parsed, small),
  λ (d, small).
      let (plain, parsed) = Denotes-parse_u64 value n (omega arith) d in
      number_accepted value name n plain parsed small,
)

-- What the three headers give when the parser accepts them.
abbrev pub Given : Headers → ProducerHeaders → Type 0
Given headers p =
    (headers producer_id ≡ some p.id)
    × (p.id ≢ [])
    × ((value : Text) × (headers producer_epoch ≡ some value) × Denotes value p.epoch)
    × ((value : Text) × (headers producer_seq ≡ some value) × Denotes value p.seq)
    × (p.epoch ≤ max_safe_integer)
    × (p.seq ≤ max_safe_integer)

-- The same at the values of the headers.
abbrev Holds : Text → Text → Text → ProducerHeaders → Type 0
Holds id epoch_str seq_str p =
    (id ≡ p.id)
    × (p.id ≢ [])
    × (parse_non_negative_int epoch_str producer_epoch ≡ ok p.epoch)
    × (parse_non_negative_int seq_str producer_seq ≡ ok p.seq)

parse_all_sound :
    (id epoch_str seq_str : Text) (p : ProducerHeaders)
    → parse_all id epoch_str seq_str ≡ ok (some p)
    → Holds id epoch_str seq_str p
unfolding parse_all
parse_all_sound [] epoch_str seq_str p h = cc
parse_all_sound (c ∷ id) epoch_str seq_str p h = ground arith

parse_all_complete :
    (id epoch_str seq_str : Text) (p : ProducerHeaders)
    → Holds id epoch_str seq_str p
    → parse_all id epoch_str seq_str ≡ ok (some p)
unfolding parse_all
parse_all_complete [] epoch_str seq_str p h = absurd (h.1 (sym h.0))
parse_all_complete (c ∷ id) epoch_str seq_str p h = rw (h.2, h.3) (ground (arith, h.0))

match_headers-some :
    (id epoch_str seq_str : Option Text) (p : ProducerHeaders)
    → match_headers id epoch_str seq_str ≡ ok (some p)
    → (a b c : Text) × (id ≡ some a) × (epoch_str ≡ some b) × (seq_str ≡ some c) × Holds a b c p
unfolding match_headers
match_headers-some (some a) (some b) (some c) p h =
    let (same, some_id, e, q) = parse_all_sound a b c p h in
    (a, b, c, refl, refl, refl, (same, some_id, e, q))
match_headers-some none none none p h = ground arith
match_headers-some id epoch_str seq_str p h = ground arith

-- A request's producer is read as `p` exactly when all three headers are there, the id is not
-- empty, and the other two stand for the numbers of `p`, which do not exceed 2^53 - 1.
pub parse_producer_headers_iff :
    (headers : Headers) (p : ProducerHeaders)
    → (parse_producer_headers headers ≡ ok (some p)) ↔ Given headers p
unfolding parse_producer_headers
parse_producer_headers_iff headers p = (
  λ h.
      let (id, epoch, seq, ei, ee, es, (same, some_id, e, q)) =
        match_headers-some (headers producer_id) (headers producer_epoch) (headers producer_seq) p
          h in
      let (de, me) = (parse_non_negative_int_iff epoch producer_epoch p.epoch).0 e in
      let (ds, ms) = (parse_non_negative_int_iff seq producer_seq p.seq).0 q in
      (ei ∙ ap some same, some_id, (epoch, ee, de), (seq, es, ds), me, ms),
  λ g.
      let (ei, some_id, (epoch, ee, de), (seq, es, ds), me, ms) = g in
      rw (ei, ee, es)
        (parse_all_complete p.id epoch seq p (
          refl,
          some_id,
          (parse_non_negative_int_iff epoch producer_epoch p.epoch).1 (de, me),
          (parse_non_negative_int_iff seq producer_seq p.seq).1 (ds, ms),
        )),
)
