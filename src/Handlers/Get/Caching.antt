-- ===== src/Handlers/Get/Caching.antt =====
-- src/handlers/get.rs with src/storage/memory.rs: what a 304 response means.
use durable_streams_referenc.Prelude.{
  ℕ, ◌+◌, ◌≡◌, ◌≢◌, refl, ap, sym, ◌∙◌, Bool, true, false, some, List, [], ◌∷◌, ◌++◌, arith, ◌↔◌,
  Bool-cases, inl, inr, ◌⊎◌, if◌then◌else◌, length, length-append, append-nil, append_assoc,
}
use durable_streams_referenc.Prelude.Text.{Bytes, Text}
use durable_streams_referenc.Prelude.Word.{IsU64}
use durable_streams_referenc.Prelude.Text.{text_eq, text_eq_iff, text_eq_self}
use durable_streams_referenc.Prelude.Dict.{lookup}
use durable_streams_referenc.Error.{Result, ok, err, ◌>>=◌}
use durable_streams_referenc.Http.{Response}
use durable_streams_referenc.Memory.{read, read_stream}
use durable_streams_referenc.Memory.Implementation.{memory_backend}
use durable_streams_referenc.Offset.{Offset, start, new, as_str}
use durable_streams_referenc.Offset.RoundTrip.{IsCanonical, length-encode_offset, at_position}
use durable_streams_referenc.Offset.Equality.{as_str-injective}
use durable_streams_referenc.Storage.{DateTime, ReadResult, is_stream_expired}
use durable_streams_referenc.Memory.Entry.{StreamEntry, tail_offset}
use durable_streams_referenc.Memory.Methods.{read_held}
use durable_streams_referenc.Memory.Layout.{size, size-append, contents, IsValid}
use durable_streams_referenc.Memory.Resume.{read_held-start, read_held-resume, returning}
use durable_streams_referenc.Memory.Delivery.{tail_offset-IsValid}
use durable_streams_referenc.Handlers.Get.{
  Moment, closed_at_tail, generate_etag, matches, read_catch_up, build_304_response,
  build_data_response,
}

cancel_prefix : (xs : Text) {ys zs : Text} → xs ++ ys ≡ xs ++ zs → ys ≡ zs
cancel_prefix [] e = e
cancel_prefix (x ∷ xs) e = cancel_prefix xs (cc)

cancel_same_length :
    (xs ys : Text) {us vs : Text}
    → length xs ≡ length ys
    → xs ++ us ≡ ys ++ vs
    → (xs ≡ ys) × (us ≡ vs)
cancel_same_length [] [] l e = (refl, e)
cancel_same_length [] (y ∷ ys) l e = absurd (omega (arith, l))
cancel_same_length (x ∷ xs) [] l e = absurd (omega (arith, l))
cancel_same_length (x ∷ xs) (y ∷ ys) {us = us} {vs = vs} l e =
    let tails : xs ++ us ≡ ys ++ vs = cc in
    let (same, rest) = cancel_same_length xs ys (omega (arith, l)) tails in (cc, rest)

-- What stands behind the end offset in an entity tag.
abbrev etag_end : Bool → Text
etag_end closed = if closed then b':' ∷ b'c' ∷ b'"' ∷ [] else b'"' ∷ []

etag_end-injective : (a b : Bool) → etag_end a ≡ etag_end b → a ≡ b
etag_end-injective true true e = refl
etag_end-injective false false e = refl
etag_end-injective true false e = cc
etag_end-injective false true e = cc

generate_etag_lem :
    (start_offset : Text) (r : ReadResult)
    → generate_etag start_offset r
      ≡ (b'"' ∷ start_offset) ++ (b':' ∷ (as_str r.next_offset ++ etag_end (closed_at_tail r)))
unfolding generate_etag
generate_etag_lem start_offset r = elim (Bool-cases (closed_at_tail r)) [
  | inl at_end ↦
      rw at_end (append_assoc (b'"' ∷ start_offset) (b':' ∷ as_str r.next_offset) (etag_end true))
  | inr before ↦
      rw before (append_assoc (b'"' ∷ start_offset) (b':' ∷ as_str r.next_offset) (etag_end false))
]

length-as_str : (a b : ℕ) → length (as_str (new a b)) ≡ 33
unfolding as_str new
length-as_str a b = length-encode_offset a b

new-IsCanonical : (a b : ℕ) → IsU64 a → IsU64 b → IsCanonical (new a b)
unfolding new
new-IsCanonical a b ha hb = at_position ha hb refl

module _ (a b c d : ℕ) (ha : IsU64 a) (hb : IsU64 b) (hc : IsU64 c) (hd : IsU64 d)
    (start_offset : Text) (r r' : ReadResult) (here : r.next_offset ≡ new a b)
    (there : r'.next_offset ≡ new c d) where
  -- Equal entity tags of two reads from one offset name one end, and both or neither of the reads
  -- is at the end of a closed stream.
  generate_etag-injective :
      generate_etag start_offset r ≡ generate_etag start_offset r'
      → (new a b ≡ new c d) × (closed_at_tail r ≡ closed_at_tail r')
  generate_etag-injective e =
      let whole = sym (generate_etag_lem start_offset r) ∙ e ∙ generate_etag_lem start_offset r' in
      let ends = cancel_prefix (b':' ∷ []) (cancel_prefix (b'"' ∷ start_offset) whole) in
      let ends' : as_str (new a b) ++ etag_end (closed_at_tail r)
          ≡ as_str (new c d) ++ etag_end (closed_at_tail r') =
        rw (here, there) at ends in
      let (offsets, flags) =
        cancel_same_length (as_str (new a b)) (as_str (new c d))
          (length-as_str a b ∙ sym (length-as_str c d)) ends' in
      (
        as_str-injective (new a b) (new c d) (new-IsCanonical a b ha hb) (new-IsCanonical c d hc hd)
            offsets,
        etag_end-injective (closed_at_tail r) (closed_at_tail r') flags,
      )

no_more : (more : List Bytes) → length more ≡ 0 → more ≡ []
no_more [] e = refl
no_more (x ∷ more) e = absurd (omega (arith, e))

abbrev pub status_of : Result Response → Result ℕ
status_of r = do response ← r; ok response.status

status_in : Result ℕ → ℕ
status_in (ok n) = n
status_in (err e) = 0

other_status : ◌≢◌ {A = Result ℕ} (ok 200) (ok 304)
unfolding status_in
other_status h = let same : 200 ≡ 304 = ap status_in h in omega (arith, same)

differing : (s t : Text) → text_eq s t ≡ false → s ≢ t
differing s t differ e = cc (rw e at differ, text_eq_self t)

tag_of : Text → Result ReadResult → Text
tag_of raw_offset (ok r) = generate_etag raw_offset r
tag_of raw_offset (err e) = []

-- The offset of a read behind these messages: the pair of their number and their size, or the start
-- sentinel, if there are none.
abbrev pub Stands : Offset → List Bytes → Type 0
Stands from seen = (from ≡ new (length seen) (size seen)) ⊎ ((from ≡ start) × (seen ≡ []))

read_held-Stands :
    (from : Offset) (seen rest : List Bytes) (time : DateTime) (e : StreamEntry)
    → Stands from seen
    → IsValid e
    → is_stream_expired e.config time ≡ false
    → contents e ≡ seen ++ rest
    → read_held from time e ≡ ok (returning rest e)
read_held-Stands from seen rest time e (inl behind) v live had =
    rw behind (read_held-resume time e v live seen rest had)
read_held-Stands from seen rest time e (inr (at_start, nothing)) v live had =
    let all : contents e ≡ rest = rw nothing at had in
    rw at_start (read_held-start time e v live ∙ ap (λ ms. ok (returning ms e)) all)

module _ (name : Text) (from : Offset) (seen rest more : List Bytes) (stands : Stands from seen)
    (e e' : StreamEntry) (v : IsValid e) (v' : IsValid e') (had : contents e ≡ seen ++ rest)
    (has : contents e' ≡ seen ++ rest ++ more) (time : DateTime)
    (live : is_stream_expired e.config time ≡ false) (m : Moment memory_backend)
    (found : lookup name m.state.streams ≡ some e')
    (live' : is_stream_expired e'.config m.at.expiry ≡ false)
    (counts : IsU64 (length (contents e'))) (bytes : IsU64 (size (contents e'))) where
  first_read : read_held from time e ≡ ok (returning rest e)
  first_read = read_held-Stands from seen rest time e stands v live had

  second_read : read name from m.at.expiry m.state ≡ ok (returning (rest ++ more) e')
  unfolding read read_stream
  second_read =
      rw (read, read_stream, found)
        (read_held-Stands from seen (rest ++ more) m.at.expiry e' stands v' live'
          (has ∙ append_assoc seen rest more))

  lengths : length (contents e') ≡ length (contents e) + length more
  lengths = rw (has, had) (length-append (seen ++ rest) more)

  sizes : size (contents e') ≡ size (contents e) + size more
  sizes = rw (has, had) (size-append (seen ++ rest) more)

  same_result :
      (raw_offset : Text)
      → generate_etag raw_offset (returning rest e)
        ≡ generate_etag raw_offset (returning (rest ++ more) e')
      → returning (rest ++ more) e' ≡ returning rest e
  unfolding new tail_offset
  same_result raw_offset tags =
      let tail = tail_offset-IsValid e v in
      let tail' = tail_offset-IsValid e' v' in
      let (offsets, flags) =
        generate_etag-injective (length (contents e)) (size (contents e)) (length (contents e'))
          (size (contents e')) (omega (arith, lengths)) (omega (arith, sizes)) counts bytes
          raw_offset (returning rest e) (returning (rest ++ more) e') tail tail' tags in
      let count : length (contents e) ≡ length (contents e') = cc offsets in
      let none_more : more ≡ [] = no_more more (omega (arith, lengths)) in
      let closed : e'.closed ≡ e.closed = ground (arith, flags) in
      let tails : tail_offset e' ≡ tail_offset e = tail' ∙ sym offsets ∙ sym tail in
      rw (none_more, append-nil, closed, tails) refl

  answer :
      (raw_offset content_type tag : Text)
      → status_of (read_catch_up memory_backend name from raw_offset (some tag) content_type m) ≡ (
          if text_eq tag (generate_etag raw_offset (returning (rest ++ more) e'))
          then ok 304
          else ok 200)
  unfolding read_catch_up matches build_304_response build_data_response
  answer raw_offset content_type tag =
      let tag' = generate_etag raw_offset (returning (rest ++ more) e') in
      rw (read_catch_up, second_read)
        (elim (Bool-cases (text_eq tag tag')) [
          | inl same ↦ rw same refl
          | inr differ ↦ rw differ refl
        ])

  -- A catch-up request for a valid stream, from the start sentinel or from the offset behind some of its
  -- messages, with the entity tag of an earlier read from the same offset gets a 304 exactly when a
  -- read now returns the very result that the earlier one returned: no message was appended and the
  -- stream was not closed in between. (The stream was only appended to or closed, its counters have not
  -- wrapped around, and it has not expired.)
  pub read_catch_up-not_modified :
      (raw_offset content_type : Text) (r : ReadResult)
      → read_held from time e ≡ ok r
      → (status_of (
            read_catch_up memory_backend name from raw_offset
              (some (generate_etag raw_offset r))
              content_type
              m)
          ≡ ok 304)
        ↔ (read name from m.at.expiry m.state ≡ ok r)
  read_catch_up-not_modified raw_offset content_type r earlier =
      let r_is : r ≡ returning rest e = cc (earlier, first_read) in
      let tag = generate_etag raw_offset (returning rest e) in
      let tag' = generate_etag raw_offset (returning (rest ++ more) e') in
      rw (r_is, answer raw_offset content_type tag, second_read)
        (elim (Bool-cases (text_eq tag tag')) [
          | inl same ↦ (
            λ h. ap ok (same_result raw_offset ((text_eq_iff tag tag').0 same)),
            λ h. rw same refl,
          )
          | inr differ ↦ (
            λ h. absurd (other_status (rw differ at h)),
            λ h.
                absurd
                  (differing tag tag' differ (unfold tag_of in ap (tag_of raw_offset) (sym h))),
          )
        ])
