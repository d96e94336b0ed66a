-- ===== src/Memory/Layout.antt =====
-- The log of a stream: where its messages lie, and the entries whose counters agree with it.
use durable_streams_referenc.Prelude.{
  ℕ, suc, ◌+◌, ◌<◌, ◌≡◌, refl, ap, ◌∙◌, List, [], ◌∷◌, ◌++◌, map, arith, length, length-append,
  append-nil, append_assoc, map-append,
}
use durable_streams_referenc.Prelude.Text.{Bytes}
use durable_streams_referenc.Prelude.Word.{u64_mod, u64_add_exact, to_u64_exact}
use durable_streams_referenc.Offset.{new}
use durable_streams_referenc.Storage.{Message, byte_len_of, new_message, StreamConfig, DateTime}
use durable_streams_referenc.Memory.Entry.{
  StreamEntry, new_entry, tail_offset, batch_bytes, push_message, push_messages,
}

-- The bytes of a list of messages together.
unfoldable pub size : List Bytes → ℕ
size [] = 0
size (body ∷ messages) = length body + size messages

-- The messages that lie one behind the other from a position on.
unfoldable pub layout : ℕ → ℕ → List Bytes → List Message
layout read_seq byte_offset [] = []
layout read_seq byte_offset (body ∷ messages) =
    record { offset = new read_seq byte_offset; body = body; byte_len = length body }
    ∷ layout (suc read_seq) (byte_offset + length body) messages

-- What a client sees of the log: the bodies, in order.
abbrev pub bodies : List Message → List Bytes
bodies = map (λ (m : Message). m.body)

abbrev pub contents : StreamEntry → List Bytes
contents e = bodies e.messages

-- The messages lie one behind the other from the first position on, and each counter has the
-- value that they give it.
pub record IsValid (e : StreamEntry) : Type 0 where
  pub laid_out : e.messages ≡ layout 0 0 (contents e)
  pub counted : e.next_read_seq ≡ length (contents e)
  pub measured : e.next_byte_offset ≡ size (contents e)
  pub totalled : e.total_bytes ≡ size (contents e)

pub bodies-layout : (s b : ℕ) (xs : List Bytes) → bodies (layout s b xs) ≡ xs
unfolding layout
bodies-layout s b [] = refl
bodies-layout s b (x ∷ xs) = ap (λ t. x ∷ t) (bodies-layout (suc s) (b + length x) xs)

pub length-layout : (s b : ℕ) (xs : List Bytes) → length (layout s b xs) ≡ length xs
unfolding layout
length-layout s b [] = refl
length-layout s b (x ∷ xs) = ap suc (length-layout (suc s) (b + length x) xs)

pub size-append : (xs ys : List Bytes) → size (xs ++ ys) ≡ size xs + size ys
unfolding size
size-append [] ys = omega arith
size-append (x ∷ xs) ys = omega (arith, size-append xs ys)

pub layout-append :
    (s b : ℕ) (xs ys : List Bytes)
    → layout s b (xs ++ ys) ≡ layout s b xs ++ layout (length xs + s) (size xs + b) ys
unfolding layout size
layout-append s b [] ys =
    let s' : 0 + s ≡ s = omega arith in let b' : 0 + b ≡ b = omega arith in rw (s', b')
layout-append s b (x ∷ xs) ys =
    let s' : length xs + suc s ≡ suc (length xs) + s = omega arith in
    let b' : size xs + (b + length x) ≡ length x + size xs + b = omega arith in
    cc (layout-append (suc s) (b + length x) xs ys, s', b')

-- A batch that fits the word is added up without wrapping round.
pub batch_bytes-size :
    (xs : List Bytes) (t : ℕ) → t + size xs < u64_mod → batch_bytes xs t ≡ t + size xs
unfolding batch_bytes size byte_len_of
batch_bytes-size [] t h = omega arith
batch_bytes-size (x ∷ xs) t h =
    rw (to_u64_exact (length x) (omega arith), u64_add_exact t (length x) (omega arith))
      (batch_bytes-size xs (t + length x) (omega arith) ∙ omega arith)

-- The entry after a batch, with no counter wrapped round.
abbrev pub extended : List Bytes → StreamEntry → StreamEntry
extended xs e = record e {
  messages = e.messages ++ layout e.next_read_seq e.next_byte_offset xs;
  next_read_seq = e.next_read_seq + length xs;
  next_byte_offset = e.next_byte_offset + size xs;
  total_bytes = e.total_bytes + size xs;
}

pub push_message-extended :
    (x : Bytes) (e : StreamEntry)
    → e.next_read_seq + 1 < u64_mod
    → e.next_byte_offset + length x < u64_mod
    → e.total_bytes + length x < u64_mod
    → push_message x e ≡ extended (x ∷ []) e
unfolding push_message new_message byte_len_of tail_offset layout size
push_message-extended x e h k l =
    rw
      (
        to_u64_exact (length x) (omega arith),
        u64_add_exact e.next_read_seq 1 h,
        u64_add_exact e.next_byte_offset (length x) k,
        u64_add_exact e.total_bytes (length x) l,
      )
      (ground arith)

-- Extending twice is extending once.
pub extended-extended :
    (x : Bytes) (xs : List Bytes) (e : StreamEntry)
    → extended xs (extended (x ∷ []) e) ≡ extended (x ∷ xs) e
unfolding layout size
extended-extended x xs e =
    let seq : e.next_read_seq + 1 ≡ suc e.next_read_seq = omega arith in
    let offset : e.next_byte_offset + (length x + 0) ≡ e.next_byte_offset + length x =
      omega arith in
    ground (
      arith,
      seq,
      offset,
      append_assoc e.messages (layout e.next_read_seq e.next_byte_offset (x ∷ []))
          (layout (suc e.next_read_seq) (e.next_byte_offset + length x) xs),
    )

pub push_messages-extended :
    (xs : List Bytes) (e : StreamEntry)
    → e.next_read_seq + length xs < u64_mod
    → e.next_byte_offset + size xs < u64_mod
    → e.total_bytes + size xs < u64_mod
    → push_messages xs e ≡ extended xs e
unfolding push_messages layout size
push_messages-extended [] e h k l = ground (arith, append-nil e.messages)
push_messages-extended (x ∷ xs) e h k l =
    rw (push_message-extended x e (omega arith) (omega arith) (omega arith)) (
      push_messages-extended xs (extended (x ∷ []) e) (omega arith) (omega arith) (omega arith)
      ∙ extended-extended x xs e)

pub contents-extended :
    (xs : List Bytes) (e : StreamEntry) → contents (extended xs e) ≡ contents e ++ xs
contents-extended xs e =
    map-append (λ (m : Message). m.body) e.messages (layout e.next_read_seq e.next_byte_offset xs)
    ∙ ap (λ t. contents e ++ t) (bodies-layout e.next_read_seq e.next_byte_offset xs)

pub extended-IsValid : (xs : List Bytes) (e : StreamEntry) → IsValid e → IsValid (extended xs e)
extended-IsValid xs e v = record {
  laid_out =
      let seq : e.next_read_seq ≡ length (contents e) + 0 = omega (arith, v.counted) in
      let offset : e.next_byte_offset ≡ size (contents e) + 0 = omega (arith, v.measured) in
      cc (contents-extended xs e, layout-append 0 0 (contents e) xs, v.laid_out, seq, offset);
  counted = rw contents-extended (omega (arith, v.counted, length-append (contents e) xs));
  measured = rw contents-extended (omega (arith, v.measured, size-append (contents e) xs));
  totalled = rw contents-extended (omega (arith, v.totalled, size-append (contents e) xs));
}

pub new_entry-IsValid :
    (config : StreamConfig) (created_at : DateTime) → IsValid (new_entry config created_at)
unfolding new_entry layout size
new_entry-IsValid config created_at = record {
  laid_out = refl;
  counted = refl;
  measured = refl;
  totalled = refl;
}
