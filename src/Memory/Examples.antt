-- ===== src/Memory/Examples.antt =====
-- Tests of the in-memory storage on small inputs, and the theorems at inputs that meet their
-- hypotheses.
use durable_streams_referenc.Prelude.{
  ◌≡◌, refl, true, false, none, some, [], ◌∷◌, arith, length, subst,
}
use durable_streams_referenc.Prelude.Text.{
  Bytes, Text, codes, eq_ignore_ascii_case, to_ascii_lowercase, text_eq, text_compare,
}
use durable_streams_referenc.Prelude.Search.{binary_search_by, index_of}
use durable_streams_referenc.Prelude.Word.{u64_add, checked_add, saturating_sub, to_u64}
use durable_streams_referenc.Offset.Hex.{encode_offset, encode_hex, hex_char}
use durable_streams_referenc.Prelude.Dict.{lookup, insert, retain}
use durable_streams_referenc.Error.{stream_size_limit_exceeded, ok}
use durable_streams_referenc.Offset.{start, new, cmp, is_start, is_now}
use durable_streams_referenc.Producer.{ProducerHeaders}
use durable_streams_referenc.Storage.{
  CreateWithDataResult, created, StreamConfig, ProducerAppendResult, is_stream_expired,
  validate_content_type, validate_seq, check_producer, cleanup_stale_producers, byte_len_of,
  new_message, config_eq,
}
use durable_streams_referenc.Memory.{
  InMemoryStorage, new_storage, create_stream, create_stream_with_data, batch_append, read,
  append_with_producer, with_stream, read_stream,
}
use durable_streams_referenc.Memory.Entry.{
  StreamEntry, new_entry, Limits, Held, tail_offset, commit_messages, reserve, check_stream_size,
  push_message, push_messages, batch_bytes, send,
}
use durable_streams_referenc.Memory.Methods.{
  batch_append_held, Readings, append_with_producer_held, close_held, read_held, accept_append,
  close_if, start_index, order_at,
}
use durable_streams_referenc.Memory.Layout.{
  size, layout, IsValid, extended, extended-IsValid, new_entry-IsValid,
}
use durable_streams_referenc.Memory.Commit.{
  IsSound, IsCountable, commit_outcome, commit_messages-outcome,
}
use durable_streams_referenc.Memory.Accounts.{cleaned}
use durable_streams_referenc.Memory.Atomic.{batch_append_held-err}
use durable_streams_referenc.Memory.Invariant.{IsConsistent}
use durable_streams_referenc.Memory.Reach.{
  do_create, do_batch_append, Reach, here, next, Reach-IsConsistent,
}
use durable_streams_referenc.Memory.Resume.{returning, read_held-resume}
use durable_streams_referenc.Memory.Delivery.{read-batch_append}
use durable_streams_referenc.Memory.Creation.{read-create_stream_with_data}
use durable_streams_referenc.Memory.Retry.{append_with_producer_held-retry}

-- What a run of the storage computes with.
program : Unit {0}
unfolding new_storage create_stream batch_append batch_append_held read read_held read_stream
    with_stream append_with_producer append_with_producer_held accept_append close_if codes size
    layout commit_messages reserve check_stream_size push_message push_messages batch_bytes send
    tail_offset new_entry is_stream_expired validate_content_type validate_seq check_producer
    cleanup_stale_producers byte_len_of new_message eq_ignore_ascii_case to_ascii_lowercase text_eq
    text_compare lookup insert retain u64_add checked_add saturating_sub to_u64 new encode_offset
    encode_hex hex_char cmp is_start is_now config_eq start_index order_at binary_search_by index_of
program = tt

abbrev plain : Text
unfolding codes
plain = codes "text/plain"

abbrev orders : Text
unfolding codes
orders = codes "orders"

abbrev config : StreamConfig
config = record {
  content_type = plain;
  ttl_seconds = none;
  expires_at = none;
  created_closed = false;
}

abbrev hello : Bytes
hello = 1 ∷ 2 ∷ []

abbrev bye : Bytes
bye = 7 ∷ 8 ∷ 9 ∷ []

abbrev limits : Limits
limits = record { max_total_bytes = 100; max_stream_bytes = 6 }

-- A stream with one message of two bytes.
abbrev stream : StreamEntry
unfolding new_entry
stream = extended (hello ∷ []) (new_entry config 5)

stream-IsValid : IsValid stream
unfolding new_entry
stream-IsValid = extended-IsValid (hello ∷ []) (new_entry config 5) (new_entry-IsValid config 5)

abbrev locked : Held
locked = record { stream = stream; total_bytes = 2 }

locked-IsSound : IsSound limits locked
unfolding new_entry size
locked-IsSound = record {
  word = omega arith;
  valid = stream-IsValid;
  small = omega arith;
  inside = omega arith;
  bounded = omega arith;
}

one-IsCountable : IsCountable stream (bye ∷ [])
unfolding new_entry size layout
one-IsCountable = record { bytes = omega arith; count = omega arith }

two-IsCountable : IsCountable stream (bye ∷ hello ∷ [])
unfolding new_entry size layout
two-IsCountable = record { bytes = omega arith; count = omega arith }

commit_messages-outcome_example :
    commit_messages limits (bye ∷ []) locked ≡ commit_outcome limits (bye ∷ []) locked
commit_messages-outcome_example =
    commit_messages-outcome limits (bye ∷ []) locked locked-IsSound one-IsCountable

-- The second message passes the limit of the stream.
batch_append_held-err_example :
    (batch_append_held limits (bye ∷ hello ∷ []) plain none 9 locked).1 ≡ locked
unfolding program
batch_append_held-err_example =
    batch_append_held-err limits (bye ∷ hello ∷ []) plain none 9 locked locked-IsSound
      two-IsCountable stream_size_limit_exceeded refl

read_held-resume_example :
    read_held (new (length (hello ∷ [])) (size (hello ∷ []))) 9 stream ≡ ok (returning [] stream)
unfolding program
read_held-resume_example = read_held-resume 9 stream stream-IsValid refl (hello ∷ []) [] refl

abbrev empty_storage : InMemoryStorage
empty_storage = new_storage 100 6

abbrev with_orders : InMemoryStorage
with_orders = (create_stream orders config 3 3 empty_storage).1

first-IsCountable :
    (e : StreamEntry) → lookup orders with_orders.streams ≡ some e → IsCountable e (hello ∷ [])
unfolding program
first-IsCountable e found =
    let same : new_entry config 3 ≡ e = ground arith in
    subst (λ t. IsCountable t (hello ∷ [])) same
      (record { bytes = omega arith; count = omega arith })

abbrev with_hello : InMemoryStorage
with_hello = (batch_append orders (hello ∷ []) plain none 4 with_orders).1

with_hello-Reach : Reach empty_storage with_hello
with_hello-Reach =
    next (next here (do_create empty_storage orders config 3 3))
      (do_batch_append with_orders orders (hello ∷ []) plain none 4 first-IsCountable)

Reach-IsConsistent_example : IsConsistent with_hello
Reach-IsConsistent_example = Reach-IsConsistent 100 6 (omega arith) with_hello-Reach

with_orders-IsConsistent : IsConsistent with_orders
with_orders-IsConsistent =
    Reach-IsConsistent 100 6 (omega arith) (next here (do_create empty_storage orders config 3 3))

abbrev first_entry : StreamEntry
first_entry = new_entry config 3

read-batch_append_example :
    read orders (tail_offset first_entry) 5 with_hello
    ≡ ok (record { messages = hello ∷ []; next_offset = new 1 2; at_tail = true; closed = false })
unfolding program
read-batch_append_example =
    read-batch_append orders (hello ∷ []) plain none 4 with_orders first_entry
      with_orders-IsConsistent refl (first-IsCountable first_entry refl) (new 1 2) (λ e. cc) refl 5
      refl

abbrev producer : ProducerHeaders
producer = record { id = 112 ∷ []; epoch = 3; seq = 0 }

abbrev first_try : Readings
first_try = record { expiry = 10; cleanup = 10; stamp = 10 }

abbrev second_try : Readings
second_try = record { expiry = 20; cleanup = 20; stamp = 20 }

abbrev after_first : Held
after_first =
    (append_with_producer_held limits (bye ∷ []) plain producer false none first_try locked).1

-- The stream is closed between the two tries.
abbrev after_close : Held
after_close = (close_held 15 after_first).1

append_with_producer_held-retry_example :
    append_with_producer_held limits (bye ∷ []) plain producer false none second_try after_close ≡ (
      ok (
          ProducerAppendResult.duplicate 3 0
            (tail_offset after_close.stream)
            after_close.stream.closed),
      cleaned second_try after_close,
    )
unfolding program close_held
append_with_producer_held-retry_example =
    append_with_producer_held-retry limits (bye ∷ []) plain producer false none locked after_close
      first_try second_try 3 0 (new 2 5) false locked-IsSound one-IsCountable refl refl refl refl
      refl

new-IsCountable : IsCountable (new_entry config 3) (hello ∷ [])
unfolding program
new-IsCountable = record { bytes = omega arith; count = omega arith }

abbrev new_result : CreateWithDataResult
new_result = record { status = created; next_offset = new 1 2; closed = true }

abbrev empty-IsConsistent : IsConsistent empty_storage
empty-IsConsistent = Reach-IsConsistent 100 6 (omega arith) here

read-create_stream_with_data_example :
    (new_result.status ≡ created)
    × (new_result.closed ≡ true)
    × (read orders start 5
          (create_stream_with_data orders config (hello ∷ []) true 3 3 empty_storage).1
        ≡ ok (record {
          messages = hello ∷ [];
          next_offset = new 1 2;
          at_tail = true;
          closed = true;
        }))
unfolding program create_stream_with_data
read-create_stream_with_data_example =
    read-create_stream_with_data orders config (hello ∷ []) true 3 3 empty_storage
      empty-IsConsistent refl new-IsCountable new_result refl 5 refl
