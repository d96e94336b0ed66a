-- ===== src/Memory/Delivery.antt =====
-- From an append to a read: what a reader gets who goes on from the tail it was given.
use durable_streams_referenc.Prelude.{
  ◌+◌, ◌≡◌, ◌≢◌, refl, ap, ◌∙◌, true, false, Option, some, List, [], ◌∷◌, arith, length, is_empty,
}
use durable_streams_referenc.Prelude.Text.{Bytes, Text, text_eq_self}
use durable_streams_referenc.Prelude.Dict.{lookup, insert, lookup-insert}
use durable_streams_referenc.Error.{Result, ok}
use durable_streams_referenc.Offset.{Offset, new}
use durable_streams_referenc.Storage.{DateTime, ReadResult, is_stream_expired}
use durable_streams_referenc.Memory.{InMemoryStorage, with_stream, read_stream, batch_append, read}
use durable_streams_referenc.Memory.Entry.{StreamEntry, Held, tail_offset}
use durable_streams_referenc.Memory.Methods.{batch_append_held}
use durable_streams_referenc.Memory.Layout.{size, contents, IsValid}
use durable_streams_referenc.Memory.Commit.{IsCountable}
use durable_streams_referenc.Memory.Resume.{read_held-resume, returning}
use durable_streams_referenc.Memory.Atomic.{IsAppended, batch_append_held-ok}
use durable_streams_referenc.Memory.Invariant.{IsConsistent, held, held-IsSound}

-- The tail of a valid stream is the position behind its contents.
pub tail_offset-IsValid :
    (e : StreamEntry) → IsValid e → tail_offset e ≡ new (length (contents e)) (size (contents e))
unfolding tail_offset
tail_offset-IsValid e v = rw (v.counted, v.measured)

is_empty-cons : (xs : List Bytes) → xs ≢ [] → is_empty xs ≡ false
is_empty-cons [] h = absurd (h refl)
is_empty-cons (x ∷ xs) h = refl

module _ (name : Text) (xs : List Bytes) (ct : Text) (seq : Option Text) (now : DateTime)
    (s : InMemoryStorage) (e : StreamEntry) (c : IsConsistent s)
    (found : lookup name s.streams ≡ some e) (fits : IsCountable e xs) where
  abbrev outcome : Result Offset × Held
  outcome = batch_append_held s.limits xs ct seq now (held e s)

  unlocked :
      xs ≢ []
      → batch_append name xs ct seq now s ≡ (
        outcome.0,
        record s {
          streams = insert name outcome.1.stream s.streams;
          total_bytes = outcome.1.total_bytes;
        },
      )
  unfolding batch_append with_stream
  unlocked some_message = rw (is_empty-cons xs some_message, with_stream, found)

  held-IsValid : IsValid e
  held-IsValid = (held-IsSound name s c e found).valid

  module _ (off : Offset) (some_message : xs ≢ [])
      (success : (batch_append name xs ct seq now s).0 ≡ ok off) where
    appended :
        IsAppended xs seq e outcome.1.stream
        × (off ≡ tail_offset outcome.1.stream)
        × (outcome.1.total_bytes ≡ s.total_bytes + size xs)
    appended =
        batch_append_held-ok s.limits xs ct seq now (held e s) (held-IsSound name s c e found) fits
          off some_message (rw (unlocked some_message) at success)

    stored : lookup name (batch_append name xs ct seq now s).1.streams ≡ some outcome.1.stream
    stored =
        rw (unlocked some_message)
          (lookup-insert name name outcome.1.stream s.streams ∙ rw (text_eq_self name))

    -- On a consistent storage, after a batch append of some messages that can be counted in a `u64`
    -- and that returned an offset, a read from the tail before it, while the stream lives, returns
    -- exactly the batch, with the returned offset as the next one.
    pub read-batch_append :
        (time : DateTime)
        → is_stream_expired e.config time ≡ false
        → read name (tail_offset e) time (batch_append name xs ct seq now s).1
          ≡ ok (record { messages = xs; next_offset = off; at_tail = true; closed = e.closed })
    unfolding read read_stream
    read-batch_append time live =
        let (a, tail, _) = appended in
        let still_live : is_stream_expired outcome.1.stream.config time ≡ false =
          ap (λ config. is_stream_expired config time) a.same_config ∙ live in
        let result : ReadResult = record {
          messages = xs;
          next_offset = off;
          at_tail = true;
          closed = e.closed;
        } in
        let same : returning xs outcome.1.stream ≡ result = ground (arith, tail, a.same_closed) in
        rw (read, read_stream, stored, tail_offset-IsValid e held-IsValid)
          (read_held-resume time outcome.1.stream a.valid still_live (contents e) xs a.contents_grow
            ∙ ap ok same)
