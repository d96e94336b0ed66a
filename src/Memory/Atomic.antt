-- ===== src/Memory/Atomic.antt =====
-- An append happens as a whole or not at all.
use durable_streams_referenc.Prelude.{
  ◌+◌, ◌≡◌, ◌≢◌, refl, ap, Option, none, some, List, [], ◌++◌, arith,
}
use durable_streams_referenc.Prelude.Text.{Bytes, Text}
use durable_streams_referenc.Error.{Error, Result, ok, err}
use durable_streams_referenc.Offset.{Offset}
use durable_streams_referenc.Storage.{DateTime, validate_seq}
use durable_streams_referenc.Memory.Entry.{
  StreamEntry, Limits, Held, tail_offset, send, commit_messages,
}
use durable_streams_referenc.Memory.Methods.{batch_append_held}
use durable_streams_referenc.Memory.Layout.{
  size, contents, IsValid, extended, contents-extended, extended-IsValid,
}
use durable_streams_referenc.Memory.Commit.{
  IsSound, IsCountable, committed, commit_messages-ok, commit_messages-err,
}

-- The new `last_seq` of a stream.
abbrev pub seq_or : Option Text → Option Text → Option Text
seq_or none last = last
seq_or (some seq) last = some seq

-- A stream after a batch: the batch behind the old contents, one notification, and the new
-- `Stream-Seq`; the rest as before.
pub record IsAppended (xs : List Bytes) (seq : Option Text) (e e' : StreamEntry) : Type 0 where
  pub contents_grow : contents e' ≡ contents e ++ xs
  pub valid : IsValid e'
  pub notified : e'.notify ≡ e.notify + 1
  pub seq_set : e'.last_seq ≡ seq_or seq e.last_seq
  pub same_config : e'.config ≡ e.config
  pub same_closed : e'.closed ≡ e.closed
  pub same_producers : e'.producers ≡ e.producers

module _ (l : Limits) (xs : List Bytes) (ct : Text) (seq : Option Text) (now : DateTime) (h : Held)
    (sound : IsSound l h) (fits : IsCountable h.stream xs) where
  abbrev outcome : Result Offset × Held
  outcome = batch_append_held l xs ct seq now h

  -- A batch append that fails on a sound stream, the batch being countable, leaves the stream and the
  -- count as they were.
  pub batch_append_held-err : (e : Error) → outcome.0 ≡ err e → outcome.1 ≡ h
  unfolding batch_append_held
  batch_append_held-err e r = ground (arith, commit_messages-err l xs h e sound fits)

  committed_stream :
      (off : Offset) → xs ≢ [] → outcome.0 ≡ ok off → (commit_messages l xs h).1 ≡ committed xs h
  unfolding batch_append_held
  committed_stream off some_message r =
      ground (arith, commit_messages-ok l xs h some_message sound fits)

  abbrev after : Held
  after = record {
    stream = record (extended xs h.stream) {
      notify = h.stream.notify + 1;
      last_seq = seq_or seq h.stream.last_seq;
    };
    total_bytes = h.total_bytes + size xs;
  }

  pub final_state : (off : Offset) → xs ≢ [] → outcome.0 ≡ ok off → outcome.1 ≡ after
  unfolding batch_append_held validate_seq send
  final_state off some_message r = ground (arith, committed_stream off some_message r)

  returned_offset : (off : Offset) → outcome.0 ≡ ok off → off ≡ tail_offset outcome.1.stream
  unfolding batch_append_held
  returned_offset off r = ground arith

  pub batch_append_held-ok :
      (off : Offset)
      → xs ≢ []
      → outcome.0 ≡ ok off
      → IsAppended xs seq h.stream outcome.1.stream
        × (off ≡ tail_offset outcome.1.stream)
        × (outcome.1.total_bytes ≡ h.total_bytes + size xs)
  batch_append_held-ok off some_message r =
      let final = final_state off some_message r in
      let v = extended-IsValid xs h.stream sound.valid in
      (
        rw final (record {
          contents_grow = contents-extended xs h.stream;
          valid = record {
            laid_out = v.laid_out;
            counted = v.counted;
            measured = v.measured;
            totalled = v.totalled;
          };
          notified = refl;
          seq_set = refl;
          same_config = refl;
          same_closed = refl;
          same_producers = refl;
        }),
        returned_offset off r,
        ap (λ (t : Held). t.total_bytes) final,
      )
