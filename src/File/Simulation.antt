-- ===== src/File/Simulation.antt =====
-- The file storage, src/storage/file.rs, as an implementation of what the in-memory storage,
-- src/storage/memory.rs, does, while the disk works.
use durable_streams_referenc.Prelude.{
  ◌≡◌, refl, sym, ap, ◌∙◌, Bool, Option, none, some, List, [], ◌∷◌, arith, Option-cases, inl, inr,
  Bool-cases, is_empty,
}
use durable_streams_referenc.Prelude.Text.{Bytes, Text, text_eq}
use durable_streams_referenc.Prelude.Dict.{Dict, lookup, insert}
use durable_streams_referenc.Error.{not_found, Result, err}
use durable_streams_referenc.Error.Exec.{Exec}
use durable_streams_referenc.Producer.{ProducerHeaders}
use durable_streams_referenc.Storage.{DateTime, Readings}
use durable_streams_referenc.Memory.{InMemoryStorage, with_stream, write_back}
use durable_streams_referenc.Memory
use durable_streams_referenc.Memory.Entry.{Limits, Held}
use durable_streams_referenc.File
use durable_streams_referenc.File.Entry.{StreamEntry, Locked}
use durable_streams_referenc.File.Methods.{Settings, Io}
use durable_streams_referenc.File.Disk.{FileStorage, lock, with_locked, unlock, write_disk}
use durable_streams_referenc.File.View.{view, viewed}
use durable_streams_referenc.File.Refine.{seen}
use durable_streams_referenc.File.Contract.{
  IsReady, batch_append_locked-refines, append_with_producer_locked-refines,
}

abbrev pub view_all : Dict StreamEntry → Dict Memory.Entry.StreamEntry
view_all [] = []
view_all ((k, e) ∷ d) = (k, view e) ∷ view_all d

-- The in-memory storage that a file storage stands for.
abbrev pub view_storage : Limits → FileStorage → InMemoryStorage
view_storage l s = record { streams = view_all s.streams; total_bytes = s.total_bytes; limits = l }

abbrev pub shown : {A : Type 0} → Limits → Result A × FileStorage → Result A × InMemoryStorage
shown l (r, s) = (r, view_storage l s)

option_view : Option StreamEntry → Option Memory.Entry.StreamEntry
option_view none = none
option_view (some e) = some (view e)

lookup-view_all :
    (name : Text) (d : Dict StreamEntry) → lookup name (view_all d) ≡ option_view (lookup name d)
unfolding lookup option_view
lookup-view_all name [] = refl
lookup-view_all name ((k, e) ∷ d) = ground (arith, lookup-view_all name d)

insert-view_all :
    (name : Text) (e : StreamEntry) (d : Dict StreamEntry)
    → view_all (insert name e d) ≡ insert name (view e) (view_all d)
unfolding insert
insert-view_all name e [] = refl
insert-view_all name e ((k, f) ∷ d) = elim (Bool-cases (text_eq k name)) [
  | inl same ↦ rw same
  | inr other ↦ rw other (ap (λ t. (k, view f) ∷ t) (insert-view_all name e d))
]

unlock-shown :
    {A : Type 0} (l : Limits) (name : Text) (s : FileStorage) (r : Result A × Locked)
    → shown l (unlock name s r) ≡ write_back name (view_storage l s) (seen r)
unfolding unlock write_disk write_back
unlock-shown l name s (r, h) =
    ap (λ t. (r, record { streams = t; total_bytes = h.total_bytes; limits = l }))
      (insert-view_all name h.stream s.streams)

with_locked_absent :
    {A : Type 0} (name : Text) (body : Exec Locked A) (s : FileStorage)
    → lookup name s.streams ≡ none
    → with_locked name body s ≡ (err (not_found name), s)
unfolding with_locked
with_locked_absent name body s absent = rw (with_locked, absent) refl

with_stream_absent :
    {A : Type 0} (name : Text) (body : Exec Held A) (s : InMemoryStorage)
    → lookup name s.streams ≡ none
    → with_stream name body s ≡ (err (not_found name), s)
unfolding with_stream
with_stream_absent name body s absent = rw (with_stream, absent) refl

with_locked_found :
    {A : Type 0} (name : Text) (body : Exec Locked A) (s : FileStorage) (e : StreamEntry)
    → lookup name s.streams ≡ some e
    → with_locked name body s ≡ unlock name s (body (lock e s))
unfolding with_locked
with_locked_found name body s e found = rw (with_locked, found) refl

with_stream_found :
    {A : Type 0} (name : Text) (body : Exec Held A) (s : InMemoryStorage)
    (e : Memory.Entry.StreamEntry)
    → lookup name s.streams ≡ some e
    → with_stream name body s
      ≡ write_back name s (body (record { stream = e; total_bytes = s.total_bytes }))
unfolding with_stream
with_stream_found name body s e found = rw (with_stream, found) refl

with_locked-shown :
    {A : Type 0} (l : Limits) (name : Text) (body : Exec Locked A) (body' : Exec Held A)
    (s : FileStorage)
    → ((e : StreamEntry)
        → lookup name s.streams ≡ some e
        → seen (body (lock e s)) ≡ body' (viewed (lock e s)))
    → shown l (with_locked name body s) ≡ with_stream name body' (view_storage l s)
unfolding with_locked with_stream option_view lock
with_locked-shown l name body body' s step = elim (Option-cases (lookup name s.streams)) [
  | inl absent ↦
      let also : lookup name (view_all s.streams) ≡ none =
        lookup-view_all name s.streams ∙ ap option_view absent in
      ap (shown l) (with_locked_absent name body s absent)
      ∙ sym (with_stream_absent name body' (view_storage l s) also)
  | inr (e, found) ↦
      let also : lookup name (view_all s.streams) ≡ some (view e) =
        lookup-view_all name s.streams ∙ ap option_view found in
      ap (shown l) (with_locked_found name body s e found)
      ∙ (unlock-shown l name s (body (lock e s))
          ∙ ap (write_back name (view_storage l s)) (step e found))
      ∙ sym (with_stream_found name body' (view_storage l s) (view e) also)
]

module _ (st : Settings) (io : Io) (name : Text) (xs : List Bytes) (ct : Text) (seq : Option Text)
    (s : FileStorage)
    (ready : (e : StreamEntry) → lookup name s.streams ≡ some e → IsReady st io xs (lock e s)) where
  -- A batch append to a file storage whose disk works, the stream being sound, with an index that
  -- points into its log, and the batch fitting, or there being no such stream: it returns what the
  -- in-memory storage returns, and the storages that they leave show the same streams and count.
  pub batch_append-refines :
      (now : DateTime)
      → shown st.limits (File.batch_append st io name xs ct seq now s)
        ≡ Memory.batch_append name xs ct seq now (view_storage st.limits s)
  unfolding File.batch_append Memory.batch_append
  batch_append-refines now = elim (Bool-cases (is_empty xs)) [
    | inl nothing ↦ rw nothing refl
    | inr something ↦ rw something (
        with_locked-shown st.limits name (File.Methods.batch_append_locked st io name xs ct seq now)
          (Memory.Methods.batch_append_held st.limits xs ct seq now) s
          (λ e found.
            batch_append_locked-refines st io name xs ct seq now (lock e s) (ready e found)))
  ]

  -- An append by a producer, under the same conditions, returns what the in-memory storage returns,
  -- and the storages that they leave show the same streams and count, whether or not the metadata
  -- file can be written.
  pub append_with_producer-refines :
      (p : ProducerHeaders) (should_close : Bool) (at : Readings)
      → shown st.limits (File.append_with_producer st io name xs ct p should_close seq at s)
        ≡ Memory.append_with_producer name xs ct p should_close seq at (view_storage st.limits s)
  unfolding File.append_with_producer Memory.append_with_producer
  append_with_producer-refines p should_close at =
      with_locked-shown st.limits name
        (File.Methods.append_with_producer_locked st io name xs ct p should_close seq at)
        (Memory.Methods.append_with_producer_held st.limits xs ct p should_close seq at) s
        (λ e found.
          append_with_producer_locked-refines st io name xs ct p should_close seq at (lock e s)
            (ready e found))
