-- ===== src/File/Durable.antt =====
-- What the log of a stream holds behind an append, src/storage/file.rs, and what of it a restart finds.
use durable_streams_referenc.Prelude.{
  ℕ, ◌+◌, ◌<◌, ◌≡◌, refl, sym, ap, ◌∙◌, false, Option, some, List, [], ◌∷◌, ◌++◌, inl, inr, arith,
  map-append, All, Bool-cases, ltb, length, take, append-nil, append_assoc,
}
use durable_streams_referenc.Prelude.Text.{Bytes, Text}
use durable_streams_referenc.Prelude.Word.{u64_mod}
use durable_streams_referenc.Prelude.Dict.{lookup}
use durable_streams_referenc.Error.{ok}
use durable_streams_referenc.Offset.{Offset}
use durable_streams_referenc.Storage.{Message, DateTime, is_stream_expired, new_message}
use durable_streams_referenc.Memory.Entry.{Held, push_message, push_messages, tail_offset, send}
use durable_streams_referenc.Memory.Entry as Memory
use durable_streams_referenc.Memory.Layout.{size, contents}
use durable_streams_referenc.File.Record.{write_buf}
use durable_streams_referenc.File.Record.Layout.{whole, IsShort, write_buf-append}
use durable_streams_referenc.File.Entry.{
  StreamMeta, StreamEntry, Locked, append_records, push_record, push_records, notify_all,
}
use durable_streams_referenc.File.Meta.{write_metadata_for}
use durable_streams_referenc.File.Methods.{
  Settings, Io, persist_best_effort, record_seq, batch_append_locked,
}
use durable_streams_referenc.File.Disk.{FileStorage, dir_at}
use durable_streams_referenc.File.Startup.{EntryIo, restore_dir}
use durable_streams_referenc.File.View.{view}
use durable_streams_referenc.File.Refine.{
  appended, viewed-appended, append_outcome, append_records-outcome,
}
use durable_streams_referenc.File.Contract.{IsReady}
use durable_streams_referenc.File.Restart.{IsOpened, IsRecovered, restore_dir-crash}

-- The log holds the records of the stream's messages and nothing else.
abbrev pub IsClean : StreamEntry → Type 0
IsClean e = e.file ≡ write_buf (contents (view e))

push_records-file :
    (xs : List Bytes) (cursor : ℕ) (e : StreamEntry) → (push_records cursor xs e).file ≡ e.file
unfolding push_records push_record
push_records-file [] cursor e = refl
push_records-file (x ∷ xs) cursor e = push_records-file xs _ _

push_messages-contents :
    (xs : List Bytes) (e : Memory.StreamEntry) → contents (push_messages xs e) ≡ contents e ++ xs
unfolding push_messages push_message new_message
push_messages-contents [] e = sym (append-nil (contents e))
push_messages-contents (x ∷ xs) e =
    push_messages-contents xs (push_message x e)
    ∙ ap (λ t. t ++ xs)
        (map-append (λ (m : Message). m.body) e.messages (new_message (tail_offset e) x ∷ []))
    ∙ append_assoc (contents e) (x ∷ []) xs

module _ (st : Settings) (io : Io) (name : Text) (xs : List Bytes) (h : Locked)
    (ready : IsReady st io xs h) where
  abbrev final : Locked
  final = appended st.limits st.sync_on_append io.log name xs h

  appended-file : final.stream.file ≡ h.stream.file ++ write_buf xs
  unfolding notify_all
  appended-file = push_records-file xs _ _

  appended-contents : contents (view final.stream) ≡ contents (view h.stream) ++ xs
  unfolding send
  appended-contents =
      ap (λ (t : Held). contents t.stream)
        (viewed-appended st.limits st.sync_on_append io.log name xs h ready.short ready.logged)
      ∙ push_messages-contents xs (view h.stream)

-- The log and the messages have grown by a batch.
pub record IsGrown (xs : List Bytes) (e e' : StreamEntry) : Type 0 where
  pub file : e'.file ≡ e.file ++ write_buf xs
  pub messages : contents (view e') ≡ contents (view e) ++ xs

IsGrown-IsClean : (xs : List Bytes) (e e' : StreamEntry) → IsGrown xs e e' → IsClean e → IsClean e'
IsGrown-IsClean xs e e' grown clean =
    grown.file
    ∙ ap (λ t. t ++ write_buf xs) clean
    ∙ sym (write_buf-append (contents (view e)) xs)
    ∙ ap write_buf (sym grown.messages)

module _ (st : Settings) (io : Io) (name : Text) where
  outcome-IsGrown :
      (xs : List Bytes) (h : Locked)
      → IsReady st io xs h
      → (append_outcome st.limits st.sync_on_append io.log name xs h).0 ≡ ok tt
      → IsGrown xs h.stream (append_outcome st.limits st.sync_on_append io.log name xs h).1.stream
  unfolding write_buf
  outcome-IsGrown [] h ready done = record {
    file = sym (append-nil h.stream.file);
    messages = sym (append-nil (contents (view h.stream)));
  }
  outcome-IsGrown (x ∷ xs) h ready done =
      let grown : IsGrown (x ∷ xs) h.stream (final st io name (x ∷ xs) h ready).stream = record {
        file = appended-file st io name (x ∷ xs) h ready;
        messages = appended-contents st io name (x ∷ xs) h ready;
      } in
      elim (Bool-cases (ltb st.limits.max_total_bytes (h.total_bytes + size (x ∷ xs)))) [
        | inl over ↦ absurd (ground arith)
        | inr room ↦
            elim (Bool-cases
              (ltb st.limits.max_stream_bytes (h.stream.total_bytes + size (x ∷ xs)))) [
                | inl over ↦ absurd (ground arith)
                | inr fit ↦ rw (room, fit) grown
              ]
      ]

  append_records-IsGrown :
      (xs : List Bytes) (h : Locked)
      → IsReady st io xs h
      → (append_records st.limits st.sync_on_append io.log name xs h).0 ≡ ok tt
      → IsGrown xs h.stream (append_records st.limits st.sync_on_append io.log name xs h).1.stream
  append_records-IsGrown xs h ready =
      let outcome =
        append_records-outcome st.limits st.sync_on_append io.log name xs h ready.working
          ready.short ready.fits ready.sound.inside in
      rw outcome (outcome-IsGrown xs h ready)

  batch_append_locked-IsGrown :
      (xs : List Bytes) (ct : Text) (seq : Option Text) (now : DateTime) (h : Locked) (off : Offset)
      → IsReady st io xs h
      → (batch_append_locked st io name xs ct seq now h).0 ≡ ok off
      → IsGrown xs h.stream (batch_append_locked st io name xs ct seq now h).1.stream
  unfolding batch_append_locked record_seq persist_best_effort write_metadata_for
  batch_append_locked-IsGrown xs ct seq now h off ready done =
      ground (arith, append_records-IsGrown xs h ready)

  -- A batch that `batch_append` has acknowledged survives a crash. The stream's log holds its records
  -- and nothing else, the disk works and the batch fits; the server stops in the middle of a later
  -- write, of which any beginning gets into the log; and at the restart the calls on the directory
  -- succeed, and the metadata is that of a stream that has not expired. Then the stream that comes
  -- back is valid and holds the old messages, the batch, and those messages of the later write whose
  -- records are whole.
  pub batch_append_locked-survives :
      (xs ys : List Bytes) (n : ℕ) (ct : Text) (seq : Option Text) (now : DateTime) (h : Locked)
      (off : Offset) (start : EntryIo) (payload : Bytes) (meta : StreamMeta) (s : FileStorage)
      → IsReady st io xs h
      → IsClean h.stream
      → (batch_append_locked st io name xs ct seq now h).0 ≡ ok off
      → IsOpened st start
      → st.format.from_slice payload ≡ inr meta
      → is_stream_expired meta.config start.now ≡ false
      → (dir_at start.path s.disk).log
        ≡ (batch_append_locked st io name xs ct seq now h).1.stream.file ++ take n (write_buf ys)
      → All IsShort ((contents (view h.stream) ++ xs) ++ ys)
      → length ((contents (view h.stream) ++ xs) ++ ys) < u64_mod
      → size ((contents (view h.stream) ++ xs) ++ ys) < u64_mod
      → (e : StreamEntry) × ((restore_dir st start payload s).0 ≡ ok tt)
        × (lookup meta.name (restore_dir st start payload s).1.streams ≡ some e)
        × IsRecovered meta ((contents (view h.stream) ++ xs) ++ whole n ys) e
  batch_append_locked-survives xs ys n ct seq now h off start payload meta s ready clean done opened
        parsed live log short counted measured =
      let grown = batch_append_locked-IsGrown xs ct seq now h off ready done in
      let after = (batch_append_locked st io name xs ct seq now h).1.stream in
      let kept : after.file ≡ write_buf (contents (view h.stream) ++ xs) =
        IsGrown-IsClean xs h.stream after grown clean ∙ ap write_buf grown.messages in
      restore_dir-crash st start payload meta s (contents (view h.stream) ++ xs) ys n opened parsed
        live (log ∙ ap (λ t. t ++ take n (write_buf ys)) kept) short counted measured
