-- ===== src/File/Refine.antt =====
-- The append of a batch to a log file, src/storage/file.rs: with a working disk it is the in-memory
-- storage's, and with a failing disk it changes nothing that a reader sees.
use durable_streams_referenc.Prelude.{
  ℕ, ◌+◌, ◌≤◌, ◌<◌, ◌≡◌, refl, sym, subst, ap, ◌∙◌, Bool, true, false, none, List, [], ◌∷◌, ◌++◌,
  arith, All, Bool-cases, inl, inr, ltb, if◌then◌else◌, length,
}
use durable_streams_referenc.Prelude.Text.{Bytes, Text}
use durable_streams_referenc.Prelude.Word.{u64_mod, u64_add_exact, to_u64_exact}
use durable_streams_referenc.Error.{
  Result, ok, err, memory_limit_exceeded, stream_size_limit_exceeded,
}
use durable_streams_referenc.Error.Exec.{Exec, ◌>>◌}
use durable_streams_referenc.Storage.{byte_len_of}
use durable_streams_referenc.Memory.Entry.{Limits, Held, push_messages, send, commit_messages}
use durable_streams_referenc.Memory.Entry as Memory
use durable_streams_referenc.Memory.Layout.{size, push_messages-extended}
use durable_streams_referenc.Memory.Commit.{
  IsSound, IsCountable, commit_outcome, commit_messages-outcome,
}
use durable_streams_referenc.File.Record.{write_buf, u32_max}
use durable_streams_referenc.File.Record.Layout.{IsShort}
use durable_streams_referenc.File.Entry.{
  StreamEntry, Locked, LogIo, batch_size, check_and_reserve, write_log, sync_log, append_file,
  push_records, notify_all, append_records, on_entry,
}
use durable_streams_referenc.File.View.{
  view, viewed, IsLogged, view-push_records, push_records-IsLogged, messages-append,
}

-- What the in-memory storage would show of a result.
abbrev pub seen : {A : Type 0} → Result A × Locked → Result A × Held
seen (r, h) = (r, viewed h)

-- Writing succeeds, and so does the sync if there is one.
pub record IsWorking (sync_on_append : Bool) (io : LogIo) : Type 0 where
  pub written : io.write_all ≡ none
  pub synced : (if sync_on_append then io.sync_data else none) ≡ none

batch_size_lem :
    (xs : List Bytes) (t : ℕ)
    → All IsShort xs
    → t + size xs < u64_mod
    → batch_size xs t ≡ ok (t + size xs)
unfolding batch_size size byte_len_of
batch_size_lem [] t short h = ap ok (omega arith)
batch_size_lem (x ∷ xs) t short h =
    let fits : ltb u32_max (length x) ≡ false = ground (arith, short) in
    let total : t + length x + size xs ≡ t + (length x + size xs) = omega arith in
    rw (to_u64_exact (length x) (omega arith), u64_add_exact t (length x) (omega arith), fits)
      (batch_size_lem xs (t + length x) short.1 (omega arith) ∙ ap ok total)

-- What follows the write and the sync, on a working disk.
write_lem :
    (sync_on_append : Bool) (io : LogIo) (name : Text) (raw : Bytes) (batch : ℕ)
    (k : Exec Locked (Unit {0})) (h : Locked)
    → IsWorking sync_on_append io
    → (write_log io name raw batch >> (sync_log sync_on_append io name batch >> k)) h
      ≡ k (append_file raw h)
unfolding write_log sync_log
write_lem true io name raw batch k h working =
    rw (write_log, working.written, sync_log, working.synced) refl
write_lem false io name raw batch k h working = rw (write_log, working.written) refl

module _ (l : Limits) (sync_on_append : Bool) (io : LogIo) (name : Text) where
  -- The log after a batch that is written to a working disk, the entry before it, and the result.
  abbrev pub appended : List Bytes → Locked → Locked
  appended xs h = record {
    stream = notify_all (
        push_records h.stream.file_len xs
          (record (h.stream) { file = h.stream.file ++ write_buf xs }));
    meta = h.meta;
    total_bytes = h.total_bytes + size xs;
  }

  -- The limits read off the true sizes.
  abbrev pub append_outcome : List Bytes → Exec Locked (Unit {0})
  append_outcome [] h = (ok tt, h)
  append_outcome (x ∷ xs) h =
      if ltb l.max_total_bytes (h.total_bytes + size (x ∷ xs))
      then (err memory_limit_exceeded, h)
      else if ltb l.max_stream_bytes (h.stream.total_bytes + size (x ∷ xs))
      then (err stream_size_limit_exceeded, h)
      else (ok tt, appended (x ∷ xs) h)

  pub append_records-outcome :
      (xs : List Bytes) (h : Locked)
      → IsWorking sync_on_append io
      → All IsShort xs
      → h.total_bytes + size xs < u64_mod
      → h.stream.total_bytes ≤ h.total_bytes
      → append_records l sync_on_append io name xs h ≡ append_outcome xs h
  unfolding append_records check_and_reserve write_log sync_log append_file
  append_records-outcome [] h working short fits inside = refl
  append_records-outcome (x ∷ xs) h working short fits inside =
      let total : ℕ = size (x ∷ xs) in
      let start : 0 + total ≡ total = omega arith in
      let batch : batch_size (x ∷ xs) 0 ≡ ok total =
        batch_size_lem (x ∷ xs) 0 short (rw start (omega (arith, fits))) ∙ ap ok start in
      let global = u64_add_exact h.total_bytes total fits in
      let stream = u64_add_exact h.stream.total_bytes total (omega (arith, fits, inside)) in
      rw (batch, global, stream)
        (elim (Bool-cases (ltb l.max_total_bytes (h.total_bytes + total))) [
          | inl over ↦ rw over
          | inr room ↦ elim (Bool-cases (ltb l.max_stream_bytes (h.stream.total_bytes + total))) [
            | inl over ↦ rw (room, over)
            | inr fit ↦
                rw (room, fit)
                  (write_lem sync_on_append io name (write_buf (x ∷ xs)) total
                    (on_entry (λ e. notify_all (push_records e.file_len (x ∷ xs) e)))
                    (record h { total_bytes = h.total_bytes + total }) working)
          ]
        ])

  pub viewed-appended :
      (xs : List Bytes) (h : Locked)
      → All IsShort xs
      → IsLogged h.stream
      → viewed (appended xs h) ≡ record {
        stream = send (push_messages xs (view h.stream));
        total_bytes = h.total_bytes + size xs;
      }
  unfolding notify_all send
  viewed-appended xs h short logged =
      let e' : StreamEntry = record (h.stream) { file = h.stream.file ++ write_buf xs } in
      let same = messages-append h.stream.file (write_buf xs) 0 h.stream.index logged.inside in
      let pushed =
        ap (λ t. view (push_records t xs e')) logged.measured
        ∙ view-push_records h.stream.file xs e' short refl
        ∙ ap (λ t. push_messages xs (record (view h.stream) { messages = t })) same in
      ap
        (λ (t : Memory.StreamEntry). record {
          stream = send t;
          total_bytes = h.total_bytes + size xs;
        })
        pushed

  pub appended-IsLogged :
      (xs : List Bytes) (h : Locked)
      → All IsShort xs
      → IsLogged h.stream
      → IsLogged (appended xs h).stream
  unfolding notify_all
  appended-IsLogged xs h short logged =
      let e' : StreamEntry = record (h.stream) { file = h.stream.file ++ write_buf xs } in
      let pushed =
        subst (λ t. IsLogged (push_records t xs e')) (sym logged.measured)
          (push_records-IsLogged h.stream.file xs e' short refl logged.inside) in
      record { inside = pushed.inside; measured = pushed.measured }

  seen-outcome :
      (xs : List Bytes) (h : Locked)
      → All IsShort xs
      → IsLogged h.stream
      → IsSound l (viewed h)
      → IsCountable (view h.stream) xs
      → seen (append_outcome xs h) ≡ commit_outcome l xs (viewed h)
  seen-outcome [] h short logged sound countable = refl
  seen-outcome (x ∷ xs) h short logged sound countable =
      let total : ℕ = size (x ∷ xs) in
      elim (Bool-cases (ltb l.max_total_bytes (h.total_bytes + total))) [
        | inl over ↦ rw over
        | inr room ↦ elim (Bool-cases (ltb l.max_stream_bytes (h.stream.total_bytes + total))) [
          | inl over ↦ rw (room, over)
          | inr fit ↦
              let fits : h.total_bytes + total ≤ l.max_total_bytes = ground (arith, room) in
              let v = sound.valid in
              let extends =
                push_messages-extended (x ∷ xs) (view h.stream)
                  (omega (arith, v.counted, countable.count))
                  (omega (arith, v.measured, v.totalled, sound.inside, sound.word, fits))
                  (omega (arith, sound.inside, sound.word, fits)) in
              rw (room, fit)
                (ap (λ (t : Held). (ok tt, t)) (viewed-appended (x ∷ xs) h short logged)
                  ∙ ap
                      (λ (t : Memory.StreamEntry).
                        (ok tt, record { stream = send t; total_bytes = h.total_bytes + total }))
                      extends)
        ]
      ]

  pub append_records-refines :
      (xs : List Bytes) (h : Locked)
      → IsWorking sync_on_append io
      → All IsShort xs
      → h.total_bytes + size xs < u64_mod
      → IsLogged h.stream
      → IsSound l (viewed h)
      → IsCountable (view h.stream) xs
      → seen (append_records l sync_on_append io name xs h) ≡ commit_messages l xs (viewed h)
  append_records-refines xs h working short fits logged sound countable =
      ap seen (append_records-outcome xs h working short fits sound.inside)
      ∙ seen-outcome xs h short logged sound countable
      ∙ sym (commit_messages-outcome l xs (viewed h) sound countable)
