-- ===== src/File/Failure.antt =====
-- The append of a batch to a log file that fails, src/storage/file.rs: a reader sees nothing of it.
use durable_streams_referenc.Prelude.{
  ℕ, ◌+◌, ◌-◌, ◌<◌, ◌≡◌, refl, sym, ap, Bool, true, List, [], ◌∷◌, ◌++◌, arith, Bool-cases,
  Option-cases, inl, inr, ◌⊎◌, ltb, length, length-append, take,
}
use durable_streams_referenc.Prelude.Text.{Bytes, Text}
use durable_streams_referenc.Prelude.Word.{
  u64_mod, u64_add, u64_add_exact, to_u64_exact, saturating_sub,
}
use durable_streams_referenc.Error.{Error, Result, ok, err}
use durable_streams_referenc.Error.Exec.{Exec, ◌>>◌}
use durable_streams_referenc.Storage.{byte_len_of}
use durable_streams_referenc.Memory.Entry.{Limits}
use durable_streams_referenc.Memory.Layout.{size}
use durable_streams_referenc.File.Record.{write_buf, u32_max}
use durable_streams_referenc.File.Record.Safety.{LiesIn-weaken}
use durable_streams_referenc.File.Entry.{
  StreamEntry, Locked, LogIo, too_large, batch_size, check_and_reserve, write_log, sync_log,
  append_file, refresh_len, rollback_total_bytes, push_records, notify_all, append_records,
  on_entry,
}
use durable_streams_referenc.File.View.{view, viewed, IsLogged, messages-append}

batch_size-cases :
    (xs : List Bytes) (t : ℕ)
    → t + size xs < u64_mod
    → (batch_size xs t ≡ ok (t + size xs)) ⊎ ((e : Error) × (batch_size xs t ≡ err e))
unfolding batch_size size byte_len_of
batch_size-cases [] t h = inl (ap ok (omega arith))
batch_size-cases (x ∷ xs) t h =
    let total : t + length x + size xs ≡ t + (length x + size xs) = omega arith in
    rw (to_u64_exact (length x) (omega arith), u64_add_exact t (length x) (omega arith))
      (elim (Bool-cases (ltb u32_max (length x))) [
        | inl large ↦ rw large (inr (too_large, refl))
        | inr fits ↦ rw (fits, sym total) (batch_size-cases xs (t + length x) (omega arith))
      ])

-- Bytes at the end of the log, whatever they are, are not seen.
viewed-append_file :
    (raw : Bytes) (h : Locked) → IsLogged h.stream → viewed (append_file raw h) ≡ viewed h
unfolding append_file
viewed-append_file raw h logged =
    ap
      (λ t. record {
        stream = record (view h.stream) { messages = t };
        total_bytes = h.total_bytes;
      })
      (messages-append h.stream.file raw 0 h.stream.index logged.inside)

refresh-IsLogged :
    (raw : Bytes) (h : Locked)
    → IsLogged h.stream
    → IsLogged (refresh_len true (append_file raw h)).stream
unfolding append_file refresh_len
refresh-IsLogged raw h logged =
    let longer = length-append h.stream.file raw in
    record {
      inside =
          LiesIn-weaken 0 (length h.stream.file) (length (h.stream.file ++ raw)) h.stream.index
            (omega (arith, longer)) logged.inside;
      measured = refl;
    }

-- A failed append leaves what is seen as it was, and an index that points into the log.
pub record IsUndone (h h' : Locked) : Type 0 where
  pub same : viewed h' ≡ viewed h
  pub logged : IsLogged h'.stream

abbrev pub IsDoneOrUndone : Locked → Result (Unit {0}) × Locked → Type 0
IsDoneOrUndone h (r, h') = (r ≡ ok tt) ⊎ IsUndone h h'

module _ (l : Limits) (sync_on_append : Bool) (io : LogIo) (name : Text)
    (stat_ok : io.stat_ok ≡ true) where
  -- The way out of a failed write or sync.
  rolled_back :
      (raw : Bytes) (batch : ℕ) (h : Locked)
      → IsLogged h.stream
      → h.total_bytes + batch < u64_mod
      → IsUndone h (
          rollback_total_bytes batch (
            refresh_len io.stat_ok
              (append_file raw (record h { total_bytes = h.total_bytes + batch }))))
  unfolding rollback_total_bytes refresh_len saturating_sub append_file
  rolled_back raw batch h logged fits =
      let total : h.total_bytes + batch - batch ≡ h.total_bytes = omega arith in
      let fresh = refresh-IsLogged raw h logged in
      rw stat_ok (record {
        same = rw total (viewed-append_file raw h logged);
        logged = record { inside = fresh.inside; measured = fresh.measured };
      })

  abbrev steps : Bytes → ℕ → (StreamEntry → StreamEntry) → Exec Locked (Unit {0})
  steps raw batch f =
      write_log io name raw batch >> (sync_log sync_on_append io name batch >> on_entry f)

  steps-outcome :
      (raw : Bytes) (batch : ℕ) (f : StreamEntry → StreamEntry) (h : Locked)
      → IsLogged h.stream
      → h.total_bytes + batch < u64_mod
      → IsDoneOrUndone h (steps raw batch f (record h { total_bytes = h.total_bytes + batch }))
  unfolding write_log sync_log
  steps-outcome raw batch f h logged fits = elim (Option-cases io.write_all) [
    | inr ((x, written), torn) ↦ rw torn (inr (rolled_back (take written raw) batch h logged fits))
    | inl whole ↦ elim (Bool-cases sync_on_append) [
      | inl syncs ↦ elim (Option-cases io.sync_data) [
        | inr (x, unsynced) ↦
            rw (whole, syncs, unsynced) (inr (rolled_back raw batch h logged fits))
        | inl synced ↦ rw (whole, syncs, synced) (inl refl)
      ]
      | inr no_sync ↦ rw (whole, no_sync) (inl refl)
    ]
  ]

  -- An append to a stream whose index points into its log, whichever of the writes and the sync fail
  -- and whatever part of the batch gets into the log: it returns ok, or a reader sees the old stream
  -- and the byte count is the old one, and the index points into the log as before. The file's length
  -- can be read behind a failure, and the count and the batch fit a `u64` together.
  pub append_records-undone :
      (xs : List Bytes) (h : Locked)
      → IsLogged h.stream
      → h.total_bytes + size xs < u64_mod
      → IsDoneOrUndone h (append_records l sync_on_append io name xs h)
  unfolding append_records check_and_reserve
  append_records-undone [] h logged fits = inl refl
  append_records-undone (x ∷ xs) h logged fits =
      let total : ℕ = size (x ∷ xs) in
      let start : 0 + total ≡ total = omega arith in
      let same : IsUndone h h = record { same = refl; logged = logged } in
      let global = u64_add_exact h.total_bytes total fits in
      elim (batch_size-cases (x ∷ xs) 0 (rw start (omega (arith, fits)))) [
        | inr (e, large) ↦ rw large (inr same)
        | inl sized ↦
            rw (sized, start, global)
              (elim (Bool-cases (ltb l.max_total_bytes (h.total_bytes + total))) [
                | inl over ↦ rw over (inr same)
                | inr room ↦
                    elim (Bool-cases
                      (ltb l.max_stream_bytes (u64_add h.stream.total_bytes total))) [
                        | inl over ↦ rw (room, over) (inr same)
                        | inr fit ↦
                            rw (room, fit)
                              (steps-outcome (write_buf (x ∷ xs)) total
                                (λ e. notify_all (push_records e.file_len (x ∷ xs) e)) h logged
                                fits)
                      ]
              ])
      ]
