-- ===== src/File/Contract.antt =====
-- The methods of the file storage under the lock of a stream, src/storage/file.rs, against those of the
-- in-memory storage, src/storage/memory.rs, while the disk works.
use durable_streams_referenc.Prelude.{
  ◌+◌, ◌<◌, ◌≡◌, refl, ap, ◌∙◌, Bool, true, false, Option, none, some, List, arith, All, length-map,
}
use durable_streams_referenc.Prelude.Text.{Bytes, Text}
use durable_streams_referenc.Prelude.Word.{u64_mod}
use durable_streams_referenc.Error.{Error, Result, ok, err}
use durable_streams_referenc.Error.Exec.{Exec, gets, lift, raise_if, ◌>>◌, ◌>>=◌, continue}
use durable_streams_referenc.Offset.{Offset}
use durable_streams_referenc.Producer.{ProducerHeaders}
use durable_streams_referenc.Storage.{
  DateTime, Readings, ProducerAppendResult, accepted, validate_seq, cleanup_stale_producers,
}
use durable_streams_referenc.Memory.Entry.{Held, on_stream, commit_messages, tail_offset}
use durable_streams_referenc.Memory.Methods.{
  batch_append_held, append_with_producer_held, accept_append, head_held, close_if, commit_seq,
  record_producer,
}
use durable_streams_referenc.Memory.Layout.{size}
use durable_streams_referenc.Memory.Commit.{IsSound, IsCountable}
use durable_streams_referenc.File.Record.Layout.{IsShort}
use durable_streams_referenc.File.Entry.{StreamEntry, Locked, append_records, on_entry, tail_of}
use durable_streams_referenc.File.Meta.{write_metadata_for}
use durable_streams_referenc.File.Methods.{
  Settings, Io, persist_best_effort, batch_append_locked, set_closed_if, record_seq, set_seq,
  set_producer, commit_producer, append_with_producer_locked, head_locked,
}
use durable_streams_referenc.File.View.{message_at, view, viewed, IsLogged}
use durable_streams_referenc.File.Refine.{seen, IsWorking, append_records-refines}

-- A batch that the disk takes, on a sound stream, counters not wrapping round.
pub record IsReady (st : Settings) (io : Io) (xs : List Bytes) (h : Locked) : Type 0 where
  pub working : IsWorking st.sync_on_append io.log
  pub short : All IsShort xs
  pub fits : h.total_bytes + size xs < u64_mod
  pub logged : IsLogged h.stream
  pub sound : IsSound st.limits (viewed h)
  pub countable : IsCountable (view h.stream) xs

-- The steps of two methods that run side by side.
module _ {A B : Type 0} where
  bind-seen :
      (r : Result A × Locked) (r' : Result A × Held) (f : A → Exec Locked B) (f' : A → Exec Held B)
      → seen r ≡ r'
      → ((a : A) (h : Locked) → seen (f a h) ≡ f' a (viewed h))
      → seen (continue r.0 f r.1) ≡ continue r'.0 f' r'.1
  bind-seen (ok a, h) r' f f' e step =
      step a h ∙ ap (λ (t : Result A × Held). continue t.0 f' t.1) e
  bind-seen (err x, h) r' f f' e step = ap (λ (t : Result A × Held). continue t.0 f' t.1) e

  lift-seen :
      (r : Result A) (f : A → Exec Locked B) (f' : A → Exec Held B) (h : Locked)
      → ((a : A) → seen (f a h) ≡ f' a (viewed h))
      → seen ((lift r >>= f) h) ≡ (lift r >>= f') (viewed h)
  lift-seen (ok a) f f' h step = step a
  lift-seen (err x) f f' h step = refl

raise_if-seen :
    {B : Type 0} (test : Bool) (x : Error) (k : Exec Locked B) (k' : Exec Held B) (h : Locked)
    → seen (k h) ≡ k' (viewed h)
    → seen ((raise_if test x >> k) h) ≡ (raise_if test x >> k') (viewed h)
raise_if-seen true x k k' h step = refl
raise_if-seen false x k k' h step = step

module _ (st : Settings) (io : Io) (name : Text) where
  write_metadata-viewed :
      (h : Locked) → viewed (write_metadata_for st.roots st.format io.meta name h).1 ≡ viewed h
  unfolding write_metadata_for
  write_metadata-viewed h = ground arith

  append_records-commits :
      (xs : List Bytes) (h : Locked)
      → IsReady st io xs h
      → seen (append_records st.limits st.sync_on_append io.log name xs h)
        ≡ commit_messages st.limits xs (viewed h)
  append_records-commits xs h r =
      append_records-refines st.limits st.sync_on_append io.log name xs h r.working r.short r.fits
        r.logged r.sound r.countable

  record_seq-seen :
      (pending : Option Text) (h : Locked)
      → seen ((record_seq st io.meta name pending >> gets (λ t. tail_of t.stream)) h)
        ≡ (on_stream (commit_seq pending) >> gets (λ t. tail_offset t.stream)) (viewed h)
  unfolding record_seq commit_seq persist_best_effort tail_of tail_offset
  record_seq-seen none h = refl
  record_seq-seen (some seq) h =
      ap (λ (t : Held). (ok (tail_offset t.stream), t))
        (write_metadata-viewed (record h { stream = record (h.stream) { last_seq = some seq } }))

  -- What `batch_append` does behind its checks, in both storages.
  abbrev commit_file : List Bytes → Option Text → Exec Locked Offset
  commit_file xs pending =
      append_records st.limits st.sync_on_append io.log name xs
      >> (record_seq st io.meta name pending >> gets (λ t. tail_of t.stream))

  abbrev commit_memory : List Bytes → Option Text → Exec Held Offset
  commit_memory xs pending =
      commit_messages st.limits xs
      >> (on_stream (commit_seq pending) >> gets (λ t. tail_offset t.stream))

  batch_committed :
      (xs : List Bytes) (pending : Option Text) (h : Locked)
      → IsReady st io xs h
      → seen (commit_file xs pending h) ≡ commit_memory xs pending (viewed h)
  batch_committed xs pending h ready =
      bind-seen (append_records st.limits st.sync_on_append io.log name xs h)
        (commit_messages st.limits xs (viewed h))
        (λ _. record_seq st io.meta name pending >> gets (λ t. tail_of t.stream))
        (λ _. on_stream (commit_seq pending) >> gets (λ t. tail_offset t.stream))
        (append_records-commits xs h ready) (λ _. record_seq-seen pending)

  pub batch_append_locked-refines :
      (xs : List Bytes) (ct : Text) (seq : Option Text) (now : DateTime) (h : Locked)
      → IsReady st io xs h
      → seen (batch_append_locked st io name xs ct seq now h)
        ≡ batch_append_held st.limits xs ct seq now (viewed h)
  unfolding batch_append_locked batch_append_held
  batch_append_locked-refines xs ct seq now h ready =
      let inner =
        lift-seen (validate_seq h.stream.last_seq seq) (commit_file xs) (commit_memory xs) h
          (λ pending. batch_committed xs pending h ready) in
      ground (arith, inner)

  -- What follows the commit of a producer's append, in both storages.
  abbrev record_file :
      ProducerHeaders → Bool → Option Text → DateTime → Exec Locked ProducerAppendResult
  record_file p close pending now =
      on_entry (set_seq pending)
      >> (on_entry (set_closed_if close)
          >> (on_entry (set_producer p now)
              >> (persist_best_effort st io.meta name
                  >> gets (λ t. accepted p.epoch p.seq (tail_of t.stream) t.stream.closed))))

  abbrev record_memory :
      ProducerHeaders → Bool → Option Text → DateTime → Exec Held ProducerAppendResult
  record_memory p close pending now =
      on_stream (commit_seq pending)
      >> (on_stream (close_if close)
          >> (on_stream (record_producer p now)
              >> gets (λ t. accepted p.epoch p.seq (tail_offset t.stream) t.stream.closed)))

  -- The entry after a producer's append has been recorded.
  abbrev recorded : ProducerHeaders → Bool → Option Text → DateTime → Locked → Locked
  recorded p close pending now h = record h {
    stream = set_producer p now (set_closed_if close (set_seq pending h.stream));
  }

  recorded-viewed :
      (p : ProducerHeaders) (close : Bool) (pending : Option Text) (now : DateTime) (h : Locked)
      → viewed (recorded p close pending now h) ≡ record (viewed h) {
        stream = record_producer p now (close_if close (commit_seq pending (view h.stream)));
      }
  unfolding set_seq set_closed_if set_producer commit_seq close_if record_producer
  recorded-viewed p true none now h = refl
  recorded-viewed p false none now h = refl
  recorded-viewed p true (some seq) now h = refl
  recorded-viewed p false (some seq) now h = refl

  record_file-seen :
      (p : ProducerHeaders) (close : Bool) (pending : Option Text) (now : DateTime) (h : Locked)
      → seen (record_file p close pending now h) ≡ record_memory p close pending now (viewed h)
  unfolding persist_best_effort tail_of tail_offset
  record_file-seen p close pending now h =
      ap (λ (t : Held). (ok (accepted p.epoch p.seq (tail_offset t.stream) t.stream.closed), t))
        (write_metadata-viewed (recorded p close pending now h)
          ∙ recorded-viewed p close pending now h)

  abbrev producer_file :
      List Bytes
      → ProducerHeaders
      → Bool
      → DateTime
      → Option Text
      → Exec Locked ProducerAppendResult
  producer_file xs p close now pending =
      append_records st.limits st.sync_on_append io.log name xs >> record_file p close pending now

  abbrev producer_memory :
      List Bytes → ProducerHeaders → Bool → DateTime → Option Text → Exec Held ProducerAppendResult
  producer_memory xs p close now pending =
      commit_messages st.limits xs >> record_memory p close pending now

  producer_committed :
      (xs : List Bytes) (p : ProducerHeaders) (close : Bool) (now : DateTime)
      (pending : Option Text) (h : Locked)
      → IsReady st io xs h
      → seen (producer_file xs p close now pending h)
        ≡ producer_memory xs p close now pending (viewed h)
  producer_committed xs p close now pending h ready =
      bind-seen (append_records st.limits st.sync_on_append io.log name xs h)
        (commit_messages st.limits xs (viewed h)) (λ _. record_file p close pending now)
        (λ _. record_memory p close pending now) (append_records-commits xs h ready)
        (λ _. record_file-seen p close pending now)

  commit_producer-refines :
      (xs : List Bytes) (p : ProducerHeaders) (close : Bool) (seq : Option Text) (now : DateTime)
      (h : Locked)
      → IsReady st io xs h
      → seen (commit_producer st io name xs p close seq now h)
        ≡ accept_append st.limits xs p close seq now (viewed h)
  unfolding commit_producer accept_append
  commit_producer-refines xs p close seq now h ready =
      lift-seen (validate_seq h.stream.last_seq seq) (producer_file xs p close now)
        (producer_memory xs p close now) h
        (λ pending. producer_committed xs p close now pending h ready)

  cleaned-IsReady :
      (xs : List Bytes) (at : Readings) (h : Locked)
      → IsReady st io xs h
      → IsReady st io xs (record h {
        stream = record (h.stream) {
          producers = cleanup_stale_producers at.cleanup h.stream.producers;
        };
      })
  cleaned-IsReady xs at h ready = ground (arith, ready)

  pub append_with_producer_locked-refines :
      (xs : List Bytes) (ct : Text) (p : ProducerHeaders) (close : Bool) (seq : Option Text)
      (at : Readings) (h : Locked)
      → IsReady st io xs h
      → seen (append_with_producer_locked st io name xs ct p close seq at h)
        ≡ append_with_producer_held st.limits xs ct p close seq at (viewed h)
  unfolding append_with_producer_locked append_with_producer_held tail_of tail_offset
  append_with_producer_locked-refines xs ct p close seq at h ready =
      let cleaned : Locked = record h {
        stream = record (h.stream) {
          producers = cleanup_stale_producers at.cleanup h.stream.producers;
        };
      } in
      let inner =
        commit_producer-refines xs p close seq at.stamp cleaned (cleaned-IsReady xs at h ready) in
      ground (arith, inner)

  pub head_locked-refines :
      (now : DateTime) (e : StreamEntry) → head_locked now e ≡ head_held now (view e)
  unfolding head_locked head_held tail_of tail_offset
  head_locked-refines now e = rw (length-map (message_at e.file) e.index)
