-- ===== src/Memory/Creation.antt =====
-- A stream that is created with its first data: what is stored and what a reader gets of it.
use durable_streams_referenc.Prelude.{
  ◌≡◌, refl, sym, ap, ◌∙◌, Bool, true, false, none, some, List, [], ◌∷◌, subst,
}
use durable_streams_referenc.Prelude.Text.{Bytes, Text, text_eq_self}
use durable_streams_referenc.Prelude.Dict.{lookup, lookup-insert}
use durable_streams_referenc.Error.{Result, ok, err}
use durable_streams_referenc.Offset.{start}
use durable_streams_referenc.Storage.{
  DateTime, StreamConfig, CreateWithDataResult, created, is_stream_expired,
}
use durable_streams_referenc.Memory.{
  InMemoryStorage, create_stream_with_data, insert_with_data, insert_committed, entry_result, read,
  read_stream,
}
use durable_streams_referenc.Memory.Entry.{StreamEntry, Held, new_entry, commit_messages, send}
use durable_streams_referenc.Memory.Methods.{close_if}
use durable_streams_referenc.Memory.Layout.{
  contents, IsValid, contents-extended, extended-IsValid, new_entry-IsValid,
}
use durable_streams_referenc.Memory.Commit.{IsCountable, committed, commit_messages-ok}
use durable_streams_referenc.Memory.Resume.{read_held-start}
use durable_streams_referenc.Memory.Invariant.{IsConsistent, held, new_entry-IsSound}

-- A new stream with its first messages.
record IsFilled (xs : List Bytes) (config : StreamConfig) (e : StreamEntry) : Type 0 where
  pub filled : contents e ≡ xs
  pub valid : IsValid e
  pub same_config : e.config ≡ config
  pub still_open : e.closed ≡ false

new_entry-IsFilled :
    (config : StreamConfig) (created_at : DateTime)
    → IsFilled [] config (new_entry config created_at)
unfolding new_entry
new_entry-IsFilled config created_at = record {
  filled = refl;
  valid = new_entry-IsValid config created_at;
  same_config = refl;
  still_open = refl;
}

committed-IsFilled :
    (xs : List Bytes) (config : StreamConfig) (created_at : DateTime) (s : InMemoryStorage)
    → IsFilled xs config (committed xs (held (new_entry config created_at) s)).stream
unfolding send new_entry
committed-IsFilled xs config created_at s =
    let v =
      extended-IsValid xs (new_entry config created_at) (new_entry-IsValid config created_at) in
    record {
      filled = contents-extended xs (new_entry config created_at);
      valid = record {
        laid_out = v.laid_out;
        counted = v.counted;
        measured = v.measured;
        totalled = v.totalled;
      };
      same_config = refl;
      still_open = refl;
    }

module _ (name : Text) (config : StreamConfig) (created_at : DateTime) (s : InMemoryStorage)
    (c : IsConsistent s) (missing : lookup name s.streams ≡ none) where
  abbrev fresh : Held
  fresh = held (new_entry config created_at) s

  commit-IsFilled :
      (xs : List Bytes)
      → IsCountable (new_entry config created_at) xs
      → (commit_messages s.limits xs fresh).0 ≡ ok tt
      → IsFilled xs config (commit_messages s.limits xs fresh).1.stream
  unfolding commit_messages
  commit-IsFilled [] fits h = new_entry-IsFilled config created_at
  commit-IsFilled (x ∷ xs) fits h =
      subst (λ (t : Held). IsFilled (x ∷ xs) config t.stream)
        (sym (
          commit_messages-ok s.limits (x ∷ xs) fresh (λ e. cc)
            (new_entry-IsSound name s c missing config created_at) fits h))
        (committed-IsFilled (x ∷ xs) config created_at s)

close_if-contents : (flag : Bool) (e : StreamEntry) → contents (close_if flag e) ≡ contents e
unfolding close_if
close_if-contents true e = refl
close_if-contents false e = refl

close_if-IsValid : (flag : Bool) (e : StreamEntry) → IsValid e → IsValid (close_if flag e)
unfolding close_if
close_if-IsValid false e v = v
close_if-IsValid true e v = record {
  laid_out = v.laid_out;
  counted = v.counted;
  measured = v.measured;
  totalled = v.totalled;
}

close_if-closed :
    (flag : Bool) (e : StreamEntry)
    → e.closed ≡ false
    → ((close_if flag e).closed ≡ flag) × ((close_if flag e).config ≡ e.config)
unfolding close_if
close_if-closed true e h = (refl, refl)
close_if-closed false e h = (h, refl)

insert_committed_ok :
    (name : Text) (flag : Bool) (s : InMemoryStorage) (out : Result (Unit {0}) × Held)
    (r : CreateWithDataResult)
    → (insert_committed name flag s out).0 ≡ ok r
    → (out.0 ≡ ok tt)
      × (r ≡ entry_result created (close_if flag out.1.stream))
      × (lookup name (insert_committed name flag s out).1.streams
          ≡ some (close_if flag out.1.stream))
unfolding insert_committed
insert_committed_ok name flag s (err e, h) r success = cc
insert_committed_ok name flag s (ok u, h) r success = (
  refl,
  cc success,
  rw (lookup-insert name name (close_if flag h.stream) s.streams, text_eq_self name) refl,
)

module _ (name : Text) (config : StreamConfig) (xs : List Bytes) (should_close : Bool)
    (now created_at : DateTime) (s : InMemoryStorage) (c : IsConsistent s)
    (missing : lookup name s.streams ≡ none) (fits : IsCountable (new_entry config created_at) xs)
    (r : CreateWithDataResult) where
  abbrev commit : Result (Unit {0}) × Held
  commit = commit_messages s.limits xs (fresh name config created_at s c missing)

  abbrev entry : StreamEntry
  entry = close_if should_close commit.1.stream

  abbrev outcome : Result CreateWithDataResult × InMemoryStorage
  outcome = create_stream_with_data name config xs should_close now created_at s

  inserted : outcome ≡ insert_committed name should_close s commit
  unfolding create_stream_with_data insert_with_data
  inserted = rw (create_stream_with_data, missing) refl

  succeeded :
      outcome.0 ≡ ok r
      → (commit.0 ≡ ok tt)
        × (r ≡ entry_result created entry)
        × (lookup name outcome.1.streams ≡ some entry)
  succeeded h = rw inserted (insert_committed_ok name should_close s commit r (rw inserted at h))

  -- On a consistent storage, creating a stream of a new name with data, when it succeeds, answers
  -- `created` with the closed flag that was asked for, and a read from the start, while the stream
  -- lives, returns exactly the data, that flag, and the answer's offset as the next one. (The data
  -- can be counted in a `u64`.)
  pub read-create_stream_with_data :
      outcome.0 ≡ ok r
      → (time : DateTime) → is_stream_expired config time ≡ false
      → (r.status ≡ created)
        × (r.closed ≡ should_close)
        × (read name start time outcome.1
            ≡ ok (record {
              messages = xs;
              next_offset = r.next_offset;
              at_tail = true;
              closed = should_close;
            }))
  unfolding read read_stream entry_result
  read-create_stream_with_data h time live =
      let (committed, result, stored) = succeeded h in
      let full = commit-IsFilled name config created_at s c missing xs fits committed in
      let (flag, kept) = close_if-closed should_close commit.1.stream full.still_open in
      let same_config : entry.config ≡ config = kept ∙ full.same_config in
      let live' : is_stream_expired entry.config time ≡ false =
        ap (λ k. is_stream_expired k time) same_config ∙ live in
      let whole : contents entry ≡ xs =
        close_if-contents should_close commit.1.stream ∙ full.filled in
      let got =
        read_held-start time entry (close_if-IsValid should_close commit.1.stream full.valid)
          live' in
      rw result (refl, flag, rw (read, read_stream, stored, got, whole, flag) refl)
