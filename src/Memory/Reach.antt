-- ===== src/Memory/Reach.antt =====
-- The invariant over every sequence of calls of the in-memory storage.
use durable_streams_referenc.Prelude.{
  ℕ, ◌<◌, ◌≡◌, Bool, Option, none, some, List, [], ◌∷◌, arith, Option-cases, inl, inr,
}
use durable_streams_referenc.Prelude.Text.{Bytes, Text}
use durable_streams_referenc.Prelude.Word.{u64_mod}
use durable_streams_referenc.Prelude.Dict.{lookup, lookup-remove_self, sum_by}
use durable_streams_referenc.Producer.{ProducerHeaders}
use durable_streams_referenc.Storage.{DateTime, StreamConfig}
use durable_streams_referenc.Memory.{
  InMemoryStorage, new_storage, evict, create_stream, append, batch_append, delete, close_stream,
  append_with_producer, create_stream_with_data,
}
use durable_streams_referenc.Memory.Entry.{StreamEntry, new_entry}
use durable_streams_referenc.Memory.Methods.{
  Readings, append_held, batch_append_held, append_with_producer_held, close_held,
}
use durable_streams_referenc.Memory.Commit.{IsCountable}
use durable_streams_referenc.Memory.Accounts.{
  append_held-Accounts, batch_append_held-Accounts, close_held-Accounts,
  append_with_producer_held-Accounts,
}
use durable_streams_referenc.Memory.Invariant.{
  IsConsistent, held, held-IsSound, with_stream-IsConsistent, evict-IsConsistent,
  insert_new-IsConsistent, insert_with_data-IsConsistent,
}

-- The batch can be counted in a `u64` on top of the stream of that name, and as a first batch.
abbrev pub HasRoom : Text → List Bytes → InMemoryStorage → Type 0
HasRoom name xs s = (e : StreamEntry) → lookup name s.streams ≡ some e → IsCountable e xs

abbrev pub IsFirstBatch : StreamConfig → List Bytes → DateTime → Type 0
IsFirstBatch config xs created_at = IsCountable (new_entry config created_at) xs

module _ (name : Text) (s : InMemoryStorage) (c : IsConsistent s) where
  append-IsConsistent :
      (body : Bytes) (ct : Text) (now : DateTime)
      → HasRoom name (body ∷ []) s
      → IsConsistent (append name body ct now s).1
  unfolding append
  append-IsConsistent body ct now room =
      with_stream-IsConsistent name s c (append_held s.limits body ct now) (λ e found.
        append_held-Accounts s.limits (held e s) (held-IsSound name s c e found) body ct now
          (room e found))

  -- A batch append keeps the invariant, whatever it returns.
  pub batch_append-IsConsistent :
      (xs : List Bytes) (ct : Text) (seq : Option Text) (now : DateTime)
      → HasRoom name xs s
      → IsConsistent (batch_append name xs ct seq now s).1
  unfolding batch_append
  batch_append-IsConsistent [] ct seq now room = c
  batch_append-IsConsistent (x ∷ xs) ct seq now room =
      with_stream-IsConsistent name s c (batch_append_held s.limits (x ∷ xs) ct seq now) (λ e found.
        batch_append_held-Accounts s.limits (held e s) (held-IsSound name s c e found) (x ∷ xs) ct
          seq now (room e found))

  close_stream-IsConsistent : (now : DateTime) → IsConsistent (close_stream name now s).1
  unfolding close_stream
  close_stream-IsConsistent now =
      with_stream-IsConsistent name s c (close_held now)
        (λ e found. close_held-Accounts s.limits (held e s) (held-IsSound name s c e found) now)

  -- A producer's append keeps the invariant, whatever it returns.
  pub append_with_producer-IsConsistent :
      (xs : List Bytes) (ct : Text) (p : ProducerHeaders) (close : Bool) (seq : Option Text)
      (at : Readings)
      → HasRoom name xs s
      → IsConsistent (append_with_producer name xs ct p close seq at s).1
  unfolding append_with_producer
  append_with_producer-IsConsistent xs ct p close seq at room =
      with_stream-IsConsistent name s c (append_with_producer_held s.limits xs ct p close seq at)
        (λ e found.
          append_with_producer_held-Accounts s.limits (held e s) (held-IsSound name s c e found) xs
            ct p close seq at (room e found))

  delete-IsConsistent : IsConsistent (delete name s).1
  unfolding delete
  delete-IsConsistent = elim (Option-cases (lookup name s.streams)) [
    | inl missing ↦ rw (delete, missing) c
    | inr (e, found) ↦ rw (delete, found) (evict-IsConsistent name s c e found)
  ]

  evicted_name : (e : StreamEntry) → lookup name (evict name e s).streams ≡ none
  unfolding evict
  evicted_name e = lookup-remove_self name s.streams c.distinct

  create_stream-IsConsistent :
      (config : StreamConfig) (now created_at : DateTime)
      → IsConsistent (create_stream name config now created_at s).1
  unfolding create_stream
  create_stream-IsConsistent config now created_at = elim (Option-cases (lookup name s.streams)) [
    | inl missing ↦
        rw (create_stream, missing) (insert_new-IsConsistent name s c missing config created_at)
    | inr (e, found) ↦
        rw (create_stream, found)
          (ground (
            arith,
            c,
            insert_new-IsConsistent name (evict name e s) (evict-IsConsistent name s c e found)
                (evicted_name e) config created_at,
          ))
  ]

  -- Creating a stream with data keeps the invariant, whatever it returns.
  pub create_stream_with_data-IsConsistent :
      (config : StreamConfig) (xs : List Bytes) (close : Bool) (now created_at : DateTime)
      → IsFirstBatch config xs created_at
      → IsConsistent (create_stream_with_data name config xs close now created_at s).1
  unfolding create_stream_with_data
  create_stream_with_data-IsConsistent config xs close now created_at fits =
      elim (Option-cases (lookup name s.streams)) [
        | inl missing ↦
            rw (create_stream_with_data, missing)
              (insert_with_data-IsConsistent name s c missing config xs close created_at fits)
        | inr (e, found) ↦
            rw (create_stream_with_data, found)
              (ground (
                arith,
                c,
                insert_with_data-IsConsistent name (evict name e s)
                    (evict-IsConsistent name s c e found) (evicted_name e) config xs close
                    created_at fits,
              ))
      ]

-- The calls of the storage that may change it, with any arguments whose sizes can be counted.
pub data Step : InMemoryStorage → InMemoryStorage → Type 0 where
  do_create :
      (s : InMemoryStorage) (name : Text) (config : StreamConfig) (now created_at : DateTime)
      → Step s (create_stream name config now created_at s).1
  do_append :
      (s : InMemoryStorage) (name : Text) (body : Bytes) (ct : Text) (now : DateTime)
      → HasRoom name (body ∷ []) s
      → Step s (append name body ct now s).1
  do_batch_append :
      (s : InMemoryStorage) (name : Text) (xs : List Bytes) (ct : Text) (seq : Option Text)
      (now : DateTime)
      → HasRoom name xs s
      → Step s (batch_append name xs ct seq now s).1
  do_delete : (s : InMemoryStorage) (name : Text) → Step s (delete name s).1
  do_close :
      (s : InMemoryStorage) (name : Text) (now : DateTime) → Step s (close_stream name now s).1
  do_append_with_producer :
      (s : InMemoryStorage) (name : Text) (xs : List Bytes) (ct : Text) (p : ProducerHeaders)
      (close : Bool) (seq : Option Text) (at : Readings)
      → HasRoom name xs s
      → Step s (append_with_producer name xs ct p close seq at s).1
  do_create_with_data :
      (s : InMemoryStorage) (name : Text) (config : StreamConfig) (xs : List Bytes) (close : Bool)
      (now created_at : DateTime)
      → IsFirstBatch config xs created_at
      → Step s (create_stream_with_data name config xs close now created_at s).1

pub data Reach (s : InMemoryStorage) : InMemoryStorage → Type 0 where
  here : Reach s s
  next : {t u : InMemoryStorage} → Reach s t → Step t u → Reach s u

Step-IsConsistent : {s t : InMemoryStorage} → Step s t → IsConsistent s → IsConsistent t
Step-IsConsistent (do_create s name config now created_at) c =
    create_stream-IsConsistent name s c config now created_at
Step-IsConsistent (do_append s name body ct now room) c =
    append-IsConsistent name s c body ct now room
Step-IsConsistent (do_batch_append s name xs ct seq now room) c =
    batch_append-IsConsistent name s c xs ct seq now room
Step-IsConsistent (do_delete s name) c = delete-IsConsistent name s c
Step-IsConsistent (do_close s name now) c = close_stream-IsConsistent name s c now
Step-IsConsistent (do_append_with_producer s name xs ct p close seq at room) c =
    append_with_producer-IsConsistent name s c xs ct p close seq at room
Step-IsConsistent (do_create_with_data s name config xs close now created_at fits) c =
    create_stream_with_data-IsConsistent name s c config xs close now created_at fits

new_storage-IsConsistent :
    (max_total max_stream : ℕ)
    → max_total < u64_mod
    → IsConsistent (new_storage max_total max_stream)
unfolding new_storage sum_by
new_storage-IsConsistent max_total max_stream h = ground arith

Reach-keeps : {s t : InMemoryStorage} → IsConsistent s → Reach s t → IsConsistent t
Reach-keeps c here = c
Reach-keeps c (next r st) = Step-IsConsistent st (Reach-keeps c r)

-- From an empty storage whose global limit fits a `u64`, after any sequence of calls that succeed or
-- fail and whose batches can be counted in a `u64`, every stream is valid and within its limit, and
-- the global count is the sum of the streams' bytes and within its own.
pub Reach-IsConsistent :
    (max_total max_stream : ℕ) {s : InMemoryStorage}
    → max_total < u64_mod
    → Reach (new_storage max_total max_stream) s
    → IsConsistent s
Reach-IsConsistent max_total max_stream h r =
    Reach-keeps (new_storage-IsConsistent max_total max_stream h) r
