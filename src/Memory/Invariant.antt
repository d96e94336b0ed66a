-- ===== src/Memory/Invariant.antt =====
-- The invariant of the in-memory storage, kept by every method whatever it returns: each stream
-- is valid and within its limit, and the global byte count is the sum over the streams and within
-- its own.
use durable_streams_referenc.Prelude.{
  ℕ, ◌+◌, ◌≤◌, ◌<◌, ◌≡◌, refl, ap, Bool, true, false, none, some, List, arith, Option-cases, inl,
  inr,
}
use durable_streams_referenc.Prelude.Text.{Bytes, Text}
use durable_streams_referenc.Prelude.Word.{u64_mod, saturating_sub}
use durable_streams_referenc.Prelude.Dict.{
  lookup, insert, IsDistinct, AllValues, sum_by, insert-IsDistinct, remove-IsDistinct,
  insert-AllValues, remove-AllValues, lookup-AllValues, sum_by-insert, sum_by-insert_new,
  sum_by-remove, lookup-le-sum_by,
}
use durable_streams_referenc.Error.{Error, Result, ok, err}
use durable_streams_referenc.Error.Exec.{Exec}
use durable_streams_referenc.Storage.{DateTime, StreamConfig}
use durable_streams_referenc.Memory.{
  InMemoryStorage, with_stream, evict, insert_new, insert_committed, insert_with_data,
}
use durable_streams_referenc.Memory.Entry.{StreamEntry, new_entry, Limits, Held, commit_messages}
use durable_streams_referenc.Memory.Methods.{close_if}
use durable_streams_referenc.Memory.Layout.{IsValid, new_entry-IsValid}
use durable_streams_referenc.Memory.Commit.{IsSound, IsCountable, commit_messages-err}
use durable_streams_referenc.Memory.Accounts.{Accounts, commit_messages-Accounts}

pub record IsFit (l : Limits) (e : StreamEntry) : Type 0 where
  pub valid : IsValid e
  pub small : e.total_bytes ≤ l.max_stream_bytes

abbrev pub bytes_of : StreamEntry → ℕ
bytes_of e = e.total_bytes

pub record IsConsistent (s : InMemoryStorage) : Type 0 where
  pub word : s.limits.max_total_bytes < u64_mod
  pub distinct : IsDistinct s.streams
  pub entries : AllValues (IsFit s.limits) s.streams
  pub accounted : s.total_bytes ≡ sum_by bytes_of s.streams
  pub bounded : s.total_bytes ≤ s.limits.max_total_bytes

abbrev pub held : StreamEntry → InMemoryStorage → Held
held e s = record { stream = e; total_bytes = s.total_bytes }

module _ (name : Text) (s : InMemoryStorage) (c : IsConsistent s) where
  pub held-IsSound :
      (e : StreamEntry) → lookup name s.streams ≡ some e → IsSound s.limits (held e s)
  held-IsSound e found =
      let fit : IsFit s.limits e =
        lookup-AllValues (IsFit s.limits) name s.streams c.entries found in
      record {
        word = c.word;
        valid = fit.valid;
        small = fit.small;
        inside = omega (arith, lookup-le-sum_by bytes_of name e s.streams found, c.accounted);
        bounded = c.bounded;
      }

  -- The write-back of an entry whose accounts balance.
  replace-IsConsistent :
      (e : StreamEntry) (h : Held)
      → lookup name s.streams ≡ some e
      → Accounts s.limits (held e s) h
      → IsConsistent
          (record s { streams = insert name h.stream s.streams; total_bytes = h.total_bytes })
  replace-IsConsistent e h found a = record {
    word = c.word;
    distinct = insert-IsDistinct name h.stream s.streams c.distinct;
    entries =
        insert-AllValues (IsFit s.limits) name h.stream s.streams
          (record { valid = a.sound.valid; small = a.sound.small }) c.entries;
    accounted =
        omega
          (arith, sum_by-insert bytes_of name h.stream e s.streams found, a.balance, c.accounted);
    bounded = a.sound.bounded;
  }

  pub with_stream-IsConsistent :
      {A : Type 0} (body : Exec Held A)
      → ((e : StreamEntry)
          → lookup name s.streams ≡ some e
          → Accounts s.limits (held e s) (body (held e s)).1)
      → IsConsistent (with_stream name body s).1
  unfolding with_stream
  with_stream-IsConsistent body keep = elim (Option-cases (lookup name s.streams)) [
    | inl missing ↦ rw (with_stream, missing) c
    | inr (e, found) ↦
        rw (with_stream, found) (replace-IsConsistent e (body (held e s)).1 found (keep e found))
  ]

  pub evict-IsConsistent :
      (e : StreamEntry) → lookup name s.streams ≡ some e → IsConsistent (evict name e s)
  unfolding evict saturating_sub
  evict-IsConsistent e found = record {
    word = c.word;
    distinct = remove-IsDistinct name s.streams c.distinct;
    entries = remove-AllValues (IsFit s.limits) name s.streams c.entries;
    accounted = omega (arith, sum_by-remove bytes_of name e s.streams found, c.accounted);
    bounded = omega (arith, c.bounded);
  }

-- A new stream, under a name that the map does not hold.
module _ (name : Text) (s : InMemoryStorage) (c : IsConsistent s)
    (absent : lookup name s.streams ≡ none) where
  add-IsConsistent :
      (h : Held)
      → IsSound s.limits h
      → h.total_bytes ≡ s.total_bytes + h.stream.total_bytes
      → IsConsistent
          (record s { streams = insert name h.stream s.streams; total_bytes = h.total_bytes })
  add-IsConsistent h sound grown = record {
    word = c.word;
    distinct = insert-IsDistinct name h.stream s.streams c.distinct;
    entries =
        insert-AllValues (IsFit s.limits) name h.stream s.streams
          (record { valid = sound.valid; small = sound.small }) c.entries;
    accounted =
        omega
          (arith, sum_by-insert_new bytes_of name h.stream s.streams absent, grown, c.accounted);
    bounded = sound.bounded;
  }

  pub new_entry-IsSound :
      (config : StreamConfig) (created_at : DateTime)
      → IsSound s.limits (held (new_entry config created_at) s)
  new_entry-IsSound config created_at = record {
    word = c.word;
    valid = new_entry-IsValid config created_at;
    small = unfold new_entry in omega arith;
    inside = unfold new_entry in omega arith;
    bounded = c.bounded;
  }

  pub insert_new-IsConsistent :
      (config : StreamConfig) (created_at : DateTime)
      → IsConsistent (insert_new name config created_at s).1
  unfolding insert_new
  insert_new-IsConsistent config created_at =
      add-IsConsistent (held (new_entry config created_at) s) (new_entry-IsSound config created_at)
        (unfold new_entry in omega arith)

  insert_committed-IsConsistent :
      (should_close : Bool) (config : StreamConfig) (created_at : DateTime)
      (r : Result (Unit {0}) × Held)
      → Accounts s.limits (held (new_entry config created_at) s) r.1
      → ((e : Error) → r.0 ≡ err e → r.1 ≡ held (new_entry config created_at) s)
      → IsConsistent (insert_committed name should_close s r).1
  unfolding insert_committed close_if new_entry
  insert_committed-IsConsistent should_close config created_at (err e, h) a undone =
      let same = ap (λ (t : Held). t.total_bytes) (undone e refl) in rw same c
  insert_committed-IsConsistent true config created_at (ok u, h) a undone =
      let closed : Held = record h { stream = close_if true h.stream } in
      add-IsConsistent closed (ground arith) (omega (arith, a.balance))
  insert_committed-IsConsistent false config created_at (ok u, h) a undone =
      add-IsConsistent h a.sound (omega (arith, a.balance))

  pub insert_with_data-IsConsistent :
      (config : StreamConfig) (messages : List Bytes) (should_close : Bool) (created_at : DateTime)
      → IsCountable (new_entry config created_at) messages
      → IsConsistent (insert_with_data name config messages should_close created_at s).1
  unfolding insert_with_data
  insert_with_data-IsConsistent config messages should_close created_at fits =
      let h = held (new_entry config created_at) s in
      let sound = new_entry-IsSound config created_at in
      insert_committed-IsConsistent should_close config created_at
        (commit_messages s.limits messages h)
        (commit_messages-Accounts s.limits h sound messages fits)
        (λ e. commit_messages-err s.limits messages h e sound fits)
