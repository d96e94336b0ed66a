-- ===== src/Memory/Commit.antt =====
-- The commit of a batch: it is refused by one of the two limits and leaves everything alone, or
-- it extends the stream by exactly the batch and the count by its size.
use durable_streams_referenc.Prelude.{
  ℕ, ◌+◌, ◌≤◌, ◌<◌, ◌≡◌, ◌≢◌, refl, ◌∙◌, List, [], ◌∷◌, arith, Bool-cases, inl, inr, ltb,
  if◌then◌else◌, length,
}
use durable_streams_referenc.Prelude.Text.{Bytes}
use durable_streams_referenc.Prelude.Word.{
  u64_mod, to_u64, to_u64_exact, u64_add, u64_add_exact, checked_add, saturating_sub,
}
use durable_streams_referenc.Error.{
  Error, memory_limit_exceeded, stream_size_limit_exceeded, ok, err,
}
use durable_streams_referenc.Error.Exec.{Exec, pure, gets, ◌>>=◌, ◌>>◌}
use durable_streams_referenc.Offset.{Offset}
use durable_streams_referenc.Storage.{byte_len_of}
use durable_streams_referenc.Memory.Entry.{
  StreamEntry, Limits, Held, batch_bytes, reserve, check_stream_size, push_message, push_messages,
  tail_offset, send, commit_messages, on_stream,
}
use durable_streams_referenc.Memory.Layout.{
  size, contents, IsValid, extended, batch_bytes-size, push_message-extended,
  push_messages-extended,
}

-- What holds whenever a method has a stream's lock: the stream is valid and within its limit, its
-- bytes are counted in the global count, and that count is within its limit, a `u64`.
pub record IsSound (l : Limits) (h : Held) : Type 0 where
  pub word : l.max_total_bytes < u64_mod
  pub valid : IsValid h.stream
  pub small : h.stream.total_bytes ≤ l.max_stream_bytes
  pub inside : h.stream.total_bytes ≤ h.total_bytes
  pub bounded : h.total_bytes ≤ l.max_total_bytes

-- The batch's bytes and the stream's messages can be counted in a `u64`.
pub record IsCountable (e : StreamEntry) (xs : List Bytes) : Type 0 where
  pub bytes : size xs < u64_mod
  pub count : length (contents e) + length xs < u64_mod

-- The limits read off the true sizes.
abbrev pub commit_outcome : Limits → List Bytes → Exec Held (Unit {0})
commit_outcome l [] h = (ok tt, h)
commit_outcome l (x ∷ xs) h =
    if ltb l.max_total_bytes (h.total_bytes + size (x ∷ xs))
    then (err memory_limit_exceeded, h)
    else if ltb l.max_stream_bytes (h.stream.total_bytes + size (x ∷ xs))
    then (err stream_size_limit_exceeded, h)
    else (
      ok tt,
      record {
        stream = send (extended (x ∷ xs) h.stream);
        total_bytes = h.total_bytes + size (x ∷ xs);
      },
    )

module _ (l : Limits) (h : Held) (batch : ℕ) (sound : IsSound l h) (fits : batch < u64_mod) where
  reserve_lem : reserve l batch h ≡ (
      if ltb l.max_total_bytes (h.total_bytes + batch)
      then (err memory_limit_exceeded, h)
      else (ok tt, record h { total_bytes = h.total_bytes + batch }))
  unfolding reserve checked_add
  reserve_lem = ground (arith, sound.word)

  check_stream_size_lem :
      h.total_bytes + batch ≤ l.max_total_bytes
      → check_stream_size l batch (record h { total_bytes = h.total_bytes + batch }) ≡ (
          if ltb l.max_stream_bytes (h.stream.total_bytes + batch)
          then (err stream_size_limit_exceeded, h)
          else (ok tt, record h { total_bytes = h.total_bytes + batch }))
  unfolding check_stream_size saturating_sub
  check_stream_size_lem room =
      let exact : u64_add h.stream.total_bytes batch ≡ h.stream.total_bytes + batch =
        u64_add_exact h.stream.total_bytes batch (omega (arith, sound.word, sound.inside)) in
      ground (arith, exact)

  -- The two checks and what follows them, in both appending methods.
  pub guarded_lem :
      {A : Type 0} (k : Exec Held A)
      → (reserve l batch >> (check_stream_size l batch >> k)) h ≡ (
          if ltb l.max_total_bytes (h.total_bytes + batch)
          then (err memory_limit_exceeded, h)
          else if ltb l.max_stream_bytes (h.stream.total_bytes + batch)
          then (err stream_size_limit_exceeded, h)
          else k (record h { total_bytes = h.total_bytes + batch }))
  guarded_lem k =
      rw reserve_lem (elim (Bool-cases (ltb l.max_total_bytes (h.total_bytes + batch))) [
        | inl over ↦ rw over
        | inr room ↦ rw (room, check_stream_size_lem (ground arith)) (ground arith)
      ])

-- On a sound stream with a countable batch, a commit by the wrapping code has the outcome of the
-- limits on the true sizes.
pub commit_messages-outcome :
    (l : Limits) (xs : List Bytes) (h : Held)
    → IsSound l h
    → IsCountable h.stream xs
    → commit_messages l xs h ≡ commit_outcome l xs h
unfolding commit_messages
commit_messages-outcome l [] h sound c = refl
commit_messages-outcome l (x ∷ xs) h sound c =
    let total : ℕ = size (x ∷ xs) in
    let start : 0 + total ≡ total = omega arith in
    let batch : batch_bytes (x ∷ xs) 0 ≡ total =
      batch_bytes-size (x ∷ xs) 0 (rw start c.bytes) ∙ start in
    rw
      (
        batch,
        guarded_lem l h total sound c.bytes (on_stream (λ e. send (push_messages (x ∷ xs) e))),
      )
      (elim (Bool-cases (ltb l.max_total_bytes (h.total_bytes + total))) [
        | inl over ↦ rw over
        | inr room ↦
            let fits : h.total_bytes + total ≤ l.max_total_bytes = ground arith in
            let v = sound.valid in
            rw (
              room,
              push_messages-extended (x ∷ xs) h.stream (omega (arith, v.counted, c.count))
                  (omega (arith, v.measured, v.totalled, sound.inside, sound.word))
                  (omega (arith, sound.inside, sound.word)),
            )
      ])

-- `append`, the method for one message, has the outcome of the limits on the true size. It differs
-- from a batch of one message in that it sends no notification.
abbrev pub append_outcome : Limits → Bytes → Exec Held Offset
append_outcome l x h =
    if ltb l.max_total_bytes (h.total_bytes + length x)
    then (err memory_limit_exceeded, h)
    else if ltb l.max_stream_bytes (h.stream.total_bytes + length x)
    then (err stream_size_limit_exceeded, h)
    else (
      ok (tail_offset h.stream),
      record { stream = extended (x ∷ []) h.stream; total_bytes = h.total_bytes + length x },
    )

abbrev append_body : Limits → Bytes → Exec Held Offset
append_body l x = do
  reserve l (byte_len_of x)
  check_stream_size l (byte_len_of x)
  offset ← gets (λ h. tail_offset h.stream)
  on_stream (push_message x)
  pure offset

pub append_body-outcome :
    (l : Limits) (x : Bytes) (h : Held)
    → IsSound l h
    → IsCountable h.stream (x ∷ [])
    → append_body l x h ≡ append_outcome l x h
unfolding byte_len_of size
append_body-outcome l x h sound c =
    let exact : to_u64 (length x) ≡ length x = to_u64_exact (length x) (omega (arith, c.bytes)) in
    let fits : length x < u64_mod = omega (arith, c.bytes) in
    let rest : Exec Held Offset = (do
      offset ← gets (λ h. tail_offset h.stream)
      on_stream (push_message x)
      pure offset) in
    rw (exact, guarded_lem l h (length x) sound fits rest)
      (elim (Bool-cases (ltb l.max_total_bytes (h.total_bytes + length x))) [
        | inl over ↦ rw over
        | inr room ↦
            let fits : h.total_bytes + length x ≤ l.max_total_bytes = ground arith in
            let v = sound.valid in
            rw (
              room,
              push_message-extended x h.stream (omega (arith, v.counted, c.count))
                  (omega (arith, v.measured, v.totalled, sound.inside, sound.word))
                  (omega (arith, sound.inside, sound.word)),
            )
      ])

commit_outcome-err :
    (l : Limits) (xs : List Bytes) (h : Held) (e : Error)
    → (commit_outcome l xs h).0 ≡ err e
    → (commit_outcome l xs h).1 ≡ h
commit_outcome-err l [] h e r = refl
commit_outcome-err l (x ∷ xs) h e r = ground arith

-- A commit that fails changes nothing: a reservation it has made is given back.
pub commit_messages-err :
    (l : Limits) (xs : List Bytes) (h : Held) (e : Error)
    → IsSound l h
    → IsCountable h.stream xs
    → (commit_messages l xs h).0 ≡ err e
    → (commit_messages l xs h).1 ≡ h
commit_messages-err l xs h e sound c =
    rw (commit_messages-outcome l xs h sound c) (commit_outcome-err l xs h e)

-- The state that a commit leaves when it succeeds.
abbrev pub committed : List Bytes → Held → Held
committed xs h = record {
  stream = send (extended xs h.stream);
  total_bytes = h.total_bytes + size xs;
}

commit_outcome-ok :
    (l : Limits) (xs : List Bytes) (h : Held)
    → xs ≢ []
    → (commit_outcome l xs h).0 ≡ ok tt
    → (commit_outcome l xs h).1 ≡ committed xs h
commit_outcome-ok l [] h some_message r = absurd (some_message refl)
commit_outcome-ok l (x ∷ xs) h some_message r = ground arith

pub commit_messages-ok :
    (l : Limits) (xs : List Bytes) (h : Held)
    → xs ≢ []
    → IsSound l h
    → IsCountable h.stream xs
    → (commit_messages l xs h).0 ≡ ok tt
    → (commit_messages l xs h).1 ≡ committed xs h
commit_messages-ok l xs h some_message sound c =
    rw (commit_messages-outcome l xs h sound c) (commit_outcome-ok l xs h some_message)

commit_outcome-config :
    (l : Limits) (xs : List Bytes) (h : Held)
    → (commit_outcome l xs h).1.stream.config ≡ h.stream.config
unfolding send
commit_outcome-config l [] h = refl
commit_outcome-config l (x ∷ xs) h = ground arith

pub commit_messages-config :
    (l : Limits) (xs : List Bytes) (h : Held)
    → IsSound l h
    → IsCountable h.stream xs
    → (commit_messages l xs h).1.stream.config ≡ h.stream.config
commit_messages-config l xs h sound c =
    rw (commit_messages-outcome l xs h sound c) (commit_outcome-config l xs h)
