-- ===== src/Memory/Accounts.antt =====
-- Every method under a stream's lock keeps the stream valid and the accounts balanced, on
-- success and on each error.
use durable_streams_referenc.Prelude.{◌+◌, ◌≡◌, refl, Bool, Option, List, [], ◌∷◌, arith}
use durable_streams_referenc.Prelude.Text.{Bytes, Text}
use durable_streams_referenc.Producer.{ProducerHeaders}
use durable_streams_referenc.Storage.{DateTime, cleanup_stale_producers}
use durable_streams_referenc.Memory.Entry.{Limits, Held, send, commit_messages}
use durable_streams_referenc.Memory.Methods.{
  append_held, batch_append_held, close_if, accept_append, Readings, append_with_producer_held,
  close_held,
}
use durable_streams_referenc.Memory.Layout.{size, extended-IsValid}
use durable_streams_referenc.Memory.Commit.{
  IsSound, IsCountable, commit_outcome, commit_messages-outcome, append_outcome,
  append_body-outcome,
}

-- What a method may leave behind: a sound state, with the global count changed by as much as the
-- stream's own.
pub record Accounts (l : Limits) (h h' : Held) : Type 0 where
  pub sound : IsSound l h'
  pub balance : h'.total_bytes + h.stream.total_bytes ≡ h.total_bytes + h'.stream.total_bytes

module _ (l : Limits) (h : Held) (sound : IsSound l h) where
  pub Accounts-refl : Accounts l h h
  Accounts-refl = record { sound = sound; balance = refl }

  commit_outcome-Accounts : (xs : List Bytes) → Accounts l h (commit_outcome l xs h).1
  unfolding send
  commit_outcome-Accounts [] = Accounts-refl
  commit_outcome-Accounts (x ∷ xs) =
      ground (arith, sound, Accounts-refl, extended-IsValid (x ∷ xs) h.stream sound.valid)

  pub commit_messages-Accounts :
      (xs : List Bytes) → IsCountable h.stream xs → Accounts l h (commit_messages l xs h).1
  commit_messages-Accounts xs c =
      rw (commit_messages-outcome l xs h sound c) (commit_outcome-Accounts xs)

  pub batch_append_held-Accounts :
      (xs : List Bytes) (ct : Text) (seq : Option Text) (now : DateTime)
      → IsCountable h.stream xs
      → Accounts l h (batch_append_held l xs ct seq now h).1
  unfolding batch_append_held
  batch_append_held-Accounts xs ct seq now c =
      ground (arith, commit_messages-Accounts xs c, Accounts-refl)

  pub close_held-Accounts : (now : DateTime) → Accounts l h (close_held now h).1
  unfolding close_held send
  close_held-Accounts now = ground (arith, Accounts-refl)

  accept_append-Accounts :
      (xs : List Bytes) (p : ProducerHeaders) (close : Bool) (seq : Option Text) (now : DateTime)
      → IsCountable h.stream xs
      → Accounts l h (accept_append l xs p close seq now h).1
  unfolding accept_append close_if
  accept_append-Accounts xs p close seq now c =
      ground (arith, commit_messages-Accounts xs c, Accounts-refl)

  append_outcome-Accounts : (x : Bytes) → Accounts l h (append_outcome l x h).1
  unfolding size
  append_outcome-Accounts x =
      ground (arith, sound, Accounts-refl, extended-IsValid (x ∷ []) h.stream sound.valid)

  pub append_held-Accounts :
      (body : Bytes) (ct : Text) (now : DateTime)
      → IsCountable h.stream (body ∷ [])
      → Accounts l h (append_held l body ct now h).1
  unfolding append_held
  append_held-Accounts body ct now c =
      ground
        (arith, append_body-outcome l body h sound c, append_outcome-Accounts body, Accounts-refl)

-- The state after stale producers are removed.
abbrev pub cleaned : Readings → Held → Held
cleaned at h = record h {
  stream = record (h.stream) { producers = cleanup_stale_producers at.cleanup h.stream.producers };
}

module _ (l : Limits) (h : Held) (sound : IsSound l h) where
  pub cleaned-IsSound : (at : Readings) → IsSound l (cleaned at h)
  cleaned-IsSound at = ground arith

  pub append_with_producer_held-Accounts :
      (xs : List Bytes) (ct : Text) (p : ProducerHeaders) (close : Bool) (seq : Option Text)
      (at : Readings)
      → IsCountable h.stream xs
      → Accounts l h (append_with_producer_held l xs ct p close seq at h).1
  unfolding append_with_producer_held
  append_with_producer_held-Accounts xs ct p close seq at c =
      let countable : IsCountable (cleaned at h).stream xs = ground arith in
      ground (
        arith,
        Accounts-refl l h sound,
        Accounts-refl l (cleaned at h) (cleaned-IsSound at),
        accept_append-Accounts l (cleaned at h) (cleaned-IsSound at) xs p close seq at.stamp
            countable,
      )
