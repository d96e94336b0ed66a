-- ===== src/Memory/Retry.antt =====
-- Exactly-once appends: the retry of a producer's request that was accepted.
use durable_streams_referenc.Prelude.{
  ℕ, ◌-◌, ◌≡◌, ap, ◌∙◌, Bool, true, false, Option, some, List, arith, ltb, is_empty, if◌then◌else◌,
}
use durable_streams_referenc.Prelude.Text.{Bytes, Text, text_eq_self}
use durable_streams_referenc.Prelude.Dict.{lookup, lookup-insert, lookup-retain}
use durable_streams_referenc.Error.{Result, ok}
use durable_streams_referenc.Offset.{Offset}
use durable_streams_referenc.Producer.{ProducerHeaders}
use durable_streams_referenc.Storage.{
  DateTime, ProducerState, ProducerCheck, ProducerAppendResult, accepted, producer_state_ttl,
  is_stream_expired, validate_content_type, cleanup_stale_producers, check_producer,
}
use durable_streams_referenc.Storage.Sequencing.{recorded, check_producer-recorded}
use durable_streams_referenc.Memory.Entry.{StreamEntry, Limits, Held, tail_offset, commit_messages}
use durable_streams_referenc.Memory.Methods.{
  close_if, Readings, accept_append, append_with_producer_held,
}
use durable_streams_referenc.Memory.Commit.{IsSound, IsCountable, commit_messages-config}
use durable_streams_referenc.Memory.Accounts.{cleaned, cleaned-IsSound}

-- The check of the content type, which a request without messages does not make.
abbrev content_check : List Bytes → Text → StreamEntry → Result (Unit {0})
content_check xs ct e =
    if is_empty xs then ok tt else validate_content_type e.config.content_type ct

module _ (l : Limits) (xs : List Bytes) (ct : Text) (p : ProducerHeaders) (close : Bool)
    (seq : Option Text) where
  duplicate_run :
      (at : Readings) (h : Held) (st : ProducerState) (epoch last : ℕ)
      → is_stream_expired h.stream.config at.expiry ≡ false
      → content_check xs ct h.stream ≡ ok tt
      → lookup p.id (cleanup_stale_producers at.cleanup h.stream.producers) ≡ some st
      → check_producer (some st) p h.stream.closed ≡ ok (ProducerCheck.duplicate epoch last)
      → append_with_producer_held l xs ct p close seq at h ≡ (
        ok (ProducerAppendResult.duplicate epoch last (tail_offset h.stream) h.stream.closed),
        cleaned at h,
      )
  unfolding append_with_producer_held tail_offset
  duplicate_run at h st epoch last live typed found check = rw (live, typed, found, check)

  module _ (h : Held) (sound : IsSound l h) (fits : IsCountable h.stream xs) where
    accept_records :
        (now : DateTime) (r : ProducerAppendResult)
        → (accept_append l xs p close seq now h).0 ≡ ok r
        → lookup p.id (accept_append l xs p close seq now h).1.stream.producers
          ≡ some (recorded p now)
    unfolding accept_append close_if
    accept_records now r e = ground (
      arith,
      text_eq_self p.id,
      lookup-insert p.id p.id (recorded p now) (commit_messages l xs h).1.stream.producers,
    )

    accept_config :
        (now : DateTime) → (accept_append l xs p close seq now h).1.stream.config ≡ h.stream.config
    unfolding accept_append close_if
    accept_config now = ground (arith, commit_messages-config l xs h sound fits)

  module _ (h : Held) (at : Readings) (epoch number : ℕ) (off : Offset) (shut : Bool)
      (first : (append_with_producer_held l xs ct p close seq at h).0
        ≡ ok (accepted epoch number off shut)) where
    accepted_typed : content_check xs ct h.stream ≡ ok tt
    unfolding append_with_producer_held
    accepted_typed = ground arith

    accepted_run :
        append_with_producer_held l xs ct p close seq at h
        ≡ accept_append l xs p close seq at.stamp (cleaned at h)
    unfolding append_with_producer_held
    accepted_run = ground arith

  -- A producer's request that was accepted, on a sound stream and with a batch that can be counted, and
  -- that comes again, after any calls that have left the stream's configuration and the producer's
  -- record as they were behind the request: while the stream lives and the record is less than
  -- seven days old, it is answered as a duplicate with the recorded numbers and the stream's tail;
  -- only records of stale producers are dropped.
  pub append_with_producer_held-retry :
      (h later : Held) (at again : Readings) (epoch number : ℕ) (off : Offset) (shut : Bool)
      → IsSound l h
      → IsCountable h.stream xs
      → (append_with_producer_held l xs ct p close seq at h).0 ≡ ok (accepted epoch number off shut)
      → later.stream.config ≡ (append_with_producer_held l xs ct p close seq at h).1.stream.config
      → lookup p.id later.stream.producers
        ≡ lookup p.id (append_with_producer_held l xs ct p close seq at h).1.stream.producers
      → is_stream_expired later.stream.config again.expiry ≡ false
      → ltb (again.cleanup - producer_state_ttl) at.stamp ≡ true
      → append_with_producer_held l xs ct p close seq again later ≡ (
        ok (
            ProducerAppendResult.duplicate p.epoch p.seq
              (tail_offset later.stream)
              later.stream.closed),
        cleaned again later,
      )
  unfolding cleanup_stale_producers
  append_with_producer_held-retry h later at again epoch number off shut sound fits first
        same_config same_record live fresh =
      let h₁ = cleaned at h in
      let run = accepted_run h at epoch number off shut first in
      let typed = accepted_typed h at epoch number off shut first in
      let sound₁ = cleaned-IsSound l h sound at in
      let fits₁ : IsCountable h₁.stream xs = ground arith in
      let h' = (accept_append l xs p close seq at.stamp h₁).1 in
      let after = ap (λ t. t.1.stream) run in
      let kept : later.stream.config ≡ h.stream.config =
        same_config ∙ ap (λ e. e.config) after ∙ accept_config h₁ sound₁ fits₁ at.stamp in
      let stored : lookup p.id later.stream.producers ≡ some (recorded p at.stamp) =
        same_record
        ∙ ap (λ e. lookup p.id e.producers) after
        ∙ accept_records h₁ sound₁ fits₁ at.stamp (accepted epoch number off shut)
            (rw run at first) in
      duplicate_run again later (recorded p at.stamp) p.epoch p.seq live (rw kept typed)
        (lookup-retain (λ state. ltb (again.cleanup - producer_state_ttl) state.updated_at) p.id
          (recorded p at.stamp) later.stream.producers stored fresh)
        (check_producer-recorded p at.stamp later.stream.closed)
