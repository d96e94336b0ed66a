-- ===== src/Storage/Sequencing.antt =====
-- The order that producers and `Stream-Seq` impose on appends, src/storage/mod.rs.
use durable_streams_referenc.Prelude.{
  ◌+◌, ◌≤◌, ◌<◌, ◌≡◌, ◌≢◌, refl, ◌↔◌, ◌⊎◌, Bool, true, false, Option, none, some, Ordering, arith,
}
use durable_streams_referenc.Prelude.Text.{Text, text_compare}
use durable_streams_referenc.Prelude.Word.{u64_max, u64_add_exact}
use durable_streams_referenc.Error.{
  stream_closed, sequence_gap, epoch_fenced, invalid_producer_state, ok, err,
}
use durable_streams_referenc.Offset.{compare_pair}
use durable_streams_referenc.Producer.{ProducerHeaders}
use durable_streams_referenc.Storage.{
  DateTime, ProducerState, accept, duplicate, new_epoch_message, check_producer, validate_seq,
}

-- The request that the protocol expects next: the next number of the epoch, or number 0 of a
-- later epoch; of an unknown producer, number 0.
abbrev pub IsNext : Option ProducerState → ProducerHeaders → Type 0
IsNext none p = p.seq ≡ 0
IsNext (some s) p =
    ((p.epoch ≡ s.epoch) × (p.seq ≡ s.last_seq + 1)) ⊎ ((s.epoch < p.epoch) × (p.seq ≡ 0))

-- The recorded number leaves room for one more.
abbrev pub HasNext : Option ProducerState → Type 0
HasNext none = Unit {0}
HasNext (some s) = s.last_seq < u64_max

accept_known :
    (s : ProducerState) (p : ProducerHeaders) (closed : Bool)
    → s.last_seq < u64_max
    → (check_producer (some s) p closed ≡ ok accept) ↔ ((closed ≡ false) × IsNext (some s) p)
unfolding check_producer
accept_known s p closed h = ground (arith, u64_add_exact s.last_seq 1)

-- A request is accepted exactly when the stream is open and the request is the next one, given that
-- the recorded number is not the largest of a `u64`.
pub check_producer-accept_iff :
    (s : Option ProducerState) (p : ProducerHeaders) (closed : Bool)
    → HasNext s
    → (check_producer s p closed ≡ ok accept) ↔ ((closed ≡ false) × IsNext s p)
check_producer-accept_iff none p closed h = unfold check_producer in ground arith
check_producer-accept_iff (some s) p closed h = accept_known s p closed h

-- The request is past what is recorded.
abbrev pub IsBeyond : ProducerState → ProducerHeaders → Type 0
IsBeyond s p = (s.epoch < p.epoch) ⊎ ((p.epoch ≡ s.epoch) × (s.last_seq < p.seq))

-- The answers to a request of a known producer, each with the condition under which it is given; one
-- of the six cases holds, given that the recorded number is not the largest of a `u64`.
pub check_producer-answers :
    (s : ProducerState) (p : ProducerHeaders) (closed : Bool)
    → s.last_seq < u64_max
    → let r = check_producer (some s) p closed in
      ((p.epoch < s.epoch) × (r ≡ err (epoch_fenced s.epoch p.epoch)))
      ⊎ ((p.epoch ≡ s.epoch) × (p.seq ≤ s.last_seq) × (r ≡ ok (duplicate s.epoch s.last_seq)))
      ⊎ ((closed ≡ true) × IsBeyond s p × (r ≡ err stream_closed))
      ⊎ ((closed ≡ false)
          × (s.epoch < p.epoch)
          × (p.seq ≢ 0)
          × (r ≡ err (invalid_producer_state new_epoch_message)))
      ⊎ ((closed ≡ false)
          × (p.epoch ≡ s.epoch)
          × (s.last_seq + 1 < p.seq)
          × (r ≡ err (sequence_gap (s.last_seq + 1) p.seq)))
      ⊎ ((closed ≡ false) × IsNext (some s) p × (r ≡ ok accept))
unfolding check_producer
check_producer-answers s p closed h = ground (arith, u64_add_exact s.last_seq 1)

-- What is recorded for an accepted request.
abbrev pub recorded : ProducerHeaders → DateTime → ProducerState
recorded p now = record { epoch = p.epoch; last_seq = p.seq; updated_at = now }

-- A retry of a recorded request is a duplicate, whether or not the stream has been closed since.
pub check_producer-recorded :
    (p : ProducerHeaders) (now : DateTime) (closed : Bool)
    → check_producer (some (recorded p now)) p closed ≡ ok (duplicate p.epoch p.seq)
unfolding check_producer
check_producer-recorded p now closed = ground arith

-- Acceptance moves a producer strictly forward in epoch and number, given that the recorded number
-- is not the largest of a `u64`.
pub check_producer-advances :
    (s : ProducerState) (p : ProducerHeaders) (closed : Bool)
    → s.last_seq < u64_max
    → check_producer (some s) p closed ≡ ok accept
    → compare_pair (s.epoch, s.last_seq) (p.epoch, p.seq) ≡ Ordering.lt
unfolding check_producer compare_pair
check_producer-advances s p closed h e = ground (arith, u64_add_exact s.last_seq 1)

-- A `Stream-Seq` value is let through exactly when none is recorded or it is greater than the
-- recorded one in the order of bytes.
pub validate_seq_iff :
    (last : Option Text) (received : Text)
    → (validate_seq last (some received) ≡ ok (some received))
      ↔ ((l : Text) → last ≡ some l → text_compare received l ≡ Ordering.gt)
unfolding validate_seq
validate_seq_iff none received = (λ _ l e. cc, λ _. refl)
validate_seq_iff (some last) received = (λ e l h. ground arith, λ h. ground (arith, h last refl))
