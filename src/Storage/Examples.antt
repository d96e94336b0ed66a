-- ===== src/Storage/Examples.antt =====
-- The theorems on producers and `Stream-Seq` at inputs that meet their hypotheses.
use durable_streams_referenc.Prelude.{
  ◌+◌, ◌<◌, ◌≤◌, ◌≡◌, ◌≢◌, refl, ◌↔◌, ◌⊎◌, Bool, true, false, some, [], ◌∷◌, arith, Ordering,
}
use durable_streams_referenc.Error.{
  ok, err, epoch_fenced, stream_closed, invalid_producer_state, sequence_gap,
}
use durable_streams_referenc.Prelude.Word.{u64_add}
use durable_streams_referenc.Offset.{compare_pair}
use durable_streams_referenc.Producer.{ProducerHeaders}
use durable_streams_referenc.Storage.{
  ProducerState, accept, duplicate, check_producer, new_epoch_message,
}
use durable_streams_referenc.Storage.Sequencing.{
  IsNext, IsBeyond, check_producer-accept_iff, check_producer-answers, check_producer-advances,
}

abbrev state : ProducerState
state = record { epoch = 2; last_seq = 5; updated_at = 0 }

abbrev request : ProducerHeaders
request = record { id = 112 ∷ []; epoch = 2; seq = 6 }

check_producer-accept_iff_example :
    (check_producer (some state) request false ≡ ok accept)
    ↔ ((◌≡◌ {A = Bool} false false) × IsNext (some state) request)
check_producer-accept_iff_example =
    check_producer-accept_iff (some state) request false (omega arith)

check_producer-answers_example :
    let r = check_producer (some state) request false in
    ((2 < state.epoch) × (r ≡ err (epoch_fenced 2 2)))
    ⊎ ((request.epoch ≡ 2) × (6 ≤ state.last_seq) × (r ≡ ok (duplicate 2 5)))
    ⊎ ((◌≡◌ {A = Bool} false true) × IsBeyond state request × (r ≡ err stream_closed))
    ⊎ ((◌≡◌ {A = Bool} false false)
        × (state.epoch < 2)
        × (request.seq ≢ 0)
        × (r ≡ err (invalid_producer_state new_epoch_message)))
    ⊎ ((◌≡◌ {A = Bool} false false)
        × (request.epoch ≡ 2)
        × (state.last_seq + 1 < 6)
        × (r ≡ err (sequence_gap 6 6)))
    ⊎ ((◌≡◌ {A = Bool} false false) × IsNext (some state) request × (r ≡ ok accept))
check_producer-answers_example = check_producer-answers state request false (omega arith)

check_producer-advances_example : compare_pair (2, 5) (2, 6) ≡ Ordering.lt
unfolding check_producer u64_add
check_producer-advances_example = check_producer-advances state request false (omega arith) refl
