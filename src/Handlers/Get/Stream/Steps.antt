-- ===== src/Handlers/Get/Stream/Steps.antt =====
-- src/handlers/get.rs: the branches of a round of the event stream, as equations on its text.
use durable_streams_referenc.Prelude.{ℕ, ◌≡◌, refl, Bool, true, false, [], ◌++◌}
use durable_streams_referenc.Prelude.Text.{Text}
use durable_streams_referenc.Error.{Error, ok, err}
use durable_streams_referenc.Offset.{Offset}
use durable_streams_referenc.Storage.{ReadResult}
use durable_streams_referenc.Storage.Backend.{Backend}
use durable_streams_referenc.Sse.{Codec}
use durable_streams_referenc.Handlers.Get.{Moment, closed_at_tail}
use durable_streams_referenc.Handlers.Get.Stream.{emit, final_read, continue_from, reread}

module _ (b : Backend) (codec : Codec) (name : Text) (is_binary is_json : Bool) (last : ℕ) where
  abbrev emission : ReadResult → Text × ℕ
  emission r = emit b codec name is_binary is_json r last

  module _ (r : ReadResult) (rest : Offset → ℕ → Text × ℕ) where
    pub continue_from_end :
        closed_at_tail r ≡ true
        → (continue_from b codec name is_binary is_json r last rest).0 ≡ (emission r).0
    unfolding continue_from
    continue_from_end at_end = rw (continue_from, at_end) refl

    pub continue_from_on :
        closed_at_tail r ≡ false
        → (continue_from b codec name is_binary is_json r last rest).0
          ≡ (emission r).0 ++ (rest r.next_offset (emission r).1).0
    unfolding continue_from
    continue_from_on before = rw (continue_from, before) refl

  module _ (offset : Offset) (m : Moment b) where
    pub reread_ok :
        (r : ReadResult) (rest : Offset → ℕ → Text × ℕ)
        → b.read name offset m.at m.state ≡ ok r
        → (reread b codec name is_binary is_json offset m last rest).0
          ≡ (continue_from b codec name is_binary is_json r last rest).0
    unfolding reread
    reread_ok r rest e = rw (reread, e) refl

    pub reread_err :
        (f : Error) (rest : Offset → ℕ → Text × ℕ)
        → b.read name offset m.at m.state ≡ err f
        → (reread b codec name is_binary is_json offset m last rest).0 ≡ []
    unfolding reread
    reread_err f rest e = rw (reread, e) refl

    pub final_read_ok :
        (r : ReadResult)
        → b.read name offset m.at m.state ≡ ok r
        → (final_read b codec name is_binary is_json offset m last).0 ≡ (emission r).0
    unfolding final_read
    final_read_ok r e = rw (final_read, e) refl

    pub final_read_err :
        (f : Error)
        → b.read name offset m.at m.state ≡ err f
        → (final_read b codec name is_binary is_json offset m last).0 ≡ []
    unfolding final_read
    final_read_err f e = rw (final_read, e) refl
