-- ===== src/Handlers/Get/Stream.antt =====
-- src/handlers/get.rs: the byte stream of a Server-Sent Events response. The environment chooses
-- how each wait ends; the timers themselves are left out.
pub mod Steps
pub mod Session
pub mod Delivery
use durable_streams_referenc.Prelude.{
  ℕ, Bool, true, false, Option, none, some, List, [], ◌∷◌, ◌++◌, if◌then◌else◌,
}
use durable_streams_referenc.Prelude.Text.{Text}
use durable_streams_referenc.Error.{ok, err}
use durable_streams_referenc.Offset.{Offset, as_str}
use durable_streams_referenc.Cursor.{generate}
use durable_streams_referenc.Storage.{ReadResult}
use durable_streams_referenc.Storage.Backend.{Backend}
use durable_streams_referenc.Sse.{
  Codec, ControlPayload, format_data_frames, format_control_frame, format_keepalive_frame,
}
use durable_streams_referenc.Handlers.Get.{Moment, closed_at_tail}

sse_cursor : Bool → Offset → ℕ → Option Text × ℕ
sse_cursor true next_offset last = (none, last)
sse_cursor false next_offset last = let (c, last') = generate next_offset last in (some c, last')

unfoldable pub build_sse_control : ReadResult → ℕ → ControlPayload × ℕ
unfolding sse_cursor
build_sse_control r last =
    let (cursor, last') = sse_cursor (closed_at_tail r) r.next_offset last in
    (
      record {
        stream_next_offset = as_str r.next_offset;
        stream_cursor = cursor;
        up_to_date = if r.at_tail then some true else none;
        stream_closed = if closed_at_tail r then some true else none;
      },
      last',
    )

module _ (b : Backend) where
  -- How a round of `select!` ends.
  pub data Wake : Type 0 where
    notified : Moment b → Wake
    lagged : Moment b → Wake
    disconnected : Moment b → Wake
    keepalive : Wake
    idle : Wake

module _ (b : Backend) (codec : Codec) (name : Text) (is_binary is_json : Bool) where
  -- The data frames of a read, if there are any, and its control frame.
  unfoldable pub emit : ReadResult → ℕ → Text × ℕ
  emit r last =
      let (control, last') = build_sse_control r last in
      (
        format_data_frames codec r.messages is_binary is_json ++ format_control_frame codec control,
        last',
      )

  pub final_read : Offset → Moment b → ℕ → Text × ℕ
  final_read tail_offset m last = elim (b.read name tail_offset m.at m.state) [
    | ok r ↦ emit r last
    | err e ↦ ([], last)
  ]

  -- What follows an emitted read, in the loop: `rest` is given the new tail.
  pub continue_from : ReadResult → ℕ → (Offset → ℕ → Text × ℕ) → Text × ℕ
  continue_from r last rest =
      let (text, last') = emit r last in
      elim (closed_at_tail r) [
        | true ↦ (text, last')
        | false ↦ let (more, last'') = rest r.next_offset last' in (text ++ more, last'')
      ]

  pub reread : Offset → Moment b → ℕ → (Offset → ℕ → Text × ℕ) → Text × ℕ
  reread tail_offset m last rest = elim (b.read name tail_offset m.at m.state) [
    | ok r ↦ continue_from r last rest
    | err e ↦ ([], last)
  ]

  unfoldable pub wait_loop : List (Wake b) → Offset → ℕ → Text × ℕ
  unfolding reread continue_from final_read
  wait_loop [] tail_offset last = ([], last)
  wait_loop (notified m ∷ wakes) tail_offset last = reread tail_offset m last (wait_loop wakes)
  wait_loop (lagged m ∷ wakes) tail_offset last = reread tail_offset m last (wait_loop wakes)
  wait_loop (disconnected m ∷ wakes) tail_offset last = final_read tail_offset m last
  wait_loop (keepalive ∷ wakes) tail_offset last =
      let (more, last') = wait_loop wakes tail_offset last in
      (format_keepalive_frame ++ more, last')
  wait_loop (idle ∷ wakes) tail_offset last = ([], last)

  -- `build_sse_byte_stream`, from the read that the handler made.
  unfoldable pub build_sse_byte_stream : ReadResult → List (Wake b) → ℕ → Text × ℕ
  unfolding continue_from wait_loop
  build_sse_byte_stream initial wakes last = continue_from initial last (wait_loop wakes)
