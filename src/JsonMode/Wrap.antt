-- ===== src/JsonMode/Wrap.antt =====
-- The array that a JSON read returns.
use durable_streams_referenc.Prelude.{
  ◌≡◌, true, false, List, [], ◌∷◌, ◌++◌, append_assoc, append-nil,
}
use durable_streams_referenc.Prelude.Text.{Bytes}
use durable_streams_referenc.JsonMode.{wrap_loop, wrap_read}

-- The messages with a comma in front of each.
abbrev pub with_commas : List Bytes → Bytes
with_commas [] = []
with_commas (m ∷ messages) = b',' ∷ m ++ with_commas messages

-- The messages with a comma between any two.
abbrev pub separated : List Bytes → Bytes
separated [] = []
separated (m ∷ messages) = m ++ with_commas messages

wrap_loop-later :
    (messages : List Bytes) (out : Bytes)
    → wrap_loop messages true out ≡ out ++ with_commas messages
unfolding wrap_loop
wrap_loop-later [] out = simp append-nil
wrap_loop-later (m ∷ messages) out =
    rw (wrap_loop-later messages ((out ++ b',' ∷ []) ++ m)) (simp append_assoc)

wrap_loop-first :
    (messages : List Bytes) (out : Bytes) → wrap_loop messages false out ≡ out ++ separated messages
unfolding wrap_loop
wrap_loop-first [] out = simp append-nil
wrap_loop-first (m ∷ messages) out = rw (wrap_loop-later messages (out ++ m)) (simp append_assoc)

-- A read in JSON mode returns the messages in order, with a comma between any two, in brackets.
pub wrap_read-separated :
    (messages : List Bytes) → wrap_read messages ≡ b'[' ∷ separated messages ++ b']' ∷ []
unfolding wrap_read
wrap_read-separated messages = rw (wrap_loop-first messages (b'[' ∷ []))
