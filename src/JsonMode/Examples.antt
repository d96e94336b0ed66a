-- ===== src/JsonMode/Examples.antt =====
-- The theorem on JSON reads at two messages.
use durable_streams_referenc.Prelude.{◌≡◌, List, [], ◌∷◌, ◌++◌}
use durable_streams_referenc.Prelude.Text.{Bytes, codes}
use durable_streams_referenc.JsonMode.{wrap_read}
use durable_streams_referenc.JsonMode.Wrap.{separated, wrap_read-separated}

abbrev messages : List Bytes
unfolding codes
messages = codes "1" ∷ codes "{}" ∷ []

wrap_read-separated_example : wrap_read messages ≡ b'[' ∷ separated messages ++ b']' ∷ []
wrap_read-separated_example = wrap_read-separated messages
