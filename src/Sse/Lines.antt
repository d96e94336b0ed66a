-- ===== src/Sse/Lines.antt =====
-- What `split_lines` of src/protocol/sse.rs makes of a text.
use durable_streams_referenc.Prelude.{
  ℕ, ◌≡◌, ◌≢◌, refl, sym, Bool, false, ◌||◌, List, [], ◌∷◌, ◌++◌, append_assoc, append-nil, arith,
  ◌==◌, ==_iff, if◌then◌else◌, All,
}
use durable_streams_referenc.Prelude.Text.{Text}
use durable_streams_referenc.Sse.{split_from, split_lines}
use durable_streams_referenc.Sse.Client.{joined}

abbrev pub is_newline : ℕ → Bool
is_newline c = c == b'\r' || c == b'\n'

-- No byte of the text ends a line.
abbrev pub IsLine : Text → Type 0
IsLine = All (λ c. is_newline c ≡ false)

IsLine-push : (line : Text) (c : ℕ) → IsLine line → is_newline c ≡ false → IsLine (line ++ c ∷ [])
IsLine-push [] c h k = (k, tt)
IsLine-push (d ∷ line) c h k = (h.0, IsLine-push line c h.1 k)

pub split_from-IsLine : (line s : Text) → IsLine line → All IsLine (split_from line s)
unfolding split_from
split_from-IsLine line [] h = (h, tt)
split_from-IsLine line (c ∷ []) h = ground (arith, IsLine-push line c h)
split_from-IsLine line (c ∷ d ∷ s) h = ground (
  arith,
  IsLine-push line c h,
  split_from-IsLine [] s tt,
  split_from-IsLine [] (d ∷ s) tt,
  split_from-IsLine (line ++ c ∷ []) (d ∷ s),
)

-- The text with every line ending written as "\n".
abbrev pub normalised : Text → Text
normalised [] = []
normalised (c ∷ []) = (if c == b'\r' then b'\n' else c) ∷ []
normalised (c ∷ d ∷ s) =
    let after_both = b'\n' ∷ normalised s in
    let after_cr = b'\n' ∷ normalised (d ∷ s) in
    let other = c ∷ normalised (d ∷ s) in
    if c == b'\r' then (if d == b'\n' then after_both else after_cr) else other

pub split_from-ne : (line s : Text) → split_from line s ≢ []
unfolding split_from
split_from-ne line [] e = cc
split_from-ne line (c ∷ []) e = ground arith
split_from-ne line (c ∷ d ∷ s) e = ground (arith, split_from-ne (line ++ c ∷ []) (d ∷ s))

joined-cons :
    (line : Text) (lines : List Text)
    → lines ≢ []
    → joined (line ∷ lines) ≡ line ++ b'\n' ∷ joined lines
joined-cons line [] h = absurd (h refl)
joined-cons line (l ∷ lines) h = refl

joined-split_from : (line s : Text) → joined (split_from line s) ≡ line ++ normalised s
unfolding split_from
joined-split_from line [] = sym (append-nil line)
joined-split_from line (c ∷ []) = ground (arith, ==_iff c b'\n')
joined-split_from line (c ∷ d ∷ s) = ground (
  arith,
  ==_iff c b'\n',
  joined-cons line (split_from [] s) (split_from-ne [] s),
  joined-cons line (split_from [] (d ∷ s)) (split_from-ne [] (d ∷ s)),
  joined-split_from [] s,
  joined-split_from [] (d ∷ s),
  joined-split_from (line ++ c ∷ []) (d ∷ s),
  append_assoc line (c ∷ []) (normalised (d ∷ s)),
)

-- No line that the splitter cuts out holds a "\r" or a "\n", and the lines joined by "\n" are the
-- text with each line ending written as "\n".
pub split_lines_lem :
    (text : Text) → All IsLine (split_lines text) × (joined (split_lines text) ≡ normalised text)
unfolding split_lines
split_lines_lem text = (split_from-IsLine [] text tt, joined-split_from [] text)
