-- ===== src/File/Path/Depth.antt =====
-- A name that is joined to a path, src/storage/file.rs: it is one component more.
use durable_streams_referenc.Prelude.{
  ℕ, ◌≡◌, ◌≢◌, refl, sym, ap, ◌∙◌, Bool, true, false, ◌&&◌, List, [], ◌∷◌, ◌++◌, ◌==◌, arith,
  Bool-cases, inl, inr, ◌⊎◌, all, append_assoc, not,
}
use durable_streams_referenc.Prelude.Text.{Text}
use durable_streams_referenc.File.Path.{
  sep, split_path, is_skipped, keep_normal, components, ends_with_sep, join,
}

-- Neither a separator nor a dot.
abbrev pub is_plain : ℕ → Bool
is_plain c = not (c == sep) && not (c == b'.')

abbrev normal : List Text → List Text
normal [] = []
normal ([] ∷ []) = []
normal ([] ∷ part ∷ parts) = (sep ∷ []) ∷ keep_normal (part ∷ parts)
normal ((c ∷ first) ∷ parts) = (c ∷ first) ∷ keep_normal parts

components_lem : (path : Text) → components path ≡ normal (split_path path)
unfolding components
components_lem path = ground arith

split_path-cons :
    (path : Text) → (part : Text) × (parts : List Text) × (split_path path ≡ part ∷ parts)
unfolding split_path
split_path-cons [] = ([], [], refl)
split_path-cons (c ∷ path) =
    let (part, parts, e) = split_path-cons path in
    elim (Bool-cases (c == sep)) [
      | inl cut ↦ ([], part ∷ parts, rw (e, cut) refl)
      | inr more ↦ (c ∷ part, parts, rw (e, more) refl)
    ]

split_path-plain : (name : Text) → all is_plain name ≡ true → split_path name ≡ name ∷ []
unfolding split_path
split_path-plain [] h = refl
split_path-plain (c ∷ name) h = ground (arith, split_path-plain name)

split_path-join :
    (path name : Text)
    → all is_plain name ≡ true
    → split_path (path ++ sep ∷ name) ≡ split_path path ++ name ∷ []
unfolding split_path
split_path-join [] name h = rw (split_path-plain name h) refl
split_path-join (c ∷ path) name h =
    let (part, parts, e) = split_path-cons path in
    let rest = split_path-join path name h in
    elim (Bool-cases (c == sep)) [
      | inl cut ↦ rw (rest, e, cut) refl
      | inr more ↦ rw (rest, e, more) refl
    ]

keep_normal-snoc :
    (parts : List Text) (name : Text)
    → is_skipped name ≡ false
    → keep_normal (parts ++ name ∷ []) ≡ keep_normal parts ++ name ∷ []
unfolding keep_normal
keep_normal-snoc [] name h = rw h refl
keep_normal-snoc (part ∷ parts) name h = ground (arith, keep_normal-snoc parts name h)

keep_normal-empty : (parts : List Text) → keep_normal (parts ++ [] ∷ []) ≡ keep_normal parts
unfolding keep_normal is_skipped
keep_normal-empty [] = refl
keep_normal-empty (part ∷ parts) = ground (arith, keep_normal-empty parts)

-- A last part that is a name is one component more than a last part that is empty.
normal-snoc :
    (part : Text) (parts : List Text) (name : Text)
    → is_skipped name ≡ false
    → normal (part ∷ (parts ++ name ∷ [])) ≡ normal (part ∷ (parts ++ [] ∷ [])) ++ name ∷ []
unfolding keep_normal is_skipped
normal-snoc [] [] name h = rw h refl
normal-snoc [] (p ∷ parts) name h =
    ap (λ t. (sep ∷ []) ∷ t)
      (keep_normal-snoc (p ∷ parts) name h
        ∙ ap (λ t. t ++ name ∷ []) (sym (keep_normal-empty (p ∷ parts))))
normal-snoc (c ∷ first) parts name h =
    ap (λ t. (c ∷ first) ∷ t)
      (keep_normal-snoc parts name h ∙ ap (λ t. t ++ name ∷ []) (sym (keep_normal-empty parts)))

ends-cases :
    (path : Text)
    → path ≢ []
    → (ends_with_sep path ≡ false) ⊎ ((front : Text) × (path ≡ front ++ sep ∷ []))
unfolding ends_with_sep
ends-cases [] h = absurd (h refl)
ends-cases (c ∷ []) h = elim (Bool-cases (c == sep)) [
  | inl cut ↦ inr ([], ground arith)
  | inr more ↦ inl more
]
ends-cases (c ∷ d ∷ path) h = elim (ends-cases (d ∷ path) (λ e. cc)) [
  | inl open_end ↦ inl open_end
  | inr (front, e) ↦ inr (c ∷ front, ap (λ t. c ∷ t) e)
]

plain-kept : (name : Text) → name ≢ [] → all is_plain name ≡ true → is_skipped name ≡ false
unfolding is_skipped
plain-kept [] h plain = absurd (h refl)
plain-kept (c ∷ []) h plain = ground (arith, plain)
plain-kept (c ∷ d ∷ name) h plain = refl

-- The components of a path whose end has been marked by a separator.
components-marked :
    (path name : Text)
    → all is_plain name ≡ true
    → is_skipped name ≡ false
    → components (path ++ sep ∷ name) ≡ components (path ++ sep ∷ []) ++ name ∷ []
components-marked path name plain kept =
    let (part, parts, e) = split_path-cons path in
    components_lem (path ++ sep ∷ name)
    ∙ ap normal (split_path-join path name plain)
    ∙ ap (λ t. normal (t ++ name ∷ [])) e
    ∙ normal-snoc part parts name kept
    ∙ ap (λ t. normal (t ++ [] ∷ []) ++ name ∷ []) (sym e)
    ∙ ap (λ t. normal t ++ name ∷ []) (sym (split_path-join path [] refl))
    ∙ ap (λ t. t ++ name ∷ []) (sym (components_lem (path ++ sep ∷ [])))

-- The mark changes nothing.
components-mark : (path : Text) → path ≢ [] → components (path ++ sep ∷ []) ≡ components path
unfolding split_path
components-mark [] h = absurd (h refl)
components-mark (c ∷ path) h =
    let (part, parts, e) = split_path-cons path in
    let marked : normal (split_path (c ∷ path) ++ [] ∷ []) ≡ normal (split_path (c ∷ path)) =
      elim (Bool-cases (c == sep)) [
        | inl cut ↦ rw (e, cut) (ap (λ t. (sep ∷ []) ∷ t) (keep_normal-empty (part ∷ parts)))
        | inr more ↦ rw (e, more) (ap (λ t. (c ∷ part) ∷ t) (keep_normal-empty parts))
      ] in
    components_lem ((c ∷ path) ++ sep ∷ [])
    ∙ ap normal (split_path-join (c ∷ path) [] refl)
    ∙ marked
    ∙ sym (components_lem (c ∷ path))

empty_components : components [] ≡ []
unfolding components
empty_components = refl

-- A name that has neither a separator nor a dot is one component more.
pub components-join :
    (path name : Text)
    → name ≢ []
    → all is_plain name ≡ true
    → components (join path name) ≡ components path ++ name ∷ []
unfolding join ends_with_sep keep_normal
components-join path [] some_name plain = absurd (some_name refl)
components-join [] (c ∷ name) some_name plain =
    let no_sep : (c == sep) ≡ false = ground (arith, plain) in
    rw no_sep (
      components_lem (c ∷ name)
      ∙ ap normal (split_path-plain (c ∷ name) plain)
      ∙ ap (λ t. t ++ (c ∷ name) ∷ []) (sym empty_components))
components-join (b ∷ path) (c ∷ name) some_name plain =
    let no_sep : (c == sep) ≡ false = ground (arith, plain) in
    let kept = plain-kept (c ∷ name) some_name plain in
    elim (Bool-cases (ends_with_sep (b ∷ path))) [
      | inl marked ↦ elim (ends-cases (b ∷ path) (λ e. cc)) [
        | inl not_marked ↦ absurd (cc (marked, not_marked))
        | inr (front, e) ↦
            rw (no_sep, marked)
              (ap (λ t. components (t ++ c ∷ name)) e
                ∙ ap components (append_assoc front (sep ∷ []) (c ∷ name))
                ∙ components-marked front (c ∷ name) plain kept
                ∙ ap (λ t. components t ++ (c ∷ name) ∷ []) (sym e))
      ]
      | inr bare ↦
          rw (no_sep, bare)
            (components-marked (b ∷ path) (c ∷ name) plain kept
              ∙ ap (λ t. t ++ (c ∷ name) ∷ []) (components-mark (b ∷ path) (λ e. cc)))
    ]
