-- ===== src/Memory/Resume.antt =====
-- Reading on from an offset that was handed out earlier.
use durable_streams_referenc.Prelude.{
  ℕ, suc, ◌+◌, ◌<◌, ◌≡◌, refl, ap, sym, ◌∙◌, subst, true, false, List, [], ◌∷◌, ◌++◌, arith,
  Ordering, length,
}
use durable_streams_referenc.Prelude.Text.{Bytes}
use durable_streams_referenc.Error.{ok}
use durable_streams_referenc.Offset.{start, new, cmp}
use durable_streams_referenc.Offset.Order.{cmp-start}
use durable_streams_referenc.Storage.{ReadResult, DateTime, is_stream_expired}
use durable_streams_referenc.Memory.Entry.{StreamEntry, tail_offset}
use durable_streams_referenc.Memory.Methods.{read_held}
use durable_streams_referenc.Memory.Layout.{size, layout, contents, IsValid}
use durable_streams_referenc.Memory.Reads.{since, since-behind, read_held-since}

cmp_self : (a b : ℕ) → cmp (new a b) (new a b) ≡ Ordering.eq
unfolding cmp new
cmp_self a b = ground arith

cmp_earlier : (a b c d : ℕ) → a < c → cmp (new a b) (new c d) ≡ Ordering.lt
unfolding cmp new
cmp_earlier a b c d h = ground arith

since_tail : (s b : ℕ) (ys : List Bytes) → since (new s b) (layout s b ys) ≡ ys
unfolding layout
since_tail s b [] = refl
since_tail s b (y ∷ ys) =
    let here = cmp_self s b in
    rw here (ap (λ t. y ∷ t) (since-behind (new s b) s b (b + length y) ys (λ e. cc)))

-- An offset stands for what was in the log when it was handed out.
since-append :
    (s b c d : ℕ) (xs ys : List Bytes)
    → c ≡ length xs + s
    → d ≡ size xs + b
    → since (new c d) (layout s b (xs ++ ys)) ≡ ys
unfolding layout size
since-append s b c d [] ys hc hd =
    let s' : s ≡ c = omega arith in let b' : b ≡ d = omega arith in rw (s', b') (since_tail c d ys)
since-append s b c d (x ∷ xs) ys hc hd =
    let earlier = cmp_earlier s b c d (omega arith) in
    rw earlier (since-append (suc s) (b + length x) c d xs ys (omega arith) (omega arith))

since-start : (s b : ℕ) (xs : List Bytes) → since start (layout s b xs) ≡ xs
unfolding layout
since-start s b [] = refl
since-start s b (x ∷ xs) =
    rw (cmp-start s b) (ap (λ t. x ∷ t) (since-start (suc s) (b + length x) xs))

-- The result of a read that returns these messages.
abbrev pub returning : List Bytes → StreamEntry → ReadResult
returning ms e = record {
  messages = ms;
  next_offset = tail_offset e;
  at_tail = true;
  closed = e.closed;
}

module _ (time : DateTime) (e : StreamEntry) (v : IsValid e)
    (live : is_stream_expired e.config time ≡ false) where
  -- From the start sentinel a read of a valid stream that has not expired returns the whole contents,
  -- the tail and the closed flag.
  pub read_held-start : read_held start time e ≡ ok (returning (contents e) e)
  read_held-start =
      read_held-since time e v live start
      ∙ ap (λ ms. ok (returning ms e))
          (subst (λ ms. since start ms ≡ contents e) (sym v.laid_out)
            (since-start 0 0 (contents e)))

  -- From the offset behind the first messages of a valid stream that has not expired, a read returns
  -- exactly the messages after them.
  pub read_held-resume :
      (xs ys : List Bytes)
      → contents e ≡ xs ++ ys
      → read_held (new (length xs) (size xs)) time e ≡ ok (returning ys e)
  read_held-resume xs ys split =
      let from = new (length xs) (size xs) in
      let found : since from (layout 0 0 (contents e)) ≡ ys =
        rw split (since-append 0 0 (length xs) (size xs) xs ys (omega arith) (omega arith)) in
      read_held-since time e v live from
      ∙ ap (λ ms. ok (returning ms e)) (subst (λ ms. since from ms ≡ ys) (sym v.laid_out) found)
