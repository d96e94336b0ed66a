-- ===== src/File/Record/Safety.antt =====
-- The scan of a log file of any content, src/storage/file.rs: it ends, and what it finds lies in the
-- file.
use durable_streams_referenc.Prelude.{
  ℕ, zero, suc, ◌<◌, ◌+◌, ◌≤◌, ◌≡◌, refl, sym, ap, ◌∙◌, List, [], ◌∷◌, ◌++◌, arith, ltb,
  if◌then◌else◌, Bool-cases, inl, inr, length, append-nil, take, drop, is_empty, take-append-drop,
}
use durable_streams_referenc.Prelude.Text.{Bytes}
use durable_streams_referenc.Error.{Result, ok}
use durable_streams_referenc.File.Record.{
  record_header_bytes, from_le_bytes, ScanIo, MessageIndex, Scan, truncate, push_index, scan_round,
  scan_loop, rebuild_index,
}
use durable_streams_referenc.File.Record.Rounds.{IsCalm}
use durable_streams_referenc.File.Record.Rebuild.{start}
use durable_streams_referenc.File.Record.Tiles.{
  NoRecord, beginning_place, Tiles, place_of, after_record, length-drop_le, some_header,
  short_header,
}

module _ (io : ScanIo) where
  -- A round asks the rest of the loop only behind the record, and of the same file.
  scan_round-same :
      (cursor : ℕ) (s : Scan) (f g : ℕ → Scan → Result Scan)
      → ((next : ℕ) (t : Scan) → cursor + 4 ≤ next → t.file ≡ s.file → f next t ≡ g next t)
      → scan_round io cursor s f ≡ scan_round io cursor s g
  unfolding scan_round push_index
  scan_round-same cursor s f g same =
      let record_len : ℕ = from_le_bytes (take record_header_bytes (drop cursor s.file)) in
      ground (
        arith,
        same (cursor + record_header_bytes + record_len) (push_index cursor record_len s)
            (omega arith) refl,
      )

  scan_loop_end :
      (fuel cursor : ℕ) (s : Scan) → length s.file ≤ cursor → scan_loop io fuel cursor s ≡ ok s
  unfolding scan_loop
  scan_loop_end zero cursor s h = refl
  scan_loop_end (suc fuel) cursor s h = ground arith

  -- With fuel for what is left of the file behind the cursor, more fuel changes nothing, whatever the
  -- file holds and whichever calls on it fail: the loop ends of itself.
  pub scan_loop_enough :
      (fuel more cursor : ℕ) (s : Scan)
      → length s.file ≤ cursor + fuel
      → scan_loop io (fuel + more) cursor s ≡ scan_loop io fuel cursor s
  unfolding scan_loop
  scan_loop_enough zero more cursor s h =
      scan_loop_end (0 + more) cursor s (omega arith) ∙ sym (scan_loop_end 0 cursor s (omega arith))
  scan_loop_enough (suc fuel) more cursor s h =
      let next : suc fuel + more ≡ suc (fuel + more) = omega arith in
      rw next (
        ap (λ t. if ltb cursor (length s.file) then t else ok s)
          (scan_round-same cursor s (scan_loop io (fuel + more)) (scan_loop io fuel)
            (λ c t behind same.
              scan_loop_enough fuel more c t (rw same (omega (arith, h, behind))))))

-- The messages of the index lie one behind the other between two positions.
abbrev pub LiesIn : (begin end : ℕ) → List MessageIndex → Type 0
LiesIn begin end [] = begin ≤ end
LiesIn begin end (m ∷ index) = (begin ≤ m.file_pos) × LiesIn (m.file_pos + m.byte_len) end index

pub LiesIn-weaken :
    (a b c : ℕ) (index : List MessageIndex) → b ≤ c → LiesIn a b index → LiesIn a c index
LiesIn-weaken a b c [] h lies = omega (arith, h, lies)
LiesIn-weaken a b c (m ∷ index) h (first, lies) =
    (first, LiesIn-weaken (m.file_pos + m.byte_len) b c index h lies)

pub LiesIn-snoc :
    (a b c : ℕ) (index : List MessageIndex) (m : MessageIndex)
    → LiesIn a b index
    → b ≤ m.file_pos
    → m.file_pos + m.byte_len ≤ c
    → LiesIn a c (index ++ m ∷ [])
LiesIn-snoc a b c [] m lies h k = (omega (arith, lies, h), k)
LiesIn-snoc a b c (n ∷ index) m (first, lies) h k =
    (first, LiesIn-snoc (n.file_pos + n.byte_len) b c index m lies h k)

pub length-take : (n : ℕ) (xs : Bytes) → n ≤ length xs → length (take n xs) ≡ n
length-take zero xs h = refl
length-take (suc n) [] h = absurd (omega arith)
length-take (suc n) (x ∷ xs) h = ap suc (length-take n xs (omega arith))

-- The scan succeeds; the records that it has found fill the file that it leaves, which is a beginning
-- of the old one, and behind them the old one holds no whole record.
pub record IsRebuilt (file : Bytes) (r : Result Scan) : Type 0 where
  pub rebuilt : Scan
  pub result : r ≡ ok rebuilt
  pub tiled : Tiles file beginning_place (place_of (length rebuilt.file) rebuilt) rebuilt.index
  pub cut : Bytes
  pub beginning : rebuilt.file ++ cut ≡ file
  pub no_more : NoRecord cut

module _ (io : ScanIo) (calm : IsCalm io) where
  at_end-IsRebuilt :
      (cursor : ℕ) (s : Scan)
      → cursor ≡ length s.file
      → Tiles s.file beginning_place (place_of cursor s) s.index
      → IsRebuilt s.file (ok s)
  at_end-IsRebuilt cursor s h before = record {
    rebuilt = s;
    result = refl;
    tiled = rw (← h) before;
    cut = [];
    beginning = append-nil s.file;
    no_more = inl (omega arith);
  }

  truncate-IsRebuilt :
      (cursor : ℕ) (s : Scan)
      → cursor ≤ length s.file
      → NoRecord (drop cursor s.file)
      → Tiles s.file beginning_place (place_of cursor s) s.index
      → IsRebuilt s.file (truncate io cursor s)
  unfolding truncate
  truncate-IsRebuilt cursor s h stops before = rw calm.set_len (record {
    rebuilt = record s { file = take cursor s.file };
    result = refl;
    tiled = rw (length-take cursor s.file h) before;
    cut = drop cursor s.file;
    beginning = take-append-drop cursor s.file;
    no_more = stops;
  })

  scan_round-IsRebuilt :
      (cursor : ℕ) (s : Scan) (continue : ℕ → Scan → Result Scan)
      → cursor < length s.file
      → Tiles s.file beginning_place (place_of cursor s) s.index
      → ((next : ℕ) (t : Scan)
          → cursor + record_header_bytes ≤ next
          → next ≤ length t.file
          → t.file ≡ s.file
          → Tiles t.file beginning_place (place_of next t) t.index
          → IsRebuilt t.file (continue next t))
      → IsRebuilt s.file (scan_round io cursor s continue)
  unfolding scan_round push_index
  scan_round-IsRebuilt cursor s continue h before next =
      let rest : Bytes = drop cursor s.file in
      let header : Bytes = take record_header_bytes rest in
      let record_end : ℕ = cursor + record_header_bytes + from_le_bytes header in
      let left = length-drop_le cursor s.file (omega arith) in
      rw (scan_round, calm.seek cursor, calm.read cursor)
        (elim (Bool-cases (is_empty header)) [
          | inl nothing ↦ absurd (some_header rest nothing (omega (arith, left)))
          | inr something ↦ elim (Bool-cases (ltb (length header) record_header_bytes)) [
            | inl short ↦
                rw (something, short)
                  (truncate-IsRebuilt cursor s (omega arith)
                    (inl (short_header record_header_bytes rest short)) before)
            | inr full ↦ elim (Bool-cases (ltb (length s.file) record_end)) [
              | inl over ↦
                  rw (something, full, over)
                    (truncate-IsRebuilt cursor s (omega arith) (inr (ground (arith, over, left)))
                      before)
              | inr inside ↦
                  rw (something, full, inside)
                    (next record_end (push_index cursor (from_le_bytes header) s) (omega arith)
                      (ground (arith, inside)) refl
                      (after_record cursor (from_le_bytes header) s refl before))
            ]
          ]
        ])

  scan_loop-IsRebuilt :
      (fuel cursor : ℕ) (s : Scan)
      → cursor ≤ length s.file
      → length s.file ≤ cursor + fuel
      → Tiles s.file beginning_place (place_of cursor s) s.index
      → IsRebuilt s.file (scan_loop io fuel cursor s)
  unfolding scan_loop
  scan_loop-IsRebuilt zero cursor s h enough before = at_end-IsRebuilt cursor s (omega arith) before
  scan_loop-IsRebuilt (suc fuel) cursor s h enough before =
      elim (Bool-cases (ltb cursor (length s.file))) [
        | inl some_left ↦ rw some_left (
            scan_round-IsRebuilt cursor s (scan_loop io fuel) (ground arith) before
              (λ next t behind inside same tiled.
                scan_loop-IsRebuilt fuel next t inside
                  (let size = ap length same in omega (arith, size, behind, enough)) tiled))
        | inr nothing_left ↦ rw nothing_left (at_end-IsRebuilt cursor s (ground arith) before)
      ]

  -- A log file of any content whatever is scanned to the end, if no call on it fails: the records of
  -- the index fill the file as it is left, one behind the other from its beginning, each with the
  -- length that its header says and with the next number and byte offset (modulo 2^64); the counters
  -- are those behind the last of them; the file as it is left is a beginning of the file as it was; and
  -- what has been cut off has no whole header, or fewer bytes behind it than it says.
  pub rebuild_index-IsRebuilt : (file : Bytes) → IsRebuilt file (rebuild_index io file)
  unfolding rebuild_index
  rebuild_index-IsRebuilt file =
      let scanned =
        scan_loop-IsRebuilt (length file) 0 (start file) (omega arith) (omega arith) refl in
      rw (rebuild_index, calm.stat, scanned.result, calm.seek_end)
        (record {
          rebuilt = scanned.rebuilt;
          result = refl;
          tiled = scanned.tiled;
          cut = scanned.cut;
          beginning = scanned.beginning;
          no_more = scanned.no_more;
        })
