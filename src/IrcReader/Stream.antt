-- ===== src/IrcReader/Stream.antt =====
-- ircevent/irc.go: `readMsgLoop`, which takes lines until an error, and the reference for what it takes.
use irc_go.Prelude.{
  ℕ, zero, suc, ◌+◌, ◌≤◌, ◌<◌, true, false, ◌==◌, ltb, lt→ltb, if◌then◌else◌, Bool-cases, List, [],
  ◌∷◌, ◌++◌, append_assoc, Option, none, some, ◌≡◌, refl, sym, ap, ◌∙◌, inl, inr, arith, Bytes,
  length, length-append, append-nil, contains, trim_suffix,
}
use irc_go.IrcReader.{
  Chunk, Reader, ReadResult, line_read, read_q, conn_error, conn_eof, initialize, read_line,
}
use irc_go.IrcReader.Invariant.{IsReader, pending}
use irc_go.IrcReader.Lines.{stream, weight}
use irc_go.IrcReader.ReadLine.{Reads, reads_line, reads_too_long, reads_error, read_line-IsRead}
use irc_go.IrcReader.Clean.{IsClean, StaysClean, read_line-StaysClean}

-- The loop on fuel, one for each call of `ReadLine`, which has fuel for what the connection holds:
-- the lines that were sent to `msgChan`, and the result for `errChan`.
abbrev pub read_msg_rest :
    (Reader → List Chunk → Option (List Bytes × ReadResult))
    → Option ((ReadResult × Reader) × List Chunk)
    → Option (List Bytes × ReadResult)
read_msg_rest loop none = none
read_msg_rest loop (some ((line_read l, r), conn)) = elim (loop r conn) [
  | none ↦ none
  | some (lines, e) ↦ some (l ∷ lines, e)
]
read_msg_rest loop (some ((e, r), conn)) = some ([], e)

unfoldable pub read_msg_loop : ℕ → Reader → List Chunk → Option (List Bytes × ReadResult)
read_msg_loop zero r conn = none
read_msg_loop (suc n) r conn =
    read_msg_rest (read_msg_loop n) (read_line (suc (weight conn)) r conn)

abbrev pub maxlen_tags : ℕ
maxlen_tags = 8192

unfoldable pub read_connection : ℕ → ℕ → List Chunk → Option (List Bytes × ReadResult)
unfolding read_msg_loop initialize
read_connection n max_line_len conn =
    read_msg_loop n (initialize 1024 (max_line_len + maxlen_tags)) conn

-- The bytes of a stream from a place on, behind `cur`, the bytes of its line so far: its lines, and
-- the result for `errChan`.
unfoldable pub lines_of : ℕ → Bytes → Bytes → List Bytes × ReadResult
lines_of max cur [] = ([], if ltb (length cur) max then conn_error conn_eof else read_q)
lines_of max cur (c ∷ s) =
    let next = lines_of max [] s in
    let more = lines_of max (cur ++ c ∷ []) s in
    if c == b'\n'
    then (if ltb (length cur) max then (trim_suffix b'\r' cur ∷ next.0, next.1) else ([], read_q))
    else more

unfoldable pub newlines : Bytes → ℕ
newlines [] = 0
newlines (c ∷ s) = if c == b'\n' then suc (newlines s) else newlines s

pub newlines-append : (s t : Bytes) → newlines (s ++ t) ≡ newlines s + newlines t
unfolding newlines
newlines-append [] t = omega arith
newlines-append (c ∷ s) t = ground (arith, newlines-append s t)

-- Bytes without a newline are of one line.
lines_of-lacks :
    (max : ℕ) (cur p t : Bytes)
    → contains b'\n' p ≡ false
    → lines_of max cur (p ++ t) ≡ lines_of max (cur ++ p) t
unfolding lines_of contains
lines_of-lacks max cur [] t h = ap (λ c. lines_of max c t) (sym (append-nil cur))
lines_of-lacks max cur (c ∷ p) t h =
    let (differs, rest) : ((c == b'\n') ≡ false) × (contains b'\n' p ≡ false) = ground arith in
    rw differs (
      lines_of-lacks max (cur ++ c ∷ []) p t rest
      ∙ ap (λ x. lines_of max x t) (append_assoc cur (c ∷ []) p))

pub lines_of-newline :
    (max : ℕ) (raw t : Bytes)
    → contains b'\n' raw ≡ false
    → length raw < max
    → lines_of max [] (raw ++ b'\n' ∷ t)
      ≡ (trim_suffix b'\r' raw ∷ (lines_of max [] t).0, (lines_of max [] t).1)
unfolding lines_of
lines_of-newline max raw t h l =
    lines_of-lacks max [] raw (b'\n' ∷ t) h
    ∙ (let short = lt→ltb (length raw) max l in rw short refl)

-- Behind too many bytes without a newline nothing more is taken.
lines_of-full : (max : ℕ) (cur t : Bytes) → max ≤ length cur → lines_of max cur t ≡ ([], read_q)
unfolding lines_of
lines_of-full max cur [] h = let long : ltb (length cur) max ≡ false = ground arith in rw long refl
lines_of-full max cur (c ∷ t) h =
    let long : ltb (length cur) max ≡ false = ground arith in
    let more = lines_of-full max (cur ++ c ∷ []) t (omega (arith, length-append cur (c ∷ []))) in
    elim (Bool-cases (c == b'\n')) [ inl e ↦ rw (e, long) refl | inr e ↦ rw e more ]

module _ (n : ℕ) (max : ℕ) where
  -- One call, where the calls behind it do as the reference.
  next_call :
      (input : Bytes) (result : ReadResult) (r : Reader) (conn : List Chunk)
      → r.max_size ≡ max
      → StaysClean max (some result) r conn
      → newlines input < suc n
      → Reads input r conn result
      → (newlines (pending r ++ stream conn) < n
          → read_msg_loop n r conn ≡ some (lines_of max [] (pending r ++ stream conn)))
      → read_msg_rest (read_msg_loop n) (some ((result, r), conn)) ≡ some (lines_of max [] input)
  unfolding newlines lines_of stream
  next_call input _ r conn m k f (reads_line raw e lacks short z) rest =
      let fewer = ap newlines e ∙ newlines-append raw (b'\n' ∷ (pending r ++ stream conn)) in
      let whole =
        ap (lines_of max []) e
        ∙ lines_of-newline max raw (pending r ++ stream conn) lacks (omega (arith, m)) in
      rw (rest (omega (arith, fewer)), read_msg_rest)
        (ap
            (λ x. some (
              x ∷ (lines_of max [] (pending r ++ stream conn)).0,
              (lines_of max [] (pending r ++ stream conn)).1,
            ))
            z
          ∙ ap some (sym whole))
  next_call input _ r conn m k f (reads_too_long e lacks full) rest = ap some (
      sym (
        ap (lines_of max []) e
        ∙ lines_of-lacks max [] (pending r) (stream conn) lacks
        ∙ lines_of-full max (pending r) (stream conn) (omega (arith, full, m))))
  next_call input _ r conn m k f (reads_error x e lacks) rest =
      let (at_eof, ended) = k.at_end x refl in
      let (none_left, short) = lacks at_eof in
      let below : ltb (length (pending r)) max ≡ true =
        lt→ltb (length (pending r)) max (omega (arith, short, m)) in
      let last : lines_of max (pending r) [] ≡ ([], conn_error conn_eof) = rw below refl in
      let whole : input ≡ pending r ++ [] = e ∙ ap (λ c. pending r ++ stream c) ended in
      let out : lines_of max [] input ≡ ([], conn_error conn_eof) =
        ap (lines_of max []) whole ∙ lines_of-lacks max [] (pending r) [] none_left ∙ last in
      ap (λ y. some ([], conn_error y)) at_eof ∙ ap some (sym out)

-- From a well-formed reader, on a connection that reports no error before it ends, `readMsgLoop` sends
-- what the reference takes of the bytes that are in the buffer and to come, in whatever chunks they
-- arrive: the lines up to the first that does not fit into the limit, and then ErrReadQ, or else
-- `io.EOF`. Fuel for one call more than there are newlines is enough.
pub read_msg_loop-lines_of :
    (n : ℕ) (r : Reader) (conn : List Chunk)
    → IsReader r
    → r.eof ≡ false
    → IsClean conn
    → newlines (pending r ++ stream conn) < n
    → read_msg_loop n r conn ≡ some (lines_of r.max_size [] (pending r ++ stream conn))
unfolding read_msg_loop
read_msg_loop-lines_of zero r conn v h k f = elim f [ ]
read_msg_loop-lines_of (suc n) r conn v h k f =
    let (((result, r'), conn'), q, read) =
      read_line-IsRead (suc (weight conn)) r conn v (omega arith) in
    let stays = read_line-StaysClean (suc (weight conn)) r r' conn conn' result h k q in
    simp q (
      next_call n r.max_size (pending r ++ stream conn) result r' conn' stays.max_same stays f
        read.reads
        (λ fewer.
          read_msg_loop-lines_of n r' conn' read.is_reader stays.no_eof stays.clean fewer
          ∙ ap (λ m. some (lines_of m [] (pending r' ++ stream conn'))) stays.max_same))
