-- ===== src/IrcReader/Written.antt =====
-- A stream of lines that end in CR LF: what `readMsgLoop` takes of it.
use irc_go.Prelude.{
  ℕ, ◌+◌, ltb, lt→ltb, true, ◌≤◌, ◌<◌, false, List, [], ◌∷◌, ◌++◌, append_assoc, some, ◌≡◌, refl,
  sym, ap, ◌∙◌, arith, Bytes, length, length-append, contains, contains-append, trim_suffix,
}
use irc_go.IrcReader.{conn_eof, Chunk, Reader, conn_error}
use irc_go.IrcReader.Invariant.{IsReader, pending}
use irc_go.IrcReader.Lines.{stream}
use irc_go.IrcReader.Clean.{IsClean}
use irc_go.IrcReader.Stream.{
  read_msg_loop, lines_of, lines_of-newline, newlines, newlines-append, read_msg_loop-lines_of,
}

-- Lines with their ends.
unfoldable pub written : List Bytes → Bytes
written [] = []
written (l ∷ lines) = (l ++ b'\r' ∷ b'\n' ∷ []) ++ written lines

-- No line holds a newline, and each fits into `limit` bytes with its end.
unfoldable pub AreLines : ℕ → List Bytes → Type 0
AreLines limit [] = Unit {0}
AreLines limit (l ∷ lines) =
    (contains b'\n' l ≡ false) × (length l + 2 ≤ limit) × AreLines limit lines

trim_suffix-cr : (s : Bytes) → trim_suffix b'\r' (s ++ b'\r' ∷ []) ≡ s
unfolding trim_suffix
trim_suffix-cr [] = refl
trim_suffix-cr (c ∷ []) = refl
trim_suffix-cr (c ∷ d ∷ s) = ap (◌∷◌ c) (trim_suffix-cr (d ∷ s))

-- The first of the lines, up to its newline.
written-cons :
    (l : Bytes) (lines : List Bytes)
    → written (l ∷ lines) ≡ (l ++ b'\r' ∷ []) ++ b'\n' ∷ written lines
unfolding written
written-cons l lines =
    append_assoc l (b'\r' ∷ b'\n' ∷ []) (written lines)
    ∙ sym (append_assoc l (b'\r' ∷ []) (b'\n' ∷ written lines))

front_lacks : (l : Bytes) → contains b'\n' l ≡ false → contains b'\n' (l ++ b'\r' ∷ []) ≡ false
unfolding contains
front_lacks l h = contains-append b'\n' l (b'\r' ∷ []) ∙ rw h refl

newlines-lacks : (s : Bytes) → contains b'\n' s ≡ false → newlines s ≡ 0
unfolding newlines contains
newlines-lacks [] h = refl
newlines-lacks (c ∷ s) h = ground (arith, newlines-lacks s)

newlines-written :
    (max : ℕ) (lines : List Bytes) → AreLines max lines → newlines (written lines) ≡ length lines
unfolding AreLines newlines
newlines-written max [] fit = unfold written in refl
newlines-written max (l ∷ lines) (lacks, short, fit) =
    ap newlines (written-cons l lines)
    ∙ newlines-append (l ++ b'\r' ∷ []) (b'\n' ∷ written lines)
    ∙ omega (
      arith,
      newlines-lacks (l ++ b'\r' ∷ []) (front_lacks l lacks),
      newlines-written max lines fit,
    )

lines_of-written :
    (max : ℕ) (lines : List Bytes)
    → 0 < max
    → AreLines max lines
    → lines_of max [] (written lines) ≡ (lines, conn_error conn_eof)
unfolding AreLines lines_of
lines_of-written max [] p fit =
    unfold written in let short : ltb 0 max ≡ true = lt→ltb 0 max p in rw short refl
lines_of-written max (l ∷ lines) p (lacks, short, fit) =
    let rest = lines_of-written max lines p fit in
    ap (lines_of max []) (written-cons l lines)
    ∙ lines_of-newline max (l ++ b'\r' ∷ []) (written lines) (front_lacks l lacks)
        (omega (arith, length-append l (b'\r' ∷ [])))
    ∙ ap (λ x. (trim_suffix b'\r' (l ++ b'\r' ∷ []) ∷ x.0, x.1)) rest
    ∙ ap (λ x. (x ∷ lines, conn_error conn_eof)) (trim_suffix-cr l)

-- On a connection that reports no error before it ends, and whose bytes, with those in the buffer of
-- a well-formed reader, are lines that fit and end in CR LF, `readMsgLoop` sends exactly those lines
-- to `msgChan`, in order, and then `io.EOF` to `errChan`, whatever the chunks are in which the
-- bytes arrive: fuel for one call more than there are lines is enough.
pub read_msg_loop-written :
    (lines : List Bytes) (n : ℕ) (r : Reader) (conn : List Chunk)
    → IsReader r
    → r.eof ≡ false
    → IsClean conn
    → AreLines r.max_size lines
    → pending r ++ stream conn ≡ written lines
    → length lines < n
    → read_msg_loop n r conn ≡ some (lines, conn_error conn_eof)
read_msg_loop-written lines n r conn v h k fit e f =
    let count = ap newlines e ∙ newlines-written r.max_size lines fit in
    read_msg_loop-lines_of n r conn v h k (omega (arith, count))
    ∙ ap (λ x. some (lines_of r.max_size [] x)) e
    ∙ ap some (lines_of-written r.max_size lines (omega (arith, v.two_le, v.initial_le)) fit)
