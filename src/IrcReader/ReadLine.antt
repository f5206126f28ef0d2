-- ===== src/IrcReader/ReadLine.antt =====
-- `ReadLine`: what a call returns, and that it returns.
use irc_go.Prelude.{
  ℕ, zero, suc, ◌+◌, ◌<◌, true, false, List, [], ◌∷◌, ◌++◌, append_assoc, none, some, inl, inr, ◌⊎◌,
  ◌≡◌, refl, sym, ap, subst, ◌∙◌, arith, Bytes, length, take, drop, cut, cut-eq-some, contains,
  contains-append, trim_suffix, Bool-cases, Option-cases,
}
use irc_go.IrcReader.{
  ConnError, conn_eof, Chunk, Reader, slice, ReadResult, line_read, read_q, conn_error, find_line,
  is_full, fill, read_line,
}
use irc_go.IrcReader.Slices.{length-slice}
use irc_go.IrcReader.Invariant.{IsReader, pending, find_line-none, length-pending}
use irc_go.IrcReader.Lines.{
  stream, weight, fill-IsFilled, newline_at, newline_lt, rest_is, raw_is, pending_is,
}

-- What a call consumes of `input`, the pending bytes with those still to come. A line is what
-- stands in front of the first `\n`, without one `\r` at its end; an error consumes nothing.
-- A line with its end fits into the limit. ErrReadQ means that the buffer is at its limit with no
-- `\n` in it, and `io.EOF` that it is below its limit, with no line left.
pub data Reads (input : Bytes) (r : Reader) (conn : List Chunk) : ReadResult → Type 0 where
  reads_line :
      {l : Bytes} (raw : Bytes)
      → input ≡ raw ++ b'\n' ∷ (pending r ++ stream conn)
      → contains b'\n' raw ≡ false
      → length raw < r.max_size
      → l ≡ trim_suffix b'\r' raw
      → Reads input r conn (line_read l)
  reads_too_long :
      input ≡ pending r ++ stream conn
      → contains b'\n' (pending r) ≡ false
      → length (pending r) ≡ r.max_size
      → Reads input r conn read_q
  reads_error :
      (e : ConnError)
      → input ≡ pending r ++ stream conn
      → (e ≡ conn_eof → (contains b'\n' (pending r) ≡ false) × (length (pending r) < r.max_size))
      → Reads input r conn (conn_error e)

-- The outcome of a call: the reader stays well formed, and the result is as above.
pub record IsRead (input : Bytes) (out : (ReadResult × Reader) × List Chunk) : Type 0 where
  pub is_reader : IsReader out.0.1
  pub reads : Reads input out.0.1 out.1 out.0.0

-- A line in the buffer.
found_line :
    (r : Reader) (conn : List Chunk) (p q : Bytes)
    → IsReader r
    → cut b'\n' (slice r.buf r.search_from r.end) ≡ some (p, q)
    → (out : Bytes × Reader) × (find_line r ≡ some out)
      × IsRead (pending r ++ stream conn) ((line_read out.0, out.1), conn)
unfolding find_line
found_line r conn p q v e =
    let (found, lacks) = cut-eq-some b'\n' (slice r.buf r.search_from r.end) e in
    let nl = newline_at r v p q found in
    let next = record r { start = nl + 1; search_from = nl + 1 } in
    let empty : slice r.buf (nl + 1) (nl + 1) ≡ [] =
      ap (λ n. take n (drop (nl + 1) r.buf)) {y = 0} (omega arith) in
    (
      (trim_suffix b'\r' (slice r.buf r.start nl), next),
      rw (e, find_line),
      record {
        is_reader = record {
          start_le = omega arith;
          search_le = omega (arith, newline_lt r v p q found);
          end_le = v.end_le;
          size_le = v.size_le;
          searched = rw empty (unfold contains in refl);
          two_le = v.two_le;
          initial_le = v.initial_le;
        };
        reads =
            reads_line (slice r.buf r.start nl)
              (ap (λ x. x ++ stream conn) (pending_is r v p q found)
                ∙ append_assoc (slice r.buf r.start nl) (b'\n' ∷ q) (stream conn)
                ∙ ap (λ x. slice r.buf r.start nl ++ b'\n' ∷ (x ++ stream conn))
                    (sym (rest_is r v p q found)))
              (rw
                (
                  raw_is r v p q found,
                  contains-append b'\n' (slice r.buf r.start r.search_from) p,
                  v.searched,
                )
                lacks)
              (omega (
                arith,
                length-slice r.buf r.start nl (omega (arith, v.start_le))
                    (omega (arith, newline_lt r v p q found, v.end_le)),
                newline_lt r v p q found,
                v.end_le,
                v.size_le,
              ))
              refl;
      },
    )

full_facts : (r : Reader) → IsReader r → is_full r ≡ true → length (pending r) ≡ r.max_size
unfolding is_full
full_facts r v h = ground (arith, length-pending r v)

space_facts : (r : Reader) → IsReader r → is_full r ≡ false → length (pending r) < r.max_size
unfolding is_full
space_facts r v h = ground (arith, length-pending r v, v.start_le, v.search_le, v.end_le, v.size_le)

find_line-cases :
    (r : Reader)
    → (find_line r ≡ none)
      ⊎ ((p : Bytes) × (q : Bytes) × (cut b'\n' (slice r.buf r.search_from r.end) ≡ some (p, q)))
unfolding find_line
find_line-cases r = elim (Option-cases (cut b'\n' (slice r.buf r.search_from r.end))) [
  | inl n ↦ inl (rw (n, find_line))
  | inr ((p, q), e) ↦ inr (p, q, e)
]

module _ (f : ℕ) (r : Reader) (conn : List Chunk) (v : IsReader r) (h : weight conn < suc f)
    (missing : find_line r ≡ none)
    (rest : (r' : Reader) (conn' : List Chunk)
      → IsReader r'
      → weight conn' < f
      → (out : (ReadResult × Reader) × List Chunk) × (read_line f r' conn' ≡ some out)
        × IsRead (pending r' ++ stream conn') out) where
  lacks : contains b'\n' (pending r) ≡ false
  lacks = find_line-none r v missing

  -- An error of the connection is passed on.
  stopped :
      is_full r ≡ false
      → (stop : ReadResult) → (fill r conn).0.0 ≡ some stop
      → IsRead (pending r ++ stream conn) ((stop, (fill r conn).0.1), (fill r conn).1)
  stopped full stop k =
      let g = fill-IsFilled r conn v full lacks in
      let (err, e) = g.fails stop k in
      record {
        is_reader = g.is_reader;
        reads = subst (Reads (pending r ++ stream conn) (fill r conn).0.1 (fill r conn).1) (sym e) (
            reads_error err g.keeps (λ z.
              let same = g.at_eof (k ∙ ap some (e ∙ ap conn_error z)) in
              (
                ap (contains b'\n') same ∙ lacks,
                omega (arith, ap length same, g.same_max, space_facts r v full),
              )));
      }

  -- A round that reads from the connection.
  filled_line :
      is_full r ≡ false
      → r.eof ≡ false
      → (out : (ReadResult × Reader) × List Chunk) × (read_line (suc f) r conn ≡ some out)
        × IsRead (pending r ++ stream conn) out
  unfolding read_line
  filled_line full eof =
      let g = fill-IsFilled r conn v full lacks in
      elim (Option-cases (fill r conn).0.0) [
        | inl on ↦
            let (out, e, reads) =
              rest (fill r conn).0.1 (fill r conn).1 g.is_reader (omega (arith, g.lighter on)) in
            (out, ground (arith, e), rw g.keeps reads)
        | inr (stop, k) ↦
            (((stop, (fill r conn).0.1), (fill r conn).1), ground arith, stopped full stop k)
      ]

  -- A round that finds no line in the buffer.
  no_line :
      (out : (ReadResult × Reader) × List Chunk) × (read_line (suc f) r conn ≡ some out)
      × IsRead (pending r ++ stream conn) out
  unfolding read_line
  no_line = elim (Bool-cases (is_full r)) [
    | inl full ↦ (
      ((read_q, r), conn),
      rw (missing, full, read_line),
      record { is_reader = v; reads = reads_too_long refl lacks (full_facts r v full) },
    )
    | inr space ↦ elim (Bool-cases r.eof) [
      | inl eof ↦ (
        ((conn_error conn_eof, r), conn),
        ground arith,
        record {
          is_reader = v;
          reads = reads_error conn_eof refl (λ _. (lacks, space_facts r v space));
        },
      )
      | inr on ↦ filled_line space on
    ]
  ]

-- From a well-formed reader `ReadLine` returns, and consumes what `Reads` says: with fuel above the
-- number of chunks and bytes that the connection still holds, it does not run out; the reader stays
-- well formed.
pub read_line-IsRead :
    (f : ℕ) (r : Reader) (conn : List Chunk)
    → IsReader r
    → weight conn < f
    → (out : (ReadResult × Reader) × List Chunk) × (read_line f r conn ≡ some out)
      × IsRead (pending r ++ stream conn) out
read_line-IsRead zero r conn v h = elim h [ ]
read_line-IsRead (suc f) r conn v h = elim (find_line-cases r) [
  | inr (p, q, e) ↦
      let (out, found, reads) = found_line r conn p q v e in
      (((line_read out.0, out.1), conn), unfold read_line in rw (found, read_line), reads)
  | inl missing ↦ no_line f r conn v h missing (λ r' conn'. read_line-IsRead f r' conn')
]
