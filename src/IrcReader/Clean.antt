-- ===== src/IrcReader/Clean.antt =====
-- Connections that report no error before they end: what `ReadLine` keeps on them.
use irc_go.Prelude.{
  ℕ, zero, suc, ◌-◌, false, List, [], ◌∷◌, Option, none, some, ◌≡◌, refl, subst, ◌∙◌, inl, inr,
  arith, Bytes, length, leb, cut, Bool-cases, Option-cases,
}
use irc_go.IrcReader.{
  ConnError, conn_eof, Chunk, conn_read, Reader, ReadResult, line_read, read_q, conn_error,
  find_line, is_full, make_buf, slice, make_room, append_read, after_read, fill, read_line,
}

unfoldable pub IsClean : List Chunk → Type 0
IsClean [] = Unit {0}
IsClean (c ∷ conn) = (c.err ≡ none) × IsClean conn

-- What a step keeps, and that it fails only at the end.
pub record StaysClean (max : ℕ) (result : Option ReadResult) (r : Reader) (conn : List Chunk)
    : Type 0 where
  pub no_eof : r.eof ≡ false
  pub max_same : r.max_size ≡ max
  pub clean : IsClean conn
  pub at_end : (e : ConnError) → result ≡ some (conn_error e) → (e ≡ conn_eof) × (conn ≡ [])

fill-StaysClean :
    (r : Reader) (conn : List Chunk)
    → r.eof ≡ false
    → IsClean conn
    → StaysClean r.max_size (fill r conn).0.0 (fill r conn).0.1 (fill r conn).1
unfolding fill conn_read after_read make_room append_read IsClean
fill-StaysClean r [] h k = record {
  no_eof = h;
  max_same = refl;
  clean = tt;
  at_end = λ e z. (ground arith, refl);
}
fill-StaysClean r (c ∷ conn) h (e, k) =
    elim (Bool-cases (leb (length c.bytes) (length (make_buf r) - (r.end - r.start)))) [
      | inl fits ↦ rw fits (
          rw e (record {
            no_eof = h;
            max_same = refl;
            clean = k;
            at_end = λ x z. absurd (ground arith);
          }))
      | inr over ↦ rw over (record {
        no_eof = h;
        max_same = refl;
        clean = (e, k);
        at_end = λ x z. absurd (ground arith);
      })
    ]

find_line-same :
    (r r' : Reader) (l : Bytes)
    → find_line r ≡ some (l, r')
    → (r'.eof ≡ r.eof) × (r'.max_size ≡ r.max_size)
unfolding find_line
find_line-same r r' l h = elim (Option-cases (cut b'\n' (slice r.buf r.search_from r.end))) [
  | inl n ↦ absurd (ground arith)
  | inr (p, n) ↦ ground arith
]

abbrev Kept : ℕ → (ReadResult × Reader) × List Chunk → Type 0
Kept max out = StaysClean max (some out.0.0) out.0.1 out.1

arrives :
    {o : Option ((ReadResult × Reader) × List Chunk)} (max : ℕ)
    (a b : (ReadResult × Reader) × List Chunk)
    → Kept max a
    → o ≡ some a
    → o ≡ some b
    → Kept max b
arrives max a b h p q = let same : a ≡ b = ground arith in subst (Kept max) same h

pub read_line-StaysClean :
    (f : ℕ) (r r' : Reader) (conn conn' : List Chunk) (result : ReadResult)
    → r.eof ≡ false
    → IsClean conn
    → read_line f r conn ≡ some ((result, r'), conn')
    → StaysClean r.max_size (some result) r' conn'
unfolding read_line
read_line-StaysClean zero r r' conn conn' result h k e = absurd (ground arith)
read_line-StaysClean (suc f) r r' conn conn' result h k e = elim (Option-cases (find_line r)) [
  | inr ((l, next), z) ↦
      let (eof, max) = find_line-same r next l z in
      arrives r.max_size ((line_read l, next), conn) ((result, r'), conn')
        (record {
          no_eof = eof ∙ h;
          max_same = max;
          clean = k;
          at_end = λ x w. absurd (ground arith);
        })
        (rw (z, read_line) refl) e
  | inl z ↦ elim (Bool-cases (is_full r)) [
    | inl full ↦
        arrives r.max_size ((read_q, r), conn) ((result, r'), conn')
          (record { no_eof = h; max_same = refl; clean = k; at_end = λ x w. absurd (ground arith) })
          (rw (z, full, read_line) refl) e
    | inr space ↦
        let step = fill-StaysClean r conn h k in
        elim (Option-cases (fill r conn).0.0) [
          | inl more ↦
              let again : read_line f (fill r conn).0.1 (fill r conn).1
                  ≡ some ((result, r'), conn') =
                rw (z, space, h, more, read_line) at e in
              let rest =
                read_line-StaysClean f (fill r conn).0.1 r' (fill r conn).1 conn' result step.no_eof
                  step.clean again in
              subst (λ m. StaysClean m (some result) r' conn') step.max_same rest
          | inr (x, stop) ↦
              arrives r.max_size ((x, (fill r conn).0.1), (fill r conn).1) ((result, r'), conn')
                (subst (λ o. StaysClean r.max_size o (fill r conn).0.1 (fill r conn).1) stop step)
                (simp (z, space, h, stop, read_line) refl) e
        ]
  ]
]
