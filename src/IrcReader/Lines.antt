-- ===== src/IrcReader/Lines.antt =====
-- One round of `ReadLine` against the stream of bytes that the connection delivers.
use irc_go.Prelude.{
  ℕ, suc, ◌+◌, ◌-◌, ◌≤◌, ◌<◌, false, List, [], ◌∷◌, ◌++◌, append_assoc, append-nil, Option, none,
  some, inl, inr, ◌≡◌, refl, sym, ap, ◌∙◌, arith, Bytes, length, length-append, length-take,
  length-drop, take, drop, take-append-drop, leb→le, contains, leb, Bool-cases,
}
use irc_go.IrcReader.{
  ConnError, conn_eof, conn_other, Chunk, conn_read, Reader, slice, ReadResult, conn_error, is_full,
  make_room, append_read, after_read, fill,
}
use irc_go.IrcReader.Slices.{slice_split, take_front, drop_front, length-slice}
use irc_go.IrcReader.Invariant.{
  IsReader, pending, pending_split, make_room_facts, append_read_facts,
}

-- The connection gives no more than there is room for, and loses nothing.
unfoldable pub stream : List Chunk → Bytes
stream [] = []
stream (c ∷ conn) = c.bytes ++ stream conn

pub conn_read_facts :
    (room : ℕ) (conn : List Chunk)
    → (length (conn_read room conn).0.0 ≤ room)
      × (stream conn ≡ (conn_read room conn).0.0 ++ stream (conn_read room conn).1)
unfolding conn_read stream
conn_read_facts room [] = (omega arith, refl)
conn_read_facts room (c ∷ conn) = elim (Bool-cases (leb (length c.bytes) room)) [
  | inl fits ↦ rw fits (leb→le (length c.bytes) room fits, refl)
  | inr over ↦ rw over (
    omega (arith, length-take room c.bytes),
    ap (λ x. x ++ stream conn) (sym (take-append-drop room c.bytes))
        ∙ append_assoc (take room c.bytes) (drop room c.bytes) (stream conn),
  )
]

-- What is left of the connection: its chunks and their bytes.
abbrev pub weight : List Chunk → ℕ
weight [] = 0
weight (c ∷ conn) = suc (length c.bytes + weight conn)

weight-conn_read :
    (room : ℕ) (c : Chunk) (conn : List Chunk)
    → 0 < room
    → weight (conn_read room (c ∷ conn)).1 < weight (c ∷ conn)
unfolding conn_read
weight-conn_read room c conn h = ground (arith, length-drop room c.bytes)

-- What a round that reads from the connection does.
pub record IsFilled (r : Reader) (conn : List Chunk)
    (out : (Option ReadResult × Reader) × List Chunk) : Type 0 where
  pub is_reader : IsReader out.0.1
  pub keeps : pending r ++ stream conn ≡ pending out.0.1 ++ stream out.1
  pub lighter : out.0.0 ≡ none → weight out.1 < weight conn
  pub fails : (e : ReadResult) → out.0.0 ≡ some e → (k : ConnError) × (e ≡ conn_error k)
  pub at_eof : out.0.0 ≡ some (conn_error conn_eof) → pending out.0.1 ≡ pending r
  pub same_max : out.0.1.max_size ≡ r.max_size

module _ (r : Reader) where
  after_read-IsReader :
      (got : Bytes) (err : Option ConnError) → IsReader r → IsReader (after_read r got err).1
  unfolding after_read
  after_read-IsReader got none v = v
  after_read-IsReader [] (some conn_eof) v = v
  after_read-IsReader (c ∷ got) (some conn_eof) v = record {
    start_le = v.start_le;
    search_le = v.search_le;
    end_le = v.end_le;
    size_le = v.size_le;
    searched = v.searched;
    two_le = v.two_le;
    initial_le = v.initial_le;
  }
  after_read-IsReader got (some (conn_other e)) v = v

  after_read-pending :
      (got : Bytes) (err : Option ConnError) → pending (after_read r got err).1 ≡ pending r
  unfolding after_read
  after_read-pending got none = refl
  after_read-pending [] (some conn_eof) = refl
  after_read-pending (c ∷ got) (some conn_eof) = refl
  after_read-pending got (some (conn_other e)) = refl

  after_read-fails :
      (got : Bytes) (err : Option ConnError) (e : ReadResult)
      → (after_read r got err).0 ≡ some e
      → (k : ConnError) × (e ≡ conn_error k)
  unfolding after_read
  after_read-fails got none e h = cc
  after_read-fails [] (some conn_eof) e h = (conn_eof, cc)
  after_read-fails (c ∷ got) (some conn_eof) e h = cc
  after_read-fails got (some (conn_other k)) e h = (conn_other k, cc)

  -- `io.EOF` is passed on only where nothing was read with it.
  after_read-eof :
      (got : Bytes) (err : Option ConnError)
      → (after_read r got err).0 ≡ some (conn_error conn_eof)
      → got ≡ []
  unfolding after_read
  after_read-eof got none h = cc
  after_read-eof [] (some conn_eof) h = refl
  after_read-eof (c ∷ got) (some conn_eof) h = cc
  after_read-eof got (some (conn_other k)) h = cc

after_read-max :
    (r : Reader) (got : Bytes) (err : Option ConnError)
    → (after_read r got err).1.max_size ≡ r.max_size
unfolding after_read
after_read-max r got none = refl
after_read-max r [] (some conn_eof) = refl
after_read-max r (c ∷ got) (some conn_eof) = refl
after_read-max r got (some (conn_other e)) = refl

fill-nil : (r : Reader) → (fill r []).0.0 ≡ some (conn_error conn_eof)
unfolding fill conn_read after_read
fill-nil r = refl

fill-lighter :
    (r : Reader) (conn : List Chunk)
    → (make_room r).end < length (make_room r).buf
    → (fill r conn).0.0 ≡ none
    → weight (fill r conn).1 < weight conn
unfolding fill
fill-lighter r [] h e = cc (fill-nil r)
fill-lighter r (c ∷ conn) h e =
    weight-conn_read (length (make_room r).buf - (make_room r).end) c conn (omega arith)

pub fill-IsFilled :
    (r : Reader) (conn : List Chunk)
    → IsReader r
    → is_full r ≡ false
    → contains b'\n' (pending r) ≡ false
    → IsFilled r conn (fill r conn)
unfolding fill
fill-IsFilled r conn v h c =
    let (room, same, free) = make_room_facts r v h c in
    let space = length (make_room r).buf - (make_room r).end in
    let (few, whole) = conn_read_facts space conn in
    let got = (conn_read space conn).0.0 in
    let err = (conn_read space conn).0.1 in
    let (next, more) =
      append_read_facts (make_room r) got room (unfold make_room in refl) (unfold make_room in refl)
        (omega arith) in
    let filled = append_read (make_room r) got in
    record {
      is_reader = after_read-IsReader filled got err next;
      keeps =
          ap (◌++◌ (pending r)) whole
          ∙ sym (append_assoc (pending r) got (stream (conn_read space conn).1))
          ∙ ap (λ x. x ++ stream (conn_read space conn).1)
              (sym (after_read-pending filled got err ∙ more ∙ ap (λ x. x ++ got) same));
      lighter = fill-lighter r conn free;
      fails = after_read-fails filled got err;
      at_eof = λ e.
          after_read-pending filled got err
          ∙ more
          ∙ ap (λ x. pending (make_room r) ++ x) (after_read-eof filled got err e)
          ∙ append-nil (pending (make_room r))
          ∙ same;
      same_max = unfold append_read make_room in after_read-max filled got err;
    }

-- Where the slice from `searchFrom` on is `p`, a newline and `q`, the line ends.
module _ (r : Reader) (v : IsReader r) (p q : Bytes)
    (found : slice r.buf r.search_from r.end ≡ p ++ b'\n' ∷ q) where
  abbrev pub newline_at : ℕ
  newline_at = r.search_from + length p

  pub newline_lt : newline_at + 1 + length q ≡ r.end
  newline_lt = omega (
    arith,
    length-slice r.buf r.search_from r.end v.search_le v.end_le,
    ap length found,
    length-append p (b'\n' ∷ q),
    v.search_le,
  )

  pub line_splits :
      (slice r.buf r.search_from newline_at ≡ p) × (slice r.buf newline_at r.end ≡ b'\n' ∷ q)
  line_splits =
      let parts =
        slice_split r.buf r.search_from newline_at r.end (omega arith)
          (omega (arith, newline_lt)) in
      let n : length (slice r.buf r.search_from newline_at) ≡ length p = omega (
        arith,
        length-slice r.buf r.search_from newline_at (omega arith)
            (omega (arith, newline_lt, v.end_le)),
      ) in
      let both = sym parts ∙ found in
      (
        sym (take_front (slice r.buf r.search_from newline_at) n (slice r.buf newline_at r.end))
            ∙ ap (take (length p)) both
            ∙ take_front p refl (b'\n' ∷ q),
        sym (drop_front (slice r.buf r.search_from newline_at) n (slice r.buf newline_at r.end))
            ∙ ap (drop (length p)) both
            ∙ drop_front p refl (b'\n' ∷ q),
      )

  pub rest_is : slice r.buf (newline_at + 1) r.end ≡ q
  rest_is =
      let parts =
        slice_split r.buf newline_at (newline_at + 1) r.end (omega arith)
          (omega (arith, newline_lt)) in
      let n : length (slice r.buf newline_at (newline_at + 1)) ≡ 1 = omega (
        arith,
        length-slice r.buf newline_at (newline_at + 1) (omega arith)
            (omega (arith, newline_lt, v.end_le)),
      ) in
      sym (
        drop_front (slice r.buf newline_at (newline_at + 1)) n (slice r.buf (newline_at + 1) r.end))
      ∙ ap (drop 1) (sym parts ∙ line_splits.1)

  pub raw_is : slice r.buf r.start newline_at ≡ slice r.buf r.start r.search_from ++ p
  raw_is =
      slice_split r.buf r.start r.search_from newline_at v.start_le (omega arith)
      ∙ ap (◌++◌ (slice r.buf r.start r.search_from)) line_splits.0

  pub pending_is : pending r ≡ slice r.buf r.start newline_at ++ b'\n' ∷ q
  pending_is =
      pending_split r v
      ∙ ap (◌++◌ (slice r.buf r.start r.search_from)) found
      ∙ sym (append_assoc (slice r.buf r.start r.search_from) p (b'\n' ∷ q))
      ∙ ap (λ x. x ++ b'\n' ∷ q) (sym raw_is)
