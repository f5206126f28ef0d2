-- ===== src/IrcReader.antt =====
-- ircreader/ircreader.go: the line reader with a buffer that grows up to a limit.
pub mod Rounding
pub mod Slices
pub mod Invariant
pub mod Lines
pub mod ReadLine
pub mod Clean
pub mod Stream
pub mod Written
use Prim.Native.Nat.{bit_or}
use irc_go.Prelude.{
  ℕ, zero, suc, ◌+◌, ◌-◌, ◌/◌, ◌^◌, Bool, true, false, ◌&&◌, ◌||◌, not, List, [], ◌∷◌, ◌++◌, Option,
  none, some, Bytes, length, take, drop, cut, trim_suffix, ltb, leb, ◌==◌, if◌then◌else◌,
}

-- What the connection reports: `io.EOF`, or some other error.
pub data ConnError : Type 0 where
  conn_eof : ConnError
  conn_other : ℕ → ConnError

-- Bytes that arrive together, and the error that `Read` returns with the last of them.
pub record Chunk : Type 0 where
  pub bytes : Bytes
  pub err : Option ConnError

-- `conn.Read` into a slice of `room` bytes, for a connection that delivers the chunks in order and
-- then `io.EOF`: at most `room` bytes, and what does not fit is kept for the next call.
unfoldable pub conn_read : ℕ → List Chunk → (Bytes × Option ConnError) × List Chunk
conn_read room [] = (([], some conn_eof), [])
conn_read room (c ∷ conn) =
    if leb (length c.bytes) room
    then ((c.bytes, c.err), conn)
    else ((take room c.bytes, none), record c { bytes = drop room c.bytes } ∷ conn)

pub record Reader : Type 0 where
  pub initial_size : ℕ
  pub max_size : ℕ
  pub buf : Bytes
  pub start : ℕ
  pub end : ℕ
  pub search_from : ℕ
  pub eof : Bool

unfoldable pub initialize : ℕ → ℕ → Reader
initialize initial_size max_size = record {
  initial_size = initial_size;
  max_size = max_size;
  buf = [];
  start = 0;
  end = 0;
  search_from = 0;
  eof = false;
}

-- `v |= v >> k`.
unfoldable pub smear : ℕ → ℕ → ℕ
smear k v = bit_or v (v / 2 ^ k)

-- `roundUpToPowerOfTwo`, on arguments from 1 on.
unfoldable pub round_up_to_power_of_two : ℕ → ℕ
round_up_to_power_of_two v = smear 16 (smear 8 (smear 4 (smear 2 (smear 1 (v - 1))))) + 1

-- `b[i:j]`.
abbrev pub slice : Bytes → ℕ → ℕ → Bytes
slice b i j = take (j - i) (drop i b)

-- `copy(dst, src)`: as many bytes as fit.
abbrev pub copy : Bytes → Bytes → Bytes
copy dst [] = dst
copy [] (s ∷ src) = []
copy (d ∷ dst) (s ∷ src) = s ∷ copy dst src

abbrev pub zeros : ℕ → Bytes
zeros zero = []
zeros (suc n) = 0 ∷ zeros n

pub data ReadResult : Type 0 where
  line_read : Bytes → ReadResult
  read_q : ReadResult
  conn_error : ConnError → ReadResult

-- The first lines of a round: the line up to the next `\n` that is in the buffer.
unfoldable pub find_line : Reader → Option (Bytes × Reader)
find_line r = elim (cut b'\n' (slice r.buf r.search_from r.end)) [
  | none ↦ none
  | some (before, _) ↦
      let nl = r.search_from + length before in
      some (
        trim_suffix b'\r' (slice r.buf r.start nl),
        record r { start = nl + 1; search_from = nl + 1 },
      )
]

-- Out of space.
unfoldable pub is_full : Reader → Bool
is_full r = r.start == 0 && r.end == length r.buf && length r.buf == r.max_size

unfoldable pub new_len : Reader → ℕ
new_len r =
    let n = round_up_to_power_of_two (length r.buf + 1) in
    if ltb r.max_size n then r.max_size else if ltb n r.initial_size then r.initial_size else n

-- The buffer is grown, or its data slid back.
unfoldable pub make_buf : Reader → Bytes
make_buf r =
    if ltb (length r.buf) r.max_size && ltb (length r.buf - (r.end - r.start)) (r.initial_size / 2)
    then copy (zeros (new_len r)) (slice r.buf r.start r.end)
    else if not (r.start == 0)
    then copy r.buf (slice r.buf r.start r.end)
    else r.buf

unfoldable pub make_room : Reader → Reader
make_room r = record r {
  buf = make_buf r;
  start = 0;
  end = r.end - r.start;
  search_from = r.end - r.start;
}

-- `cc.end += n` behind the bytes that `Read` has written to `cc.buf[cc.end:]`.
unfoldable pub append_read : Reader → Bytes → Reader
append_read r got = record r {
  buf = take r.end r.buf ++ copy (drop r.end r.buf) got;
  end = r.end + length got;
}

abbrev is_nil : Bytes → Bool
is_nil [] = true
is_nil (_ ∷ _) = false

-- What the error of `Read` does: `inl` goes on with the loop.
unfoldable pub after_read : Reader → Bytes → Option ConnError → Option ReadResult × Reader
after_read r got none = (none, r)
after_read r got (some conn_eof) =
    if is_nil got then (some (conn_error conn_eof), r) else (none, record r { eof = true })
after_read r got (some (conn_other e)) = (some (conn_error (conn_other e)), r)

-- From the allocation to the end of a round.
unfoldable pub fill : Reader → List Chunk → (Option ReadResult × Reader) × List Chunk
fill r conn =
    let room = make_room r in
    let ((got, err), conn') = conn_read (length room.buf - room.end) conn in
    (after_read (append_read room got) got err, conn')

-- `ReadLine` with fuel; `none` means that the fuel ran out.
unfoldable pub read_line : ℕ → Reader → List Chunk → Option ((ReadResult × Reader) × List Chunk)
read_line zero r conn = none
read_line (suc f) r conn = elim (find_line r) [
  | some (l, r') ↦ some ((line_read l, r'), conn)
  | none ↦ elim (is_full r) [
    | true ↦ some ((read_q, r), conn)
    | false ↦ elim r.eof [
      | true ↦ some ((conn_error conn_eof, r), conn)
      | false ↦
          let filled = fill r conn in
          elim filled.0.0 [
            | none ↦ read_line f filled.0.1 filled.1
            | some e ↦ some ((e, filled.0.1), filled.1)
          ]
    ]
  ]
]
