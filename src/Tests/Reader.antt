-- ===== src/Tests/Reader.antt =====
-- Package ircreader on a connection that delivers its bytes in three pieces.
use irc_go.Prelude.{
  List, [], ◌∷◌, ◌++◌, Option, none, some, ◌≡◌, refl, arith, codes, cut, trim_suffix,
}
use irc_go.IrcReader.{
  Chunk, Reader, ReadResult, line_read, initialize, read_line, find_line, is_full, fill, make_room,
  make_buf, new_len, append_read, after_read, conn_read, round_up_to_power_of_two, smear,
}
use irc_go.IrcReader.Invariant.{pending, initialize-IsReader}
use irc_go.IrcReader.Lines.{stream}
use irc_go.IrcReader.ReadLine.{IsRead, read_line-IsRead}

abbrev pieces : List Chunk
pieces =
    record { bytes = codes "PING"; err = none }
    ∷ record { bytes = codes " a\r\nPI"; err = none }
    ∷ record { bytes = codes "NG b\n"; err = none }
    ∷ []

abbrev result_of : Option ((ReadResult × Reader) × List Chunk) → Option ReadResult
result_of none = none
result_of (some ((e, _), _)) = some e

read_line_runs :
    result_of (read_line 30 (initialize 4 64) pieces) ≡ some (line_read (codes "PING a"))
unfolding read_line find_line is_full fill make_room make_buf new_len append_read after_read
    conn_read round_up_to_power_of_two smear initialize cut trim_suffix
read_line_runs = refl

read_line-IsRead_example :
    (out : (ReadResult × Reader) × List Chunk) × (read_line 30 (initialize 4 64) pieces ≡ some out)
    × IsRead (pending (initialize 4 64) ++ stream pieces) out
read_line-IsRead_example =
    read_line-IsRead 30 (initialize 4 64) pieces
      (initialize-IsReader 4 64 (omega arith) (omega arith)) (omega arith)
