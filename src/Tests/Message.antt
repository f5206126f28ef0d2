-- ===== src/Tests/Message.antt =====
-- Package ircmsg on concrete lines and messages.
use irc_go.Prelude.{
  ◌+◌, ◌≤◌, ◌<◌, true, false, [], ◌∷◌, ◌++◌, none, some, ◌≡◌, refl, arith, Bytes, codes, string_eq,
  lookup, insert, contains, cut, trim_suffix, to_upper, upper_byte, bytes_eq, length,
}
use irc_go.IrcMsg.Message.{Message, returns, set_tag, bad_param}
use irc_go.IrcMsg.Tags.{
  escape_tag_value, escape_byte, escaped_char, unescape_tag_value, validate_tag_name,
}
use irc_go.IrcMsg.Tags.Unescape.{unescaped, unescape_tag_value-unescaped, unescape-escape}
use irc_go.IrcMsg.Utf8.{
  valid_string, last_rune, look_back, rune_start, one_rune, matches, first, chop, chop_end,
  truncate_utf8_safe,
}
use irc_go.IrcMsg.Utf8.Truncate.{truncate-valid_string, truncate_total, truncate_panics}
use irc_go.IrcMsg.Parse.{
  parse_line, parse_tagged, parse_tags, parse_body, parse_source, parse_command,
  trim_initial_spaces, is_ascii, parse_params,
}
use irc_go.IrcMsg.Line.{
  line, write_head, write_params, write_source, truncate_line, finish, param_requires_trailing,
}
use irc_go.IrcMsg.RoundTrip.ReadBack.{IsCanonical, parse_line-line}
use irc_go.IrcMsg.Userhost.{Nuh, parse_nuh, canonical, parse_nuh-canonical, parse_nuh-stable}

abbrev privmsg : Message
privmsg = record {
  source = codes "dan!d@localhost";
  command = codes "PRIVMSG";
  params = codes "#test" ∷ codes "hello world" ∷ [];
  force_trailing = false;
  tags = (codes "time", codes "12; 30") ∷ [];
  client_only_tags = (codes "+typing", []) ∷ [];
}

abbrev privmsg_line : Bytes
privmsg_line = codes "@time=12\\:\\s30;+typing :dan!d@localhost PRIVMSG #test :hello world\r\n"

line-privmsg : line privmsg 4096 0 0 512 ≡ returns privmsg_line none
unfolding line write_head write_params write_source truncate_line finish param_requires_trailing
    validate_tag_name valid_string escape_tag_value escape_byte contains
line-privmsg = refl

privmsg-IsCanonical : IsCanonical privmsg
unfolding to_upper upper_byte is_ascii contains lookup bytes_eq
privmsg-IsCanonical = record {
  upper = refl;
  ascii = refl;
  word = refl;
  plain = refl;
  source_word = refl;
  regular = (refl, refl, refl, tt);
  client = (refl, refl, refl, tt);
}

parse_line-line_example : parse_line privmsg_line 0 0 ≡ returns privmsg none
parse_line-line_example = parse_line-line privmsg 4096 0 0 512 privmsg-IsCanonical line-privmsg

parse_runs : parse_line privmsg_line 8189 512 ≡ returns privmsg none
unfolding parse_line parse_tagged parse_tags parse_body parse_source parse_command
    trim_initial_spaces is_ascii parse_params set_tag insert contains cut trim_suffix to_upper
    upper_byte validate_tag_name valid_string unescape_tag_value escaped_char bytes_eq
parse_runs = refl

bad_middle :
    line (record privmsg { params = [] ∷ codes "x" ∷ [] }) 0 0 0 0 ≡ returns [] (some bad_param)
unfolding line write_head write_params write_source truncate_line finish param_requires_trailing
    validate_tag_name valid_string escape_tag_value escape_byte contains
bad_middle = refl

unescape-escape_example :
    unescape_tag_value (escape_tag_value (codes "a;b \\ c\r\n")) ≡ codes "a;b \\ c\r\n"
unescape-escape_example = unescape-escape (codes "a;b \\ c\r\n")

unescape_tag_value-unescaped_example :
    unescape_tag_value (codes "a\\:b\\x\\") ≡ unescaped (codes "a\\:b\\x\\")
unescape_tag_value-unescaped_example = unescape_tag_value-unescaped (codes "a\\:b\\x\\")

-- "Gr\u00fc\u00df", whose bytes are cut in the middle of the last code point.
abbrev gruess : Bytes
gruess = b'G' ∷ b'r' ∷ 0xC3 ∷ 0xBC ∷ 0xC3 ∷ 0x9F ∷ []

truncate_runs : truncate_utf8_safe gruess 5 ≡ some (b'G' ∷ b'r' ∷ 0xC3 ∷ 0xBC ∷ [])
unfolding truncate_utf8_safe chop_end chop last_rune look_back rune_start one_rune matches first
truncate_runs = refl

gruess-valid_string : valid_string gruess ≡ true
unfolding valid_string
gruess-valid_string = refl

truncate-valid_string_example : valid_string (b'G' ∷ b'r' ∷ 0xC3 ∷ 0xBC ∷ []) ≡ true
truncate-valid_string_example = truncate-valid_string gruess 5 gruess-valid_string truncate_runs

truncate_total_example :
    (r : Bytes) × (rest : Bytes) × (truncate_utf8_safe gruess 5 ≡ some r)
    × (gruess ≡ r ++ rest)
    × (length r ≤ 5)
    × (length gruess ≤ 5 → r ≡ gruess)
    × (5 < length gruess → 5 ≤ length r + 3)
truncate_total_example = truncate_total gruess 5 (omega arith)

truncate_panics_example : truncate_utf8_safe (0xC3 ∷ 0xBC ∷ []) 1 ≡ none
truncate_panics_example = truncate_panics 0xC3 0xBC [] 1 (omega arith) (omega arith)

abbrev dan : Nuh
dan = record { name = codes "dan"; user = codes "~d"; host = codes "localhost" }

parse_nuh-canonical_example : parse_nuh (canonical dan) ≡ some dan
parse_nuh-canonical_example =
    parse_nuh-canonical dan
      (record {
        name_at = unfold contains in refl;
        name_bang = unfold contains in refl;
        user_at = unfold contains in refl;
      })
      (unfold canonical in cc)

parse_dan : parse_nuh (codes "dan@localhost") ≡ some (record dan { user = [] })
unfolding parse_nuh cut
parse_dan = refl

parse_nuh-stable_example :
    parse_nuh (canonical (record dan { user = [] })) ≡ some (record dan { user = [] })
parse_nuh-stable_example =
    parse_nuh-stable (codes "dan@localhost") parse_dan (unfold canonical in cc)
