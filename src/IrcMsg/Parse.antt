-- ===== src/IrcMsg/Parse.antt =====
-- ircmsg/message.go: `parseLine` and what it calls.
use irc_go.Prelude.{
  ℕ, zero, suc, ◌-◌, Bool, true, false, not, ◌&&◌, ◌||◌, List, [], ◌∷◌, Option, none, some, Bytes,
  length, cut, contains, trim_suffix, to_upper, ltb, leb, ◌==◌, if◌then◌else◌,
}
use irc_go.IrcMsg.Tags.{is_empty, validate_tag_name, unescape_tag_value}
use irc_go.IrcMsg.Utf8.{valid_string, truncate_utf8_safe}
use irc_go.IrcMsg.Message.{
  MsgError, line_is_empty, line_contains_bad_char, body_too_long, tags_too_long,
  invalid_tag_content, Message, no_message, Outcome, returns, panics, set_tag,
}

unfoldable pub trim_initial_spaces : Bytes → Bytes
trim_initial_spaces [] = []
trim_initial_spaces (c ∷ s) = if c == b' ' then trim_initial_spaces s else c ∷ s

unfoldable pub is_ascii : Bytes → Bool
is_ascii [] = true
is_ascii (c ∷ s) = if ltb 127 c then false else is_ascii s

-- `tagName` and `tagValue` of a tag pair.
unfoldable pub split_pair : Bytes → Bytes × Bytes
split_pair pair = elim (cut b'=' pair) [ none ↦ (pair, []) | some (n, v) ↦ (n, v) ]

-- One tag: `none` is ErrorInvalidTagContent.
unfoldable pub parse_tag : Message → Bytes → Option Message
unfolding split_pair
parse_tag msg pair =
    let (name, value) = split_pair pair in
    if validate_tag_name name
    then if not (valid_string value)
      then none
      else some (set_tag msg name (unescape_tag_value value))
    else some msg

-- The loop of `parseTags`: it returns the message so far and whether it failed. Every round
-- shortens `tags`, which bounds the fuel.
unfoldable pub parse_tags_loop : ℕ → Message → Bytes → Message × Bool
unfolding parse_tag
parse_tags_loop zero msg tags = (msg, false)
parse_tags_loop (suc f) msg [] = (msg, false)
parse_tags_loop (suc f) msg (t ∷ tags) = elim (cut b';' (t ∷ tags)) [
  | none ↦ elim (parse_tag msg (t ∷ tags)) [ none ↦ (msg, true) | some msg' ↦ (msg', false) ]
  | some (pair, rest) ↦ elim (parse_tag msg pair) [
    | none ↦ (msg, true)
    | some msg' ↦ parse_tags_loop f msg' rest
  ]
]

unfoldable pub parse_tags : Message → Bytes → Message × Bool
unfolding parse_tags_loop
parse_tags msg tags = parse_tags_loop (length tags) msg tags

-- The loop over the parameters, one space or more behind each. Every round but the last
-- shortens `line`, which bounds the fuel.
unfoldable pub parse_params_loop : ℕ → Bytes → List Bytes
parse_params_loop zero line = []
parse_params_loop (suc f) line = elim (trim_initial_spaces line) [
  | [] ↦ []
  | c ∷ s ↦ elim (c == b':') [
    | true ↦ s ∷ []
    | false ↦ elim (cut b' ' (c ∷ s)) [
      | none ↦ (c ∷ s) ∷ []
      | some (param, rest) ↦ param ∷ parse_params_loop f rest
    ]
  ]
]

unfoldable pub parse_params : Bytes → List Bytes
unfolding parse_params_loop
parse_params line = parse_params_loop (suc (length line)) line

-- `line[:commandEnd]` and `line[paramStart:]`.
unfoldable pub split_command : Bytes → Bytes × Bytes
split_command line = elim (cut b' ' line) [ none ↦ (line, []) | some (c, r) ↦ (c, r) ]

-- From `// command` to the end; `err` is nil or ErrorBodyTooLong.
unfoldable pub parse_command : Message → Option MsgError → Bytes → Outcome Message
unfolding split_command
parse_command msg err line =
    let (base, rest) = split_command line in
    if is_empty base
    then returns msg (some line_is_empty)
    else if not (is_ascii base)
    then returns msg (some line_contains_bad_char)
    else returns (record msg { command = to_upper base; params = parse_params rest }) err

-- From `line = trimInitialSpaces(line)` and `// source` on. The first space of a line that begins
-- with `:` is the first one behind the colon.
unfoldable pub parse_source : Message → Option MsgError → Bytes → Outcome Message
parse_source msg err line = elim (trim_initial_spaces line) [
  | [] ↦ parse_command msg err []
  | c ∷ s ↦ elim (c == b':') [
    | true ↦ elim (cut b' ' s) [
      | none ↦ returns msg (some line_is_empty)
      | some (source, rest) ↦
          parse_command (record msg { source = source }) err (trim_initial_spaces rest)
    ]
    | false ↦ parse_command msg err (trim_initial_spaces (c ∷ s))
  ]
]

-- From `// truncate if desired` on; here `truncate_len` has 2 taken off already.
unfoldable pub parse_body : Message → ℕ → Bytes → Outcome Message
parse_body msg truncate_len line =
    if not (truncate_len == 0) && ltb truncate_len (length line)
    then elim (truncate_utf8_safe line truncate_len) [
      | none ↦ panics
      | some line' ↦ parse_source msg (some body_too_long) line'
    ]
    else parse_source msg none line

-- What follows the tags, if they were read.
after_tags : ℕ → Bytes → Message × Bool → Outcome Message
after_tags truncate_len rest (msg, true) = returns msg (some invalid_tag_content)
after_tags truncate_len rest (msg, false) = parse_body msg truncate_len rest

-- From `// tags` on.
unfoldable pub parse_tagged : ℕ → ℕ → Bytes → Outcome Message
unfolding after_tags
parse_tagged max_tag_data_length truncate_len [] = returns no_message (some line_is_empty)
parse_tagged max_tag_data_length truncate_len (c ∷ s) = elim (c == b'@') [
  | false ↦ parse_body no_message truncate_len (c ∷ s)
  | true ↦ elim (cut b' ' s) [
    | none ↦ returns no_message (some line_is_empty)
    | some (tags, rest) ↦
        if ltb 0 max_tag_data_length && ltb max_tag_data_length (length tags)
        then returns no_message (some tags_too_long)
        else after_tags truncate_len rest (parse_tags no_message tags)
  ]
]

unfoldable pub strip_newline : Bytes → Bytes
strip_newline line = trim_suffix b'\r' (trim_suffix b'\n' line)

-- One of the three forbidden bytes is there.
abbrev pub has_forbidden : Bytes → Bool
has_forbidden s = contains 0 s || contains b'\n' s || contains b'\r' s

-- `parseLine`, for limits that are not negative.
unfoldable pub parse_line : Bytes → ℕ → ℕ → Outcome Message
unfolding strip_newline
parse_line line max_tag_data_length truncate_len =
    if not (truncate_len == 0) && leb truncate_len 2
    then returns no_message (some line_is_empty)
    else if has_forbidden (strip_newline line)
    then returns no_message (some line_contains_bad_char)
    else parse_tagged max_tag_data_length (truncate_len - 2) (strip_newline line)

abbrev maxlen_tag_data : ℕ
maxlen_tag_data = 8191 - 2

abbrev maxlen_client_tag_data : ℕ
maxlen_client_tag_data = 4094

unfoldable pub parse_line_strict : Bytes → Bool → ℕ → Outcome Message
parse_line_strict line from_client truncate_len =
    parse_line line (if from_client then maxlen_client_tag_data else maxlen_tag_data) truncate_len
