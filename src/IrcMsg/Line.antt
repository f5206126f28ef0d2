-- ===== src/IrcMsg/Line.antt =====
-- ircmsg/message.go: `line`, which serialises a message, and its callers.
pub mod Limits
use irc_go.Prelude.{
  ℕ, ◌+◌, ◌-◌, Bool, true, false, not, ◌&&◌, ◌||◌, List, [], ◌∷◌, ◌++◌, Option, none, some, Bytes,
  length, take, contains, ltb, ◌==◌, if◌then◌else◌,
}
use irc_go.IrcMsg.Tags.{is_empty, validate_tag_name, escape_tag_value}
use irc_go.IrcMsg.Utf8.{valid_string, chop_end}
use irc_go.IrcMsg.Message.{
  MsgError, line_contains_bad_char, body_too_long, tags_too_long, invalid_tag_content,
  command_missing, bad_param, TagMap, Message, Outcome, returns, panics,
}

unfoldable pub param_requires_trailing : Bytes → Bool
param_requires_trailing [] = true
param_requires_trailing (c ∷ s) = contains b' ' (c ∷ s) || c == b':'

-- What the closure `writeTags` changes.
pub record Writer : Type 0 where
  pub buf : Bytes
  pub first_tag : Bool
  pub tag_error : Bool

-- The `=` and the escaped value of a tag that has one.
unfoldable pub value_part : Bytes → Bytes
value_part [] = []
value_part (c ∷ val) = b'=' ∷ escape_tag_value (c ∷ val)

unfoldable pub write_tag : Writer → Bytes → Bytes → Writer
unfolding value_part
write_tag w tag val = record {
  buf = (w.buf ++ (if w.first_tag then [] else b';' ∷ [])) ++ (tag ++ value_part val);
  first_tag = false;
  tag_error = not (validate_tag_name tag && valid_string val) || w.tag_error;
}

unfoldable pub write_tags : Writer → TagMap → Writer
unfolding write_tag
write_tags w [] = w
write_tags w ((tag, val) ∷ tags) = write_tags (write_tag w tag val) tags

-- The buffer behind the tags, with the lengths counted for the limits.
pub record Head : Type 0 where
  pub buf : Bytes
  pub len_regular_tags : ℕ
  pub len_client_only_tags : ℕ
  pub tag_error : Bool

abbrev no_tags : TagMap → Bool
no_tags [] = true
no_tags (_ ∷ _) = false

abbrev pub tags_start : Writer
tags_start = record { buf = b'@' ∷ []; first_tag = true; tag_error = false }

-- Go computes `lenClientOnlyTags` as -1 where there are only regular tags; here it is 0, which the
-- limit, positive where it is tested, does not exceed either.
unfoldable pub write_head : Message → Head
unfolding write_tags
write_head msg =
    if no_tags msg.tags && no_tags msg.client_only_tags
    then record { buf = []; len_regular_tags = 0; len_client_only_tags = 0; tag_error = false }
    else let regular = write_tags tags_start msg.tags in
      let all = write_tags regular msg.client_only_tags in
      let len_regular = length regular.buf - 1 in
      let len_client = length all.buf - 1 - len_regular in
      record {
        buf = all.buf ++ b' ' ∷ [];
        len_regular_tags = len_regular;
        len_client_only_tags = if len_regular == 0 then len_client else len_client - 1;
        tag_error = all.tag_error;
      }

-- The loop over the parameters; `none` is ErrorBadParam.
unfoldable pub write_params : Bool → List Bytes → Option Bytes
write_params force [] = some []
write_params force (p ∷ []) =
    some (b' ' ∷ (if param_requires_trailing p || force then b':' ∷ p else p))
write_params force (p ∷ q ∷ ps) = elim (param_requires_trailing p) [
  | true ↦ none
  | false ↦ elim (write_params force (q ∷ ps)) [
    | none ↦ none
    | some rest ↦ some (b' ' ∷ (p ++ rest))
  ]
]

unfoldable pub write_source : Bytes → Bytes
write_source [] = []
write_source (c ∷ s) = b':' ∷ ((c ∷ s) ++ b' ' ∷ [])

-- From `buf.WriteString("\r\n")` on. A result of nil is the empty list.
unfoldable pub finish : Bytes → Option MsgError → Outcome Bytes
finish buf err =
    if contains 0 buf || contains b'\r' buf || contains b'\n' buf
    then returns [] (some line_contains_bad_char)
    else returns (buf ++ b'\r' ∷ b'\n' ∷ []) err

-- From `// truncate if desired` on. `lenTags + (truncateLen - 2)` may be negative, which panics.
unfoldable pub truncate_line : Bytes → ℕ → ℕ → Outcome Bytes
truncate_line buf len_tags truncate_len =
    if not (truncate_len == 0) && ltb truncate_len (length buf - len_tags + 2)
    then if ltb (len_tags + truncate_len) 2
      then panics
      else elim (chop_end (take (len_tags + truncate_len - 2) buf)) [
        | none ↦ panics
        | some buf' ↦ finish buf' (some body_too_long)
      ]
    else finish buf none

-- `line`, for limits that are not negative.
unfoldable pub line : Message → ℕ → ℕ → ℕ → ℕ → Outcome Bytes
line msg tag_limit client_only_tag_data_limit server_added_tag_data_limit truncate_len =
    let head = write_head msg in
    if is_empty msg.command
    then returns [] (some command_missing)
    else if head.tag_error
    then returns [] (some invalid_tag_content)
    else if ltb 0 tag_limit && ltb tag_limit (length head.buf)
    then returns [] (some tags_too_long)
    else if (ltb 0 client_only_tag_data_limit
          && ltb client_only_tag_data_limit head.len_client_only_tags)
        || (ltb 0 server_added_tag_data_limit
            && ltb server_added_tag_data_limit head.len_regular_tags)
    then returns [] (some tags_too_long)
    else elim (write_params msg.force_trailing msg.params) [
      | none ↦ returns [] (some bad_param)
      | some params ↦
          truncate_line (head.buf ++ (write_source msg.source ++ (msg.command ++ params)))
            (length head.buf) truncate_len
    ]

abbrev pub maxlen_tags_from_client : ℕ
maxlen_tags_from_client = 4094 + 2

unfoldable pub line_bytes_strict : Message → Bool → ℕ → Outcome Bytes
line_bytes_strict msg from_client truncate_len =
    if from_client
    then line msg maxlen_tags_from_client 0 0 truncate_len
    else line msg 0 4094 4094 truncate_len
