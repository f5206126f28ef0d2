-- ===== src/IrcMsg/Tags.antt =====
-- ircmsg/tags.go: the escaping of tag values and the validation of tag names.
pub mod Unescape
use irc_go.Prelude.{
  ℕ, zero, suc, ◌-◌, Bool, true, false, not, ◌&&◌, ◌||◌, List, [], ◌∷◌, ◌++◌, Option, none, some,
  Bytes, length, take, drop, cut, within, ◌==◌, if◌then◌else◌,
}

-- The replacer `valtoescape`, at one byte: each old string is a single byte, so bytes are
-- replaced one by one.
unfoldable pub escape_byte : ℕ → Bytes
escape_byte c =
    if c == b'\\'
    then b'\\' ∷ b'\\' ∷ []
    else if c == b';'
    then b'\\' ∷ b':' ∷ []
    else if c == b' '
    then b'\\' ∷ b's' ∷ []
    else if c == b'\r'
    then b'\\' ∷ b'r' ∷ []
    else if c == b'\n'
    then b'\\' ∷ b'n' ∷ []
    else c ∷ []

unfoldable pub escape_tag_value : Bytes → Bytes
escape_tag_value [] = []
escape_tag_value (c ∷ s) = escape_byte c ++ escape_tag_value s

-- The table `escapedCharLookupTable` that `init` fills.
unfoldable pub escaped_char : ℕ → ℕ
escaped_char c =
    if c == b':'
    then b';'
    else if c == b's'
    then b' '
    else if c == b'r'
    then b'\r'
    else if c == b'n'
    then b'\n'
    else c

abbrev pub is_empty : Bytes → Bool
is_empty [] = true
is_empty (_ ∷ _) = false

-- The loop of `UnescapeTagValue` over `buf` and `remainder`; each round but the last shortens
-- `remainder`, which bounds the fuel.
unescape_loop : ℕ → Bytes → Bytes → Bytes → Bytes
unescape_loop zero in_string buf remainder = buf
unescape_loop (suc f) in_string buf remainder = elim (cut b'\\' remainder) [
  | none ↦ if is_empty buf then in_string else buf ++ remainder
  | some (p, []) ↦
      if is_empty buf
      then take (length in_string - 1) in_string
      else buf ++ take (length remainder - 1) remainder
  | some (p, c ∷ r) ↦ unescape_loop f in_string ((buf ++ p) ++ escaped_char c ∷ []) r
]

unfoldable pub unescape_tag_value : Bytes → Bytes
unfolding unescape_loop
unescape_tag_value in_string = unescape_loop (suc (length in_string)) in_string [] in_string

-- The test that each byte of a tag name passes.
unfoldable pub is_name_char : ℕ → Bool
is_name_char c =
    within b'-' b'/' c || within b'0' b'9' c || within b'A' b'Z' c || within b'a' b'z' c

unfoldable pub name_chars : Bytes → Bool
name_chars [] = true
name_chars (c ∷ s) = is_name_char c && name_chars s

-- What is left of a name behind an initial `+`.
unfoldable pub strip_plus : Bytes → Bytes
strip_plus [] = []
strip_plus (c ∷ s) = if c == b'+' then s else c ∷ s

unfoldable pub validate_tag_name : Bytes → Bool
unfolding strip_plus name_chars is_name_char
validate_tag_name name =
    not (is_empty name) && not (is_empty (strip_plus name)) && name_chars (strip_plus name)
