-- ===== src/IrcFmt/Split.antt =====
-- ircfmt/ircfmt.go: `ParseColor`, `Split` and `Strip`.
pub mod Codes
pub mod Styled
pub mod Stripped
use irc_go.Prelude.{
  ℕ, zero, suc, ◌+◌, ◌-◌, ◌*◌, Bool, true, false, ◌&&◌, ◌||◌, not, ◌==◌, ltb, within, List, [], ◌∷◌,
  ◌++◌, Option, none, some, codes, Bytes, bytes_eq, length, drop, contains, if◌then◌else◌,
}

abbrev pub bold : ℕ
bold = 0x02

abbrev pub colour : ℕ
colour = 0x03

abbrev pub reset : ℕ
reset = 0x0F

abbrev pub monospace : ℕ
monospace = 0x11

abbrev pub reverse_colour : ℕ
reverse_colour = 0x16

abbrev pub italic : ℕ
italic = 0x1D

abbrev pub strikethrough : ℕ
strikethrough = 0x1E

abbrev pub underline : ℕ
underline = 0x1F

abbrev pub metacharacters : Bytes
metacharacters =
    bold ∷ colour ∷ monospace ∷ reverse_colour ∷ italic ∷ strikethrough ∷ underline ∷ reset ∷ []

unfoldable pub is_meta : ℕ → Bool
is_meta c = contains c metacharacters

pub record ColorCode : Type 0 where
  pub is_set : Bool
  pub value : ℕ

abbrev pub unset : ColorCode
unset = record { is_set = false; value = 0 }

abbrev pub is_digit : ℕ → Bool
is_digit c = within b'0' b'9' c

-- `strconv.ParseUint(str, 10, 8)`, behind the first digits.
unfoldable pub uint8_digits : ℕ → Bytes → Option ℕ
uint8_digits acc [] = some acc
uint8_digits acc (c ∷ s) =
    let rest = uint8_digits (acc * 10 + (c - b'0')) s in
    if is_digit c && ltb (acc * 10 + (c - b'0')) 256 then rest else none

unfoldable pub parse_uint8 : Bytes → Option ℕ
parse_uint8 [] = none
parse_uint8 (c ∷ s) = uint8_digits 0 (c ∷ s)

unfoldable pub parse_color : Bytes → ColorCode
parse_color str = elim (parse_uint8 str) [
  | none ↦ unset
  | some code ↦ if ltb code 99 then record { is_set = true; value = code } else unset
]

pub record FormattedSubstring : Type 0 where
  pub content : Bytes
  pub foreground_color : ColorCode
  pub background_color : ColorCode
  pub is_bold : Bool
  pub is_monospace : Bool
  pub is_strikethrough : Bool
  pub is_underline : Bool
  pub is_italic : Bool
  pub is_reverse_color : Bool

-- The zero value.
abbrev pub unformatted : FormattedSubstring
unformatted = record {
  content = [];
  foreground_color = unset;
  background_color = unset;
  is_bold = false;
  is_monospace = false;
  is_strikethrough = false;
  is_underline = false;
  is_italic = false;
  is_reverse_color = false;
}

unfoldable pub is_formatted : FormattedSubstring → Bool
is_formatted f =
    f.foreground_color.is_set
    || not (f.foreground_color.value == 0)
    || f.background_color.is_set
    || not (f.background_color.value == 0)
    || f.is_bold
    || f.is_monospace
    || f.is_strikethrough
    || f.is_underline
    || f.is_italic
    || f.is_reverse_color

-- One or two digits at the start, as many as there are.
unfoldable pub two_digits : Bytes → Bytes
two_digits [] = []
two_digits (c ∷ []) = if is_digit c then c ∷ [] else []
two_digits (c ∷ d ∷ _) = if is_digit c then (if is_digit d then c ∷ d ∷ [] else c ∷ []) else []

-- The digits behind a comma at the start.
abbrev pub back_digits : Bytes → Bytes
back_digits [] = []
back_digits (c ∷ s) = if c == b',' then two_digits s else []

-- The submatches of `colorForeBackRe`, or of `colorForeRe` with no background.
abbrev pub colour_matches : Bytes → Bytes × Bytes
colour_matches raw = (two_digits raw, back_digits (drop (length (two_digits raw)) raw))

-- The case of the colour code: the formatting, and the number of bytes that it takes.
abbrev pub apply_matches : FormattedSubstring → Bytes → Bytes → FormattedSubstring × ℕ
apply_matches chunk [] back =
    (record chunk { foreground_color = unset; background_color = unset }, 0)
apply_matches chunk (c ∷ fore) [] =
    (record chunk { foreground_color = parse_color (c ∷ fore) }, length (c ∷ fore))
apply_matches chunk (c ∷ fore) (d ∷ back) = (
  record chunk {
    foreground_color = parse_color (c ∷ fore);
    background_color = parse_color (d ∷ back);
  },
  length (c ∷ fore) + 1 + length (d ∷ back),
)

-- The switch on a metacharacter, with the text behind it.
unfoldable pub apply_meta : FormattedSubstring → ℕ → Bytes → FormattedSubstring × ℕ
apply_meta chunk c raw =
    if c == bold
    then (record chunk { is_bold = not chunk.is_bold }, 0)
    else if c == monospace
    then (record chunk { is_monospace = not chunk.is_monospace }, 0)
    else if c == strikethrough
    then (record chunk { is_strikethrough = not chunk.is_strikethrough }, 0)
    else if c == underline
    then (record chunk { is_underline = not chunk.is_underline }, 0)
    else if c == italic
    then (record chunk { is_italic = not chunk.is_italic }, 0)
    else if c == reverse_colour
    then (record chunk { is_reverse_color = not chunk.is_reverse_color }, 0)
    else if c == reset
    then (unformatted, 0)
    else if c == colour
    then apply_matches chunk (colour_matches raw).0 (colour_matches raw).1
    else (chunk, 0)

-- `raw[:idx]` and `raw[idx:]` for the first metacharacter, or for the end.
unfoldable pub span_plain : Bytes → Bytes × Bytes
span_plain [] = ([], [])
span_plain (c ∷ s) =
    let rest = span_plain s in if is_meta c then ([], c ∷ s) else (c ∷ rest.0, rest.1)

abbrev pub append_chunk :
    FormattedSubstring → Bytes → List FormattedSubstring → List FormattedSubstring
append_chunk chunk [] result = result
append_chunk chunk (c ∷ s) result = record chunk { content = c ∷ s } ∷ result

-- What follows at the end of the text, or at a metacharacter; `loop` is the rest of the loop.
unfoldable pub at_meta :
    (Bytes → FormattedSubstring → List FormattedSubstring)
    → FormattedSubstring
    → Bytes
    → List FormattedSubstring
at_meta loop chunk [] = []
at_meta loop chunk (c ∷ s) = let next = apply_meta chunk c s in loop (drop next.1 s) next.0

-- The loop, which returns the substrings in place of appending them. The content of `chunk` is set
-- where it is appended, and is not kept in between; each round but the last shortens `raw`, which
-- bounds the fuel.
unfoldable pub split_loop : ℕ → Bytes → FormattedSubstring → List FormattedSubstring
split_loop zero raw chunk = []
split_loop (suc f) raw chunk =
    let part = span_plain raw in append_chunk chunk part.0 (at_meta (split_loop f) chunk part.1)

unfoldable pub split : Bytes → List FormattedSubstring
unfolding split_loop
split raw = split_loop (suc (length raw)) raw unformatted

unfoldable pub contents : List FormattedSubstring → Bytes
contents [] = []
contents (chunk ∷ chunks) = chunk.content ++ contents chunks

-- `Strip`: the branches for one substring and for none are those of `contents`.
unfoldable pub strip : Bytes → Bytes
unfolding contents
strip raw = contents (split raw)
