-- ===== src/IrcFmt/Escape.antt =====
-- ircfmt/ircfmt.go: `Escape` and `Unescape`.
mod Copied
pub mod RoundTrip
pub mod Panics
use irc_go.Prelude.{
  ℕ, zero, suc, ◌+◌, ◌-◌, Bool, true, false, ◌&&◌, ◌||◌, not, ◌==◌, ltb, within, List, [], ◌∷◌,
  ◌++◌, map, reverse, Option, none, some, codes, Bytes, bytes_eq, length, cut, contains,
  trim_suffix, string_eq, lookup, if◌then◌else◌,
}
use irc_go.IrcFmt.Split.{
  bold, colour, reset, monospace, reverse_colour, italic, strikethrough, underline, is_digit,
}

-- The replacer `valtoescape` at one byte: each old string is a single byte.
unfoldable pub val_to_escape : ℕ → Bytes
val_to_escape c =
    if c == b'$'
    then b'$' ∷ b'$' ∷ []
    else if c == colour
    then b'$' ∷ b'c' ∷ []
    else if c == reverse_colour
    then b'$' ∷ b'v' ∷ []
    else if c == bold
    then b'$' ∷ b'b' ∷ []
    else if c == italic
    then b'$' ∷ b'i' ∷ []
    else if c == strikethrough
    then b'$' ∷ b's' ∷ []
    else if c == underline
    then b'$' ∷ b'u' ∷ []
    else if c == monospace
    then b'$' ∷ b'm' ∷ []
    else if c == reset
    then b'$' ∷ b'r' ∷ []
    else c ∷ []

unfoldable pub replace_all : Bytes → Bytes
replace_all [] = []
replace_all (c ∷ s) = val_to_escape c ++ replace_all s

-- The names of the colours 0 to 15 and 99.
abbrev pub colour_names : List (Bytes × Bytes)
colour_names =
    (codes "0", codes "white")
    ∷ (codes "1", codes "black")
    ∷ (codes "2", codes "blue")
    ∷ (codes "3", codes "green")
    ∷ (codes "4", codes "red")
    ∷ (codes "5", codes "brown")
    ∷ (codes "6", codes "magenta")
    ∷ (codes "7", codes "orange")
    ∷ (codes "8", codes "yellow")
    ∷ (codes "9", codes "light green")
    ∷ (codes "10", codes "cyan")
    ∷ (codes "11", codes "light cyan")
    ∷ (codes "12", codes "light blue")
    ∷ (codes "13", codes "pink")
    ∷ (codes "14", codes "grey")
    ∷ (codes "15", codes "light grey")
    ∷ (codes "99", codes "default")
    ∷ []

-- A key of `numtocolour` with its leading zero taken off, where it has one.
abbrev pub short_number : Bytes → Bytes
short_number (z ∷ d ∷ []) = if z == b'0' then d ∷ [] else z ∷ d ∷ []
short_number s = s

-- `numtocolour`, or the number itself where it is missing.
unfoldable pub name_of : Bytes → Bytes
name_of number = elim (lookup (short_number number) colour_names) [
  | none ↦ number
  | some name ↦ name
]

-- The first of a list.
abbrev pub starts_with_digit : Bytes → Bool
starts_with_digit [] = false
starts_with_digit (c ∷ _) = is_digit c

-- The number of the foreground, and what is left; the first digit has been read.
abbrev pub fore_buffer : ℕ → Bytes → Bytes × Bytes
fore_buffer c [] = (c ∷ [], [])
fore_buffer c (d ∷ s) = if is_digit d then (c ∷ d ∷ [], s) else (c ∷ [], d ∷ s)

-- The second digit of the background. The code tests the digit at index 1, which panics where
-- there is none, and takes the one at index 0.
abbrev pub back_second : ℕ → Bytes → Option (Bytes × Bytes)
back_second d [] = some (d ∷ [], [])
back_second d (e ∷ []) = none
back_second d (e ∷ g ∷ s) =
    if is_digit g then some (d ∷ e ∷ [], g ∷ s) else some (d ∷ [], e ∷ g ∷ s)

-- The number of the background and what is left; `none` is a panic.
abbrev pub back_buffer : Bytes → Option (Bytes × Bytes)
back_buffer [] = some ([], [])
back_buffer (c ∷ []) = some ([], c ∷ [])
back_buffer (c ∷ d ∷ s) = if c == b',' && is_digit d then back_second d s else some ([], c ∷ d ∷ s)

abbrev pub back_part : Bytes → Bytes
back_part [] = []
back_part (c ∷ name) = b',' ∷ c ∷ name

abbrev pub colour_part : Bytes → Bytes → Bytes
colour_part fore back = (b'[' ∷ name_of fore) ++ (back_part (name_of back) ++ b']' ∷ [])

-- A colour code behind its `$c`: what is written, and what is left.
unfoldable pub escape_colour : Bytes → Option (Bytes × Bytes)
escape_colour [] = some (codes "[]", [])
escape_colour (c ∷ s) =
    if is_digit c
    then elim (back_buffer (fore_buffer c s).1) [
      | none ↦ none
      | some (back, rest) ↦ some (colour_part (fore_buffer c s).0 back, rest)
    ]
    else some (codes "[]", c ∷ s)

-- One round of the loop: what is written, and what is left.
unfoldable pub escape_round : ℕ → Bytes → Option (Bytes × Bytes)
escape_round c [] = some (c ∷ [], [])
escape_round c (d ∷ s) =
    if c == b'$' && d == b'c'
    then elim (escape_colour s) [ none ↦ none | some (out, rest) ↦ some (b'$' ∷ b'c' ∷ out, rest) ]
    else elim s [
      | [] ↦ some (c ∷ [], d ∷ [])
      | e ∷ t ↦
          if c == b'$' && d == b'$' && e == b'c'
          then some (c ∷ d ∷ e ∷ [], t)
          else some (c ∷ [], d ∷ e ∷ t)
    ]

-- The loop over the runes, given by their code points; each round takes one at least, which bounds
-- the fuel. `none` is a panic.
unfoldable pub escape_loop : ℕ → Bytes → Option Bytes
escape_loop zero runes = some []
escape_loop (suc f) [] = some []
escape_loop (suc f) (c ∷ s) = elim (escape_round c s) [
  | none ↦ none
  | some (out, rest) ↦ elim (escape_loop f rest) [ none ↦ none | some more ↦ some (out ++ more) ]
]

-- `Escape` of a text that is given by the runes that `[]rune` makes of it, with U+FFFD for a byte that is
-- no UTF-8; the old strings of the replacer are ASCII, so that it may come before or behind that. The
-- result is given by its runes too, which `encode_all` writes as bytes. `none` is a panic.
unfoldable pub escape : Bytes → Option Bytes
escape in_text = let runes = replace_all in_text in escape_loop (suc (length runes)) runes

-- `escapetoval`, or the byte itself where it is missing.
unfoldable pub escape_to_val : ℕ → ℕ
escape_to_val c =
    if c == b'b'
    then bold
    else if c == b'i'
    then italic
    else if c == b'v'
    then reverse_colour
    else if c == b's'
    then strikethrough
    else if c == b'u'
    then underline
    else if c == b'm'
    then monospace
    else if c == b'r'
    then reset
    else c

-- `colourcodesTruncated`.
abbrev pub colour_codes : List (Bytes × Bytes)
colour_codes =
    (codes "white", codes "0")
    ∷ (codes "black", codes "1")
    ∷ (codes "blue", codes "2")
    ∷ (codes "green", codes "3")
    ∷ (codes "red", codes "4")
    ∷ (codes "brown", codes "5")
    ∷ (codes "magenta", codes "6")
    ∷ (codes "orange", codes "7")
    ∷ (codes "yellow", codes "8")
    ∷ (codes "light green", codes "9")
    ∷ (codes "cyan", codes "10")
    ∷ (codes "light cyan", codes "11")
    ∷ (codes "light blue", codes "12")
    ∷ (codes "pink", codes "13")
    ∷ (codes "grey", codes "14")
    ∷ (codes "gray", codes "14")
    ∷ (codes "light grey", codes "15")
    ∷ (codes "light gray", codes "15")
    ∷ (codes "default", codes "99")
    ∷ []

abbrev pub trim_left : Bytes → Bytes
trim_left [] = []
trim_left (c ∷ s) = if within 9 13 c || c == b' ' then trim_left s else c ∷ s

-- `strings.TrimSpace` on ASCII white space.
unfoldable pub trim_space : Bytes → Bytes
trim_space s = reverse (trim_left (reverse (trim_left s)))

abbrev pub lower : ℕ → ℕ
lower c = if within b'A' b'Z' c then c + 32 else c

-- `colourDigits`.
abbrev pub is_colour_digits : Bytes → Bool
is_colour_digits (c ∷ []) = is_digit c
is_colour_digits (c ∷ d ∷ []) = is_digit c && is_digit d
is_colour_digits _ = false

unfoldable pub resolve_to_colour_code : Bytes → Bytes
resolve_to_colour_code str =
    let name = map lower (trim_space str) in
    if is_colour_digits name
    then name
    else elim (lookup name colour_codes) [ none ↦ [] | some code ↦ code ]

-- The brackets have been cut off.
unfoldable pub resolve_to_colour_codes : Bytes → Bytes × Bytes
resolve_to_colour_codes named_colors = elim (cut b',' named_colors) [
  | none ↦ (resolve_to_colour_code named_colors, resolve_to_colour_code [])
  | some (fore, back) ↦ (resolve_to_colour_code fore, resolve_to_colour_code back)
]

-- `bracketedExpr`: what stands in the brackets at the start, and what follows them.
unfoldable pub bracketed : Bytes → Option (Bytes × Bytes)
bracketed [] = none
bracketed (c ∷ s) =
    if c == b'['
    then elim (cut b']' s) [
      | none ↦ none
      | some (inside, rest) ↦ if contains b'\n' inside then none else some (inside, rest)
    ]
    else none

abbrev pub is_single : Bytes → Bool
is_single (_ ∷ []) = true
is_single _ = false

abbrev pub pad : Bool → Bytes → Bytes
pad zero_first s = if zero_first then b'0' ∷ s else s

-- The digits of a colour code.
abbrev pub code_digits : Bytes → Bytes → Bool → Bytes
code_digits [] background followed = []
code_digits (f ∷ fore) [] followed = pad (is_single (f ∷ fore) && followed) (f ∷ fore)
code_digits (f ∷ fore) (b ∷ back) followed =
    (f ∷ fore) ++ b',' ∷ pad (is_single (b ∷ back) && followed) (b ∷ back)

-- A colour escape behind its `$c`: what is written behind the colour byte, and what is left.
unfoldable pub unescape_colour : Bytes → Bytes × Bytes
unescape_colour remaining = elim (bracketed remaining) [
  | none ↦ ([], remaining)
  | some (inside, rest) ↦
      let colours = resolve_to_colour_codes inside in
      (code_digits colours.0 colours.1 (starts_with_digit rest), rest)
]

-- The loop; each round takes a byte at least, which bounds the fuel.
unfoldable pub unescape_loop : ℕ → Bytes → Bytes
unescape_loop zero remaining = []
unescape_loop (suc f) [] = []
unescape_loop (suc f) (c ∷ []) = c ∷ []
unescape_loop (suc f) (c ∷ d ∷ s) = elim (c == b'$') [
  | false ↦ c ∷ unescape_loop f (d ∷ s)
  | true ↦ elim (d == b'c') [
    | true ↦ (colour ∷ (unescape_colour s).0) ++ unescape_loop f (unescape_colour s).1
    | false ↦ escape_to_val d ∷ unescape_loop f s
  ]
]

unfoldable pub unescape : Bytes → Bytes
unfolding unescape_loop
unescape in_text = unescape_loop (suc (length in_text)) in_text
