-- ===== src/IrcMsg/Utf8.antt =====
-- What ircmsg uses of Go's `unicode/utf8`, and ircmsg/unicode.go with the same loop in
-- `(*Message).line` of ircmsg/message.go.
mod Runes
pub mod Truncate
use irc_go.Prelude.{
  ℕ, zero, suc, ◌-◌, Bool, true, false, not, ◌&&◌, List, [], ◌∷◌, Option, none, some, reverse,
  Bytes, length, take, ltb, leb, within, ◌==◌, if◌then◌else◌,
}

-- The range of a byte that may come next.
pub record Range : Type 0 where
  pub lo : ℕ
  pub hi : ℕ

abbrev pub cont : Range
cont = record { lo = 0x80; hi = 0xBF }

abbrev pub range : ℕ → ℕ → Range
range l h = record { lo = l; hi = h }

-- The bytes that must follow a first byte, from the table `first` and the accept ranges of
-- `unicode/utf8`; `none` for a byte that starts no code point.
unfoldable pub first : ℕ → Option (List Range)
first c =
    if ltb c 0x80
    then some []
    else if ltb c 0xC2
    then none
    else if ltb c 0xE0
    then some (cont ∷ [])
    else if c == 0xE0
    then some (range 0xA0 0xBF ∷ cont ∷ [])
    else if c == 0xED
    then some (range 0x80 0x9F ∷ cont ∷ [])
    else if ltb c 0xF0
    then some (cont ∷ cont ∷ [])
    else if c == 0xF0
    then some (range 0x90 0xBF ∷ cont ∷ cont ∷ [])
    else if ltb c 0xF4
    then some (cont ∷ cont ∷ cont ∷ [])
    else if c == 0xF4
    then some (range 0x80 0x8F ∷ cont ∷ cont ∷ [])
    else none

-- One byte of the decoder: what is still wanted before it and after it.
unfoldable pub feed : List Range → ℕ → Option (List Range)
unfolding first
feed [] c = first c
feed (r ∷ rs) c = if within r.lo r.hi c then some rs else none

unfoldable pub decode : List Range → Bytes → Option (List Range)
decode rs [] = some rs
decode rs (c ∷ s) = elim (feed rs c) [ none ↦ none | some rs' ↦ decode rs' s ]

abbrev pub is_done : Option (List Range) → Bool
is_done none = false
is_done (some []) = true
is_done (some (_ ∷ _)) = false

-- `utf8.ValidString`.
unfoldable pub valid_string : Bytes → Bool
unfolding decode feed
valid_string s = is_done (decode [] s)

-- `utf8.RuneStart`.
unfoldable pub rune_start : ℕ → Bool
rune_start c = not (within 0x80 0xBF c)

unfoldable pub matches : List Range → Bytes → Bool
matches [] [] = true
matches (r ∷ rs) (c ∷ s) = within r.lo r.hi c && matches rs s
matches _ _ = false

-- `utf8.DecodeRune` takes the whole text as one code point.
unfoldable pub one_rune : Bytes → Bool
one_rune [] = false
one_rune (d ∷ s) = elim (first d) [ none ↦ false | some rs ↦ matches rs s ]

-- The scan of `utf8.DecodeLastRune` for a first byte, backwards over at most `n` bytes: `tail` is
-- what it has passed and `before` what stands in front, last byte first.
unfoldable pub look_back : ℕ → Bytes → Bytes → Bool
look_back zero tail before = false
look_back (suc n) tail [] = false
look_back (suc n) tail (d ∷ before) =
    if rune_start d then one_rune (d ∷ tail) else look_back n (d ∷ tail) before

-- `utf8.DecodeLastRune` of a text given last byte first: false where it returns
-- `(RuneError, 0)` or `(RuneError, 1)`.
unfoldable pub last_rune : Bytes → Bool
last_rune [] = false
last_rune (c ∷ before) = if ltb c 0x80 then true else look_back 3 (c ∷ []) before

abbrev init : Bytes → Option Bytes
init [] = none
init (_ ∷ before) = some before

-- The loop that removes bytes from the end, at most `n` of them, last byte first. `none` is the
-- panic on `message[:-1]`, or on a negative `Truncate`.
unfoldable pub chop : ℕ → Bytes → Option Bytes
chop zero s = some s
chop (suc n) s = elim (last_rune s) [
  | true ↦ some s
  | false ↦ elim s [ [] ↦ none | c ∷ before ↦ chop n before ]
]

-- The text behind the loop, first byte first.
unfoldable pub chop_end : Bytes → Option Bytes
chop_end s = elim (chop 3 (reverse s)) [ none ↦ none | some t ↦ some (reverse t) ]

-- `TruncateUTF8Safe`; `none` is a panic.
unfoldable pub truncate_utf8_safe : Bytes → ℕ → Option Bytes
truncate_utf8_safe message byte_limit =
    if leb (length message) byte_limit then some message else chop_end (take byte_limit message)
