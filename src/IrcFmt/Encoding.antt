-- ===== src/IrcFmt/Encoding.antt =====
-- ircfmt/ircfmt.go: the runes that `Escape` writes to its builder become the bytes of a string.
use irc_go.Prelude.{ℕ, ◌+◌, ◌/◌, ◌%◌, ◌||◌, ltb, within, [], ◌∷◌, ◌++◌, Bytes, if◌then◌else◌}

-- The bytes of a code point in UTF-8.
unfoldable pub encode_valid : ℕ → Bytes
encode_valid c =
    if ltb c 128
    then c ∷ []
    else if ltb c 2048
    then (192 + c / 64) ∷ (128 + c % 64) ∷ []
    else if ltb c 65536
    then (224 + c / 4096) ∷ (128 + c / 64 % 64) ∷ (128 + c % 64) ∷ []
    else (240 + c / 262144) ∷ (128 + c / 4096 % 64) ∷ (128 + c / 64 % 64) ∷ (128 + c % 64) ∷ []

-- `WriteRune`: what is no code point is written as U+FFFD.
unfoldable pub encode_rune : ℕ → Bytes
unfolding encode_valid
encode_rune c = encode_valid (if within 55296 57343 c || ltb 1114111 c then 65533 else c)

-- A text of runes as a string.
unfoldable pub encode_all : Bytes → Bytes
unfolding encode_rune
encode_all [] = []
encode_all (c ∷ runes) = encode_rune c ++ encode_all runes
