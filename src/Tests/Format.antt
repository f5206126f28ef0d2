-- ===== src/Tests/Format.antt =====
-- Package ircfmt on small inputs.
use irc_go.Prelude.{false, [], ◌∷◌, ◌++◌, none, some, ◌≡◌, refl, codes, Bytes, contains}
use irc_go.IrcFmt.Split.{
  bold, colour, unformatted, is_meta, span_plain, two_digits, apply_meta, at_meta, split_loop,
  split, contents, strip,
}
use irc_go.IrcFmt.Split.Styled.{styled, expand, expand-split}
use irc_go.IrcFmt.Escape.{val_to_escape, escape, unescape}
use irc_go.IrcFmt.Encoding.{encode_all}
use irc_go.IrcFmt.Escape.RoundTrip.{unescape-escape_text}
use irc_go.IrcFmt.Escape.Panics.{escape_panics}

-- A bold word, and then a red one.
abbrev two_words : Bytes
two_words = bold ∷ (codes "bc" ++ bold ∷ colour ∷ codes "4red")

expand-split_example : expand (split two_words) ≡ styled unformatted 0 two_words
expand-split_example = expand-split two_words

strip_words : strip two_words ≡ codes "bcred"
unfolding strip contents split split_loop at_meta apply_meta span_plain is_meta two_digits contains
strip_words = refl

abbrev dollars : Bytes
dollars = codes "a$b" ++ bold ∷ codes "$c"

no_colour : contains colour dollars ≡ false
unfolding contains
no_colour = refl

unescape-escape_text_example :
    (t : Bytes) × (escape dollars ≡ some t) × (unescape (encode_all t) ≡ encode_all dollars)
unescape-escape_text_example = unescape-escape_text dollars no_colour

plain_x : val_to_escape b'x' ≡ b'x' ∷ []
unfolding val_to_escape
plain_x = refl

escape_panics_example : escape (colour ∷ b'4' ∷ b',' ∷ b'1' ∷ b'x' ∷ []) ≡ none
escape_panics_example = escape_panics b'4' b'1' b'x' refl refl plain_x
