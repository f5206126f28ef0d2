-- ===== src/IrcFmt/Split/Stripped.antt =====
-- `Strip` keeps the characters that are not part of a code.
use irc_go.Prelude.{
  ℕ, zero, suc, Bool, true, false, List, [], ◌∷◌, ◌++◌, map, ◌≡◌, refl, sym, ap, ◌∙◌, inl, inr,
  arith, Bytes, if◌then◌else◌, Bool-cases,
}
use irc_go.IrcFmt.Split.{is_meta, FormattedSubstring, unformatted, split, contents, strip}
use irc_go.IrcFmt.Split.Codes.{is_code, restyled, code_length, is_meta-is_code}
use irc_go.IrcFmt.Split.Styled.{style_of, styled, expand, expand-split}

abbrev characters : List (ℕ × FormattedSubstring) → Bytes
characters l = map (λ p. p.0) l

characters-append :
    (p : Bytes) (style : FormattedSubstring) (l : List (ℕ × FormattedSubstring))
    → characters (map (λ c. (c, style)) p ++ l) ≡ p ++ characters l
characters-append [] style l = refl
characters-append (c ∷ p) style l = ap (λ t. c ∷ t) (characters-append p style l)

contents-expand : (chunks : List FormattedSubstring) → characters (expand chunks) ≡ contents chunks
unfolding expand contents
contents-expand [] = refl
contents-expand (chunk ∷ chunks) =
    characters-append chunk.content (style_of chunk) (expand chunks)
    ∙ ap (λ t. chunk.content ++ t) (contents-expand chunks)

strip-styled : (raw : Bytes) → strip raw ≡ characters (styled unformatted 0 raw)
unfolding strip
strip-styled raw = sym (contents-expand (split raw)) ∙ ap characters (expand-split raw)

-- No character of a text is a metacharacter.
unfoldable pub is_plain : Bytes → Bool
is_plain [] = true
is_plain (c ∷ s) = if is_meta c then false else is_plain s

is_plain-styled :
    (style : FormattedSubstring) (k : ℕ) (s : Bytes)
    → is_plain (characters (styled style k s)) ≡ true
unfolding is_plain styled
is_plain-styled style zero [] = refl
is_plain-styled style (suc k) [] = refl
is_plain-styled style (suc k) (c ∷ s) = is_plain-styled style k s
is_plain-styled style zero (c ∷ s) = elim (Bool-cases (is_meta c)) [
  | inl e ↦
      let code : is_code c ≡ true = sym (is_meta-is_code c) ∙ e in
      rw (code, styled) (is_plain-styled (restyled style c s) (code_length c s) s)
  | inr e ↦
      let code : is_code c ≡ false = sym (is_meta-is_code c) ∙ e in
      rw (code, styled) (rw e (is_plain-styled style zero s))
]

styled_plain :
    (style : FormattedSubstring) (s : Bytes) → is_plain s ≡ true → characters (styled style 0 s) ≡ s
unfolding is_plain styled
styled_plain style [] h = refl
styled_plain style (c ∷ s) h = elim (Bool-cases (is_meta c)) [
  | inl e ↦ absurd (ground arith)
  | inr e ↦
      let code : is_code c ≡ false = sym (is_meta-is_code c) ∙ e in
      rw (code, styled) (ap (λ t. c ∷ t) (styled_plain style s (rw e at h)))
]

-- A text with no metacharacter is its own stripped text.
pub strip_plain : (raw : Bytes) → is_plain raw ≡ true → strip raw ≡ raw
strip_plain raw h = strip-styled raw ∙ styled_plain unformatted raw h

-- Stripped text has no metacharacter, and nothing is left in it to strip.
pub strip-is_plain : (raw : Bytes) → (is_plain (strip raw) ≡ true) × (strip (strip raw) ≡ strip raw)
strip-is_plain raw =
    let plain : is_plain (strip raw) ≡ true =
      rw (strip-styled raw) (is_plain-styled unformatted 0 raw) in
    (plain, strip_plain (strip raw) plain)
