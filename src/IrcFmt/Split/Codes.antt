-- ===== src/IrcFmt/Split/Codes.antt =====
-- What each formatting code means, one attribute at a time, apart from how `Split` reads it.
use irc_go.Prelude.{
  ℕ, zero, suc, ◌+◌, ◌-◌, ◌*◌, Bool, true, false, ◌||◌, not, ◌==◌, ltb, [], ◌∷◌, ◌≡◌, refl, ap, ◌∙◌,
  sym, arith, Bytes, length, drop, contains, if◌then◌else◌, ==_iff, Bool-cases, inl, inr,
}
use irc_go.IrcFmt.Split.{
  bold, colour, reset, monospace, reverse_colour, italic, strikethrough, underline, is_meta,
  is_digit, ColorCode, unset, uint8_digits, parse_uint8, parse_color, FormattedSubstring,
  unformatted, two_digits, back_digits, colour_matches, apply_matches, apply_meta,
}

unfoldable pub is_code : ℕ → Bool
is_code c =
    c == bold
    || c == colour
    || c == monospace
    || c == reverse_colour
    || c == italic
    || c == strikethrough
    || c == underline
    || c == reset

-- A code flips its own attribute, and a reset clears every one.
abbrev pub flipped : ℕ → ℕ → Bool → Bool
flipped code c on = if c == code then not on else if c == reset then false else on

-- The digits at the start, `n` at most.
unfoldable pub leading : ℕ → Bytes → Bytes
leading zero s = []
leading (suc n) [] = []
leading (suc n) (c ∷ s) = let rest = leading n s in if is_digit c then c ∷ rest else []

unfoldable pub number : ℕ → Bytes → ℕ
number n [] = n
number n (c ∷ s) = number (n * 10 + (c - b'0')) s

-- Colours are the numbers below 99.
abbrev pub colour_of : Bytes → ColorCode
colour_of s = if ltb (number 0 s) 99 then record { is_set = true; value = number 0 s } else unset

abbrev pub behind_comma : Bytes → Bytes
behind_comma [] = []
behind_comma (c ∷ s) = if c == b',' then s else []

abbrev pub fore_of : Bytes → Bytes
fore_of s = leading 2 s

abbrev pub back_of : Bytes → Bytes
back_of s = leading 2 (behind_comma (drop (length (leading 2 s)) s))

-- The colours behind a colour code: none of them set where there is no number, and the background
-- kept where there is one number only.
abbrev pub fore_colour : Bytes → ColorCode
fore_colour [] = unset
fore_colour (c ∷ s) = colour_of (c ∷ s)

abbrev pub back_colour : Bytes → Bytes → ColorCode → ColorCode
back_colour [] back old = unset
back_colour (_ ∷ _) [] old = old
back_colour (_ ∷ _) (c ∷ s) old = colour_of (c ∷ s)

abbrev pub taken : Bytes → Bytes → ℕ
taken [] back = 0
taken (c ∷ s) [] = length (c ∷ s)
taken (c ∷ s) (d ∷ t) = length (c ∷ s) + 1 + length (d ∷ t)

abbrev pub recoloured : ℕ → ColorCode → ColorCode → ColorCode
recoloured c new old = if c == colour then new else if c == reset then unset else old

-- The formatting behind the code `c` that is followed by `s`, where `style` stood before it.
unfoldable pub restyled : FormattedSubstring → ℕ → Bytes → FormattedSubstring
restyled style c s = record style {
  foreground_color = recoloured c (fore_colour (fore_of s)) style.foreground_color;
  background_color =
      recoloured c (back_colour (fore_of s) (back_of s) style.background_color)
        style.background_color;
  is_bold = flipped bold c style.is_bold;
  is_monospace = flipped monospace c style.is_monospace;
  is_strikethrough = flipped strikethrough c style.is_strikethrough;
  is_underline = flipped underline c style.is_underline;
  is_italic = flipped italic c style.is_italic;
  is_reverse_color = flipped reverse_colour c style.is_reverse_color;
}

-- The number of characters that belong to the code.
unfoldable pub code_length : ℕ → Bytes → ℕ
code_length c s = if c == colour then taken (fore_of s) (back_of s) else 0

pub is_meta-is_code : (c : ℕ) → is_meta c ≡ is_code c
unfolding is_meta is_code contains
is_meta-is_code c = ground arith

two_digits-leading : (s : Bytes) → two_digits s ≡ leading 2 s
unfolding two_digits leading
two_digits-leading [] = refl
two_digits-leading (c ∷ []) = ground arith
two_digits-leading (c ∷ d ∷ s) = ground arith

leading_nil : (n : ℕ) → leading n [] ≡ []
unfolding leading
leading_nil zero = refl
leading_nil (suc n) = refl

back_digits-leading : (s : Bytes) → back_digits s ≡ leading 2 (behind_comma s)
back_digits-leading [] = sym (leading_nil 2)
back_digits-leading (c ∷ s) = elim (Bool-cases (c == b',')) [
  | inl e ↦ rw e (two_digits-leading s)
  | inr e ↦ rw e (sym (leading_nil 2))
]

back_matches : (s : Bytes) → (colour_matches s).1 ≡ back_of s
back_matches s =
    back_digits-leading (drop (length (two_digits s)) s)
    ∙ ap (λ p. leading 2 (behind_comma (drop (length p) s))) (two_digits-leading s)

-- One or two digits are a number that fits.
parse_color-one : (c : ℕ) → is_digit c ≡ true → parse_color (c ∷ []) ≡ colour_of (c ∷ [])
unfolding parse_color parse_uint8 uint8_digits number
parse_color-one c h = ground arith

parse_color-two :
    (c d : ℕ)
    → is_digit c ≡ true
    → is_digit d ≡ true
    → parse_color (c ∷ d ∷ []) ≡ colour_of (c ∷ d ∷ [])
unfolding parse_color parse_uint8 uint8_digits number
parse_color-two c d h k = ground arith

parse_color-leading :
    (s : Bytes) (c : ℕ) (p : Bytes) → leading 2 s ≡ c ∷ p → parse_color (c ∷ p) ≡ colour_of (c ∷ p)
unfolding leading
parse_color-leading [] c p h = absurd (ground arith)
parse_color-leading (a ∷ []) c p h = elim (Bool-cases (is_digit a)) [
  | inl e ↦
      let q : a ∷ [] ≡ c ∷ p = rw e at h in
      ap parse_color (sym q) ∙ parse_color-one a e ∙ ap colour_of q
  | inr e ↦ absurd (ground arith)
]
parse_color-leading (a ∷ b ∷ s) c p h = elim (Bool-cases (is_digit a)) [
  | inr e ↦ absurd (ground arith)
  | inl e ↦ elim (Bool-cases (is_digit b)) [
    | inl k ↦
        let q : a ∷ b ∷ [] ≡ c ∷ p = rw (e, k) at h in
        ap parse_color (sym q) ∙ parse_color-two a b e k ∙ ap colour_of q
    | inr k ↦
        let q : a ∷ [] ≡ c ∷ p = rw (e, k) at h in
        ap parse_color (sym q) ∙ parse_color-one a e ∙ ap colour_of q
  ]
]

recoloured_style : FormattedSubstring → Bytes → Bytes → FormattedSubstring
recoloured_style style fore back = record style {
  foreground_color = fore_colour fore;
  background_color = back_colour fore back style.background_color;
}

apply_matches-taken :
    (style : FormattedSubstring) (s t fore back : Bytes)
    → leading 2 s ≡ fore
    → leading 2 t ≡ back
    → apply_matches style fore back ≡ (recoloured_style style fore back, taken fore back)
unfolding recoloured_style
apply_matches-taken style s t [] back h k = refl
apply_matches-taken style s t (c ∷ fore) [] h k =
    ap (λ x. (record style { foreground_color = x }, length (c ∷ fore)))
      (parse_color-leading s c fore h)
apply_matches-taken style s t (c ∷ fore) (d ∷ back) h k =
    ap
      (λ x. (
        record style { foreground_color = x; background_color = parse_color (d ∷ back) },
        length (c ∷ fore) + 1 + length (d ∷ back),
      ))
      (parse_color-leading s c fore h)
    ∙ ap
        (λ x. (
          record style { foreground_color = colour_of (c ∷ fore); background_color = x },
          length (c ∷ fore) + 1 + length (d ∷ back),
        ))
        (parse_color-leading t d back k)

apply_matches-colour :
    (style : FormattedSubstring) (s : Bytes)
    → apply_matches style (colour_matches s).0 (colour_matches s).1
      ≡ (recoloured_style style (fore_of s) (back_of s), taken (fore_of s) (back_of s))
apply_matches-colour style s =
    ap (λ p. apply_matches style p (colour_matches s).1) (two_digits-leading s)
    ∙ ap (apply_matches style (fore_of s)) (back_matches s)
    ∙ apply_matches-taken style s (behind_comma (drop (length (leading 2 s)) s)) (fore_of s)
        (back_of s) refl refl

-- The switch of `Split` gives each code its meaning.
pub apply_meta-restyled :
    (style : FormattedSubstring) (c : ℕ) (s : Bytes)
    → style.content ≡ []
    → is_meta c ≡ true
    → apply_meta style c s ≡ (restyled style c s, code_length c s)
unfolding apply_meta restyled code_length recoloured_style is_meta contains
apply_meta-restyled style c s e h = elim (Bool-cases (c == colour)) [
  | inl k ↦ let q = (==_iff c colour).0 k in rw q (apply_matches-colour style s)
  | inr k ↦ elim (Bool-cases (c == reset)) [
    | inl r ↦
        let q = (==_iff c reset).0 r in
        rw q (ap (λ x. (record unformatted { content = x }, 0)) (sym e))
    | inr r ↦ ground arith
  ]
]
