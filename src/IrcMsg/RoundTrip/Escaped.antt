-- ===== src/IrcMsg/RoundTrip/Escaped.antt =====
-- Escaped tag values: the bytes that they lack, and their UTF-8 validity.
use irc_go.Prelude.{
  ℕ, ◌≤◌, true, false, List, [], ◌∷◌, ◌++◌, Option, none, some, inl, inr, ◌⊎◌, ◌≡◌, refl, subst,
  sym, ltb, ==_iff, ◌∙◌, arith, Bytes, contains, contains-append, within, ◌==◌, Bool-cases,
  Option-cases,
}
use irc_go.IrcMsg.Tags.{escape_byte, escape_tag_value, validate_tag_name, is_name_char, name_chars}
use irc_go.IrcMsg.Utf8.{Range, first, feed, decode, is_done, valid_string}

-- `;`, the space, CR and LF are the bytes that the replacer takes away.
abbrev pub IsSeparator : ℕ → Type 0
IsSeparator b = (b ≡ b';') ⊎ (b ≡ b' ') ⊎ (b ≡ b'\r') ⊎ (b ≡ b'\n')

escape_byte-lacks : (b c : ℕ) → IsSeparator b → contains b (escape_byte c) ≡ false
unfolding escape_byte contains
escape_byte-lacks b c h = ground arith

pub escape-lacks : (b : ℕ) (s : Bytes) → IsSeparator b → contains b (escape_tag_value s) ≡ false
unfolding escape_tag_value
escape-lacks b [] h = unfold contains in refl
escape-lacks b (c ∷ s) h =
    rw (contains-append b (escape_byte c) (escape_tag_value s), escape_byte-lacks b c h)
      (escape-lacks b s h)

name_chars-lacks :
    (b : ℕ) (s : Bytes) → is_name_char b ≡ false → name_chars s ≡ true → contains b s ≡ false
unfolding name_chars contains
name_chars-lacks b [] h k = refl
name_chars-lacks b (c ∷ s) h k = elim (Bool-cases (c == b)) [
  | inl e ↦ ground (arith, (==_iff c b).0 e)
  | inr e ↦ ground (arith, name_chars-lacks b s)
]

-- A valid tag name holds no byte but a name character and the initial `+`.
pub validate_tag_name-lacks :
    (b : ℕ) (s : Bytes)
    → is_name_char b ≡ false
    → (b == b'+') ≡ false
    → validate_tag_name s ≡ true
    → contains b s ≡ false
unfolding validate_tag_name contains
validate_tag_name-lacks b [] h k v = refl
validate_tag_name-lacks b (c ∷ s) h k v =
    ground (arith, name_chars-lacks b s, name_chars-lacks b (c ∷ s))

-- Every range of continuation bytes lies above ASCII.
abbrev pub IsHigh : List Range → Type 0
IsHigh [] = Unit {0}
IsHigh (r ∷ rs) = (0x80 ≤ r.lo) × IsHigh rs

abbrev pub Highs : Option (List Range) → Type 0
Highs none = Unit {0}
Highs (some rs) = IsHigh rs

pub first-Highs : (c : ℕ) → Highs (first c)
unfolding first
first-Highs c = ground arith

feed-IsHigh : (rs rs' : List Range) (c : ℕ) → IsHigh rs → feed rs c ≡ some rs' → IsHigh rs'
unfolding feed
feed-IsHigh [] rs' c h e = rw e at (first-Highs c)
feed-IsHigh (r ∷ rs) rs' c h e =
    subst Highs e (elim (Bool-cases (within r.lo r.hi c)) [ inl t ↦ rw t h.1 | inr t ↦ rw t tt ])

escape_byte_high : (c : ℕ) → 0x80 ≤ c → escape_byte c ≡ c ∷ []
unfolding escape_byte
escape_byte_high c h = ground arith

decode-cons :
    (rs rs' : List Range) (c : ℕ) (s : Bytes)
    → feed rs c ≡ some rs'
    → decode rs (c ∷ s) ≡ decode rs' s
unfolding decode
decode-cons rs rs' c s e = rw (e, decode)

-- An escaped byte leaves the decoder where the byte itself does.
feed-escape_byte :
    (rs rs' : List Range) (c : ℕ) (s : Bytes)
    → IsHigh rs
    → feed rs c ≡ some rs'
    → decode rs (escape_byte c ++ s) ≡ decode rs' s
unfolding decode
feed-escape_byte [] rs' c s h e = elim (Bool-cases (ltb c 0x80)) [
  | inl low ↦
      let done : [] ≡ rs' = unfold feed in ground arith in
      rw (← done) (unfold feed escape_byte in ground arith)
  | inr high ↦ rw (escape_byte_high c (ground arith)) (decode-cons [] rs' c s e)
]
feed-escape_byte (r ∷ rs) rs' c s h e =
    rw (escape_byte_high c (unfold feed in ground arith)) (decode-cons (r ∷ rs) rs' c s e)

decode-escape_tag_value :
    (rs rs' : List Range) (s : Bytes)
    → IsHigh rs
    → decode rs s ≡ some rs'
    → decode rs (escape_tag_value s) ≡ some rs'
unfolding decode escape_tag_value
decode-escape_tag_value rs rs' [] h e = e
decode-escape_tag_value rs rs' (c ∷ s) h e = elim (Option-cases (feed rs c)) [
  | inl n ↦ ground arith
  | inr (rs1, k) ↦
      feed-escape_byte rs rs1 c (escape_tag_value s) h k
      ∙ decode-escape_tag_value rs1 rs' s (feed-IsHigh rs rs1 c h k)
          (sym (decode-cons rs rs1 c s k) ∙ e)
]

is_done-some : (o : Option (List Range)) → is_done o ≡ true → o ≡ some []
is_done-some none h = cc
is_done-some (some []) h = refl
is_done-some (some (_ ∷ _)) h = cc

valid_string-decode : (s : Bytes) → valid_string s ≡ true → decode [] s ≡ some []
unfolding valid_string
valid_string-decode s h = is_done-some (decode [] s) h

-- Escaping keeps a value valid UTF-8.
pub valid_string-escape :
    (s : Bytes) → valid_string s ≡ true → valid_string (escape_tag_value s) ≡ true
unfolding valid_string
valid_string-escape s h = rw (decode-escape_tag_value [] [] s tt (valid_string-decode s h))
