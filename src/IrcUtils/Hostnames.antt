-- ===== src/IrcUtils/Hostnames.antt =====
-- ircutils/hostnames.go: HostnameIsValid.
use irc_go.Prelude.{
  ℕ, ◌+◌, Bool, true, false, ◌&&◌, ◌||◌, not, ◌==◌, ltb, within, List, [], ◌∷◌, ◌++◌, ◌≡◌, refl, ap,
  ◌≤◌, ◌<◌, ==_iff, inl, inr, arith, codes, Bytes, length, contains, if◌then◌else◌, Bool-cases,
  &&-eq-true,
}

-- `strings.Split(s, sep)` for a separator of one byte: the first part, and the others.
unfoldable pub split : ℕ → Bytes → Bytes × List Bytes
split sep [] = ([], [])
split sep (c ∷ s) =
    let rest = split sep s in if c == sep then ([], rest.0 ∷ rest.1) else (c ∷ rest.0, rest.1)

unfoldable pub last_is : ℕ → Bytes → Bool
last_is b [] = false
last_is b (c ∷ []) = c == b
last_is b (_ ∷ d ∷ s) = last_is b (d ∷ s)

unfoldable pub first_is : ℕ → Bytes → Bool
first_is b [] = false
first_is b (c ∷ _) = c == b

-- The test of one part.
unfoldable pub part_is_valid : Bytes → Bool
part_is_valid part =
    not (ltb (length part) 1 || ltb 63 (length part) || first_is b'-' part || last_is b'-' part)

unfoldable pub parts_are_valid : List Bytes → Bool
parts_are_valid [] = true
parts_are_valid (part ∷ parts) = part_is_valid part && parts_are_valid parts

abbrev allowed_hostname_chars : Bytes
allowed_hostname_chars = codes "abcdefghijklmnopqrstuvwxyz1234567890-."

-- `strings.ToLower` at a byte of an ASCII text.
unfoldable pub lower_byte : ℕ → ℕ
lower_byte c = if within b'A' b'Z' c then c + 32 else c

unfoldable pub is_allowed : ℕ → Bool
is_allowed c = contains (lower_byte c) allowed_hostname_chars

-- The test of each character of the name in lower case. Of the characters above ASCII, U+0130 and
-- U+212A have an ASCII lower case, `i` and `k`; the others are not allowed.
unfoldable pub chars_are_valid : Bytes → Bool
chars_are_valid [] = true
chars_are_valid (a ∷ []) = is_allowed a
chars_are_valid (a ∷ b ∷ []) = is_allowed a && is_allowed b || a == 196 && b == 176
chars_are_valid (a ∷ b ∷ c ∷ s) =
    let behind_a = chars_are_valid (b ∷ c ∷ s) in
    let behind_b = chars_are_valid (c ∷ s) in
    let behind_c = chars_are_valid s in
    if is_allowed a
    then behind_a
    else if a == 196 && b == 176
    then behind_b
    else a == 226 && b == 132 && c == 170 && behind_c

unfoldable pub hostname_is_valid : Bytes → Bool
hostname_is_valid hostname =
    if not (contains b'.' hostname) || ltb (length hostname) 1 || ltb 200 (length hostname)
    then false
    else if not (parts_are_valid ((split b'.' hostname).0 ∷ (split b'.' hostname).1))
    then false
    else chars_are_valid hostname

-- Parts, each with the separator before it.
unfoldable pub join : ℕ → List Bytes → Bytes
join sep [] = []
join sep (part ∷ parts) = sep ∷ (part ++ join sep parts)

-- What the comments ask of a name: parts of 1 to 63 bytes that neither begin nor end with a dash.
pub data IsPart (part : Bytes) : Type 0 where
  is_part :
      0 < length part
      → length part ≤ 63
      → first_is b'-' part ≡ false
      → last_is b'-' part ≡ false
      → IsPart part

pub AllParts : List Bytes → Type 0
AllParts [] = Unit {0}
AllParts (part ∷ parts) = IsPart part × AllParts parts

part_is_valid-IsPart : (part : Bytes) → part_is_valid part ≡ true → IsPart part
unfolding part_is_valid
part_is_valid-IsPart part h = is_part (ground arith) (ground arith) (ground arith) (ground arith)

parts_are_valid-AllParts : (parts : List Bytes) → parts_are_valid parts ≡ true → AllParts parts
unfolding parts_are_valid AllParts
parts_are_valid-AllParts [] h = tt
parts_are_valid-AllParts (part ∷ parts) h =
    let (p, q) = &&-eq-true (part_is_valid part) (parts_are_valid parts) h in
    (part_is_valid-IsPart part p, parts_are_valid-AllParts parts q)

-- A text is its parts with the separator between them; they are two or more if it is there.
join-split :
    (sep : ℕ) (s : Bytes)
    → ((split sep s).0 ++ join sep (split sep s).1 ≡ s)
      × (contains sep s ≡ true → 0 < length (split sep s).1)
unfolding split join contains
join-split sep [] = (refl, λ h. ground arith)
join-split sep (c ∷ s) =
    let (p, q) = join-split sep s in
    elim (Bool-cases (c == sep)) [
      | inl e ↦ (rw e (cc ((==_iff c sep).0 e)), λ h. rw e (omega arith))
      | inr e ↦ (rw e (ap (λ t. c ∷ t) p), λ h. rw e (q (ground arith)))
    ]

-- A name that is accepted has at most 200 bytes and consists of two or more parts with a period
-- between them, each of which has 1 to 63 bytes and neither begins nor ends with a dash.
pub hostname_is_valid-AllParts :
    (hostname : Bytes)
    → hostname_is_valid hostname ≡ true
    → let (part, parts) = split b'.' hostname in
      (length hostname ≤ 200)
      × (part ++ join b'.' parts ≡ hostname)
      × (0 < length parts)
      × AllParts (part ∷ parts)
unfolding hostname_is_valid
hostname_is_valid-AllParts hostname h =
    let (p, q) = join-split b'.' hostname in
    let dot : contains b'.' hostname ≡ true = ground arith in
    let parts : parts_are_valid ((split b'.' hostname).0 ∷ (split b'.' hostname).1) ≡ true =
      ground arith in
    let short : length hostname ≤ 200 = ground arith in
    (short, p, q dot, parts_are_valid-AllParts _ parts)
