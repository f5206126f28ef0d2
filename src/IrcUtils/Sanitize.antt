-- ===== src/IrcUtils/Sanitize.antt =====
-- ircutils/unicode.go: SanitizeText.
use irc_go.Prelude.{
  ℕ, zero, suc, ◌+◌, ◌≤◌, ◌<◌, Bool, true, false, ◌&&◌, ◌||◌, ◌==◌, leb, within, List, [], ◌∷◌,
  ◌++◌, none, some, ◌≡◌, ◌⊎◌, refl, ap, ==_iff, inl, inr, arith, Bytes, length, take, drop,
  contains, bytes_eq, length-append, contains-append, if◌then◌else◌, Bool-cases, Option-cases,
}
use irc_go.IrcMsg.Utf8.{Range, first, matches}
use irc_go.IrcMsg.RoundTrip.Escaped.{IsHigh, first-Highs}

-- U+FFFD, for a byte that is not valid.
abbrev pub replacement : Bytes
replacement = 0xEF ∷ 0xBF ∷ 0xBD ∷ []

-- One round of `range message`: the rune, spelt as `WriteRune` does, and the text behind it.
unfoldable pub next_rune : ℕ → Bytes → Bytes × Bytes
next_rune c s = elim (first c) [
  | none ↦ (replacement, s)
  | some rs ↦
      if matches rs (take (length rs) s)
      then (c ∷ take (length rs) s, drop (length rs) s)
      else (replacement, s)
]

-- `unicode.IsSpace` of a rune in UTF-8.
unfoldable pub is_space : Bytes → Bool
is_space (a ∷ []) = within 9 13 a || a == b' '
is_space (a ∷ b ∷ []) = a == 0xC2 && (b == 0x85 || b == 0xA0)
is_space (a ∷ b ∷ c ∷ []) =
    a == 0xE1 && b == 0x9A && c == 0x80
    || a == 0xE2 && b == 0x80 && (within 0x80 0x8A c || c == 0xA8 || c == 0xA9 || c == 0xAF)
    || a == 0xE2 && b == 0x81 && c == 0x9F
    || a == 0xE3 && b == 0x80 && c == 0x80
is_space _ = false

-- What is written for a rune; nothing for NUL and CR.
unfoldable pub piece_of : Bytes → Bytes
piece_of r =
    if bytes_eq r (0 ∷ []) || bytes_eq r (b'\r' ∷ [])
    then []
    else if bytes_eq r (b'\n' ∷ [])
    then b' ' ∷ b' ' ∷ []
    else if is_space r
    then b' ' ∷ []
    else r

-- The loop; each round shortens the message, which bounds the fuel. What writes nothing always fits.
unfoldable pub sanitize_loop : ℕ → Bytes → Bytes → ℕ → Bytes
sanitize_loop zero message buf byte_limit = buf
sanitize_loop (suc f) [] buf byte_limit = buf
sanitize_loop (suc f) (c ∷ s) buf byte_limit =
    let piece = piece_of (next_rune c s).0 in
    let rest = sanitize_loop f (next_rune c s).1 (buf ++ piece) byte_limit in
    if leb (length buf + length piece) byte_limit then rest else buf

-- `SanitizeText`, for a limit that is not negative.
unfoldable pub sanitize_text : Bytes → ℕ → Bytes
unfolding sanitize_loop
sanitize_text message byte_limit = sanitize_loop (suc (length message)) message [] byte_limit

-- The bytes that end or break a line of IRC.
abbrev pub is_unsafe : ℕ → Bool
is_unsafe b = b == 0 || b == b'\r' || b == b'\n'

matches-lacks :
    (b : ℕ) (rs : List Range) (t : Bytes)
    → b < 0x80
    → IsHigh rs
    → matches rs t ≡ true
    → contains b t ≡ false
unfolding matches contains
matches-lacks b [] [] l h m = refl
matches-lacks b [] (c ∷ t) l h m = ground arith
matches-lacks b (r ∷ rs) [] l h m = refl
matches-lacks b (r ∷ rs) (c ∷ t) l (h, hs) m = ground (arith, matches-lacks b rs t l hs)

single :
    (b c : ℕ) (rs : List Range) (s : Bytes)
    → b < 0x80
    → c ≡ b
    → first c ≡ some rs
    → c ∷ take (length rs) s ≡ b ∷ []
unfolding first
single b c [] s l e h = ap (λ x. x ∷ []) e
single b c (r ∷ rs) s l e h = ground arith

-- A rune that is read is a single byte, or has no byte below 0x80.
rune-lacks :
    (b c : ℕ) (s : Bytes)
    → b < 0x80
    → (contains b (next_rune c s).0 ≡ false) ⊎ ((next_rune c s).0 ≡ b ∷ [])
unfolding next_rune contains
rune-lacks b c s l = elim (Option-cases (first c)) [
  | inl n ↦ inl (rw (n, next_rune) (unfold contains in ground arith))
  | inr (rs, e) ↦ elim (Bool-cases (matches rs (take (length rs) s))) [
    | inl m ↦
        let high : IsHigh rs = rw e at (first-Highs c) in
        let lacks = matches-lacks b rs (take (length rs) s) l high m in
        elim (Bool-cases (c == b)) [
          | inl k ↦ inr (rw (e, next_rune) (rw m (single b c rs s l ((==_iff c b).0 k) e)))
          | inr k ↦ inl (rw (e, next_rune) (rw m (unfold contains in rw k lacks)))
        ]
    | inr m ↦ inl (rw (e, next_rune) (rw m (unfold contains in ground arith)))
  ]
]

piece_of-lacks :
    (b : ℕ) (r : Bytes)
    → is_unsafe b ≡ true
    → (contains b r ≡ false) ⊎ (r ≡ b ∷ [])
    → contains b (piece_of r) ≡ false
unfolding piece_of contains bytes_eq is_space
piece_of-lacks b r u (inl h) = ground arith
piece_of-lacks b r u (inr h) = rw h (ground arith)

sanitize_loop-bounds :
    (b f : ℕ) (message buf : Bytes) (byte_limit : ℕ)
    → is_unsafe b ≡ true
    → length buf ≤ byte_limit
    → contains b buf ≡ false
    → (length (sanitize_loop f message buf byte_limit) ≤ byte_limit)
      × (contains b (sanitize_loop f message buf byte_limit) ≡ false)
unfolding sanitize_loop
sanitize_loop-bounds b zero message buf n u l k = (l, k)
sanitize_loop-bounds b (suc f) [] buf n u l k = (l, k)
sanitize_loop-bounds b (suc f) (c ∷ s) buf n u l k =
    let piece = piece_of (next_rune c s).0 in
    elim (Bool-cases (leb (length buf + length piece) n)) [
      | inl e ↦ rw e (
          sanitize_loop-bounds b f (next_rune c s).1 (buf ++ piece) n u
            (rw (length-append buf piece) (ground arith))
            (rw (contains-append b buf piece, k)
              (piece_of-lacks b (next_rune c s).0 u (rune-lacks b c s (ground arith)))))
      | inr e ↦ rw e (l, k)
    ]

-- Sanitised text has at most as many bytes as the limit, and no NUL, CR or LF.
pub sanitize_text-bounds :
    (message : Bytes) (byte_limit b : ℕ)
    → is_unsafe b ≡ true
    → (length (sanitize_text message byte_limit) ≤ byte_limit)
      × (contains b (sanitize_text message byte_limit) ≡ false)
sanitize_text-bounds message byte_limit b u =
    unfold sanitize_text in
    sanitize_loop-bounds b (suc (length message)) message [] byte_limit u (omega arith)
      (unfold contains in refl)
