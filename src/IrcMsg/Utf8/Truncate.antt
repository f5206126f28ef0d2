-- ===== src/IrcMsg/Utf8/Truncate.antt =====
-- `TruncateUTF8Safe`, and the loop that it shares with `(*Message).line`.
use mathlib.Core.List.{reverse-cons, reverse-append, reverse-reverse, reverse_aux}
use irc_go.Prelude.{
  ℕ, zero, suc, ◌+◌, ◌≤◌, ◌<◌, true, false, List, [], ◌∷◌, ◌++◌, append_assoc, append-nil, Option,
  none, some, reverse, inl, inr, ◌⊎◌, ◌≡◌, refl, subst, sym, ◌∙◌, ap, arith, Bytes, length,
  length-append, length-reverse, length-take, take, drop, take-append-drop, ltb, leb, leb→le,
  Option-cases, Bool-cases,
}
use irc_go.IrcMsg.Utf8.{
  Range, feed, decode, is_done, valid_string, look_back, last_rune, chop, chop_end,
  truncate_utf8_safe,
}
use irc_go.IrcMsg.Utf8.Runes.{Shape, whole, one, two, three, last_rune-Shape, Shape-feed}

-- Last byte first, a text that the decoder accepts and that is empty or ends in a whole code point.
abbrev IsWhole : Bytes → Type 0
IsWhole q = (decode [] (reverse q) ≡ some []) × ((q ≡ []) ⊎ (last_rune q ≡ true))

-- Last byte first, the text `s` is a whole one and the first bytes of a code point.
record IsCut (s : Bytes) : Type 0 where
  part : Bytes
  rest : Bytes
  wanted : List Range
  shape : Shape part wanted
  is_whole : IsWhole rest
  splits : s ≡ part ++ rest

some-eq : {A : Type 0} {a b : A} → some a ≡ some b → a ≡ b
some-eq e = cc

decode-concat :
    (rs rs' rs'' : List Range) (s : Bytes) (c : ℕ)
    → decode rs s ≡ some rs'
    → feed rs' c ≡ some rs''
    → decode rs (s ++ c ∷ []) ≡ some rs''
unfolding decode
decode-concat rs rs' rs'' [] c e k = rw (some-eq e, k, decode)
decode-concat rs rs' rs'' (b ∷ s) c e k = elim (Option-cases (feed rs b)) [
  | inl n ↦ ground arith
  | inr (mid, f) ↦ rw (f, decode) (decode-concat mid rs' rs'' s c (rw (f, decode) at e) k)
]

decode-step :
    (rs : List Range) (c : ℕ) (s : Bytes) {end : List Range}
    → decode rs (c ∷ s) ≡ some end
    → (next : List Range) × (feed rs c ≡ some next) × (decode next s ≡ some end)
unfolding decode
decode-step rs c s e = elim (Option-cases (feed rs c)) [
  | inl n ↦ cc (rw (n, decode) at e)
  | inr (next, f) ↦ (next, f, rw (f, decode) at e)
]

-- The decoder goes on over `s` from a cut text.
walk :
    (s part rest : Bytes) (rs : List Range) {end : List Range}
    → Shape part rs
    → IsWhole rest
    → decode [] (reverse (part ++ rest)) ≡ some rs
    → decode rs s ≡ some end
    → IsCut (reverse_aux s (part ++ rest))
walk [] part rest rs h w d e = record {
  part = part;
  rest = rest;
  wanted = rs;
  shape = h;
  is_whole = w;
  splits = refl;
}
walk (c ∷ s) part rest rs {end} h w d e =
    let (next, f, e') = decode-step rs c s e in
    let d' : decode [] (reverse (c ∷ (part ++ rest))) ≡ some next =
      rw reverse-cons (decode-concat [] rs next (reverse (part ++ rest)) c d f) in
    elim (Shape-feed c rest h f) [
      | inl on ↦ walk s (c ∷ part) rest next on w d' e'
      | inr (z, l) ↦
          let d'' : decode [] (reverse (c ∷ (part ++ rest))) ≡ some [] = d' ∙ ap some z in
          let e'' : decode [] s ≡ some end = subst (λ x. decode x s ≡ some end) z e' in
          walk s [] (c ∷ (part ++ rest)) [] whole (d'', inr l) d'' e''
    ]

chop-true : (n : ℕ) (s : Bytes) → last_rune s ≡ true → chop (suc n) s ≡ some s
unfolding chop
chop-true n s h = rw (h, chop)

chop-false : (n c : ℕ) (s : Bytes) → last_rune (c ∷ s) ≡ false → chop (suc n) (c ∷ s) ≡ chop n s
unfolding chop
chop-false n c s h = rw (h, chop)

chop-nil : (n : ℕ) → chop (suc n) [] ≡ none
unfolding chop last_rune
chop-nil n = refl

-- The loop takes `n` bytes at most from the end.
pub chop-suffix :
    (n : ℕ) (s : Bytes) {r : Bytes}
    → chop n s ≡ some r
    → (gone : Bytes) × (s ≡ gone ++ r) × (length gone ≤ n)
chop-suffix zero s e = ([], unfold chop in cc, omega arith)
chop-suffix (suc n) [] e = cc (chop-nil n)
chop-suffix (suc n) (c ∷ s) e = elim (Bool-cases (last_rune (c ∷ s))) [
  | inl h ↦ ([], cc (chop-true n (c ∷ s) h), omega arith)
  | inr h ↦
      let (gone, k, l) = chop-suffix n s (sym (chop-false n c s h) ∙ e) in
      (c ∷ gone, ap (◌∷◌ c) k, omega arith)
]

-- It does not panic where it cannot run out of bytes.
pub chop_total : (n : ℕ) (s : Bytes) → n ≤ length s → (r : Bytes) × (chop n s ≡ some r)
chop_total zero s h = (s, unfold chop in refl)
chop_total (suc n) [] h = elim h [ ]
chop_total (suc n) (c ∷ s) h = elim (Bool-cases (last_rune (c ∷ s))) [
  | inl e ↦ (c ∷ s, chop-true n (c ∷ s) e)
  | inr e ↦ rw (chop-false n c s e) (chop_total n s (omega arith))
]

chop-IsWhole : (n : ℕ) (q : Bytes) {r : Bytes} → IsWhole q → chop n q ≡ some r → r ≡ q
chop-IsWhole zero q w e = unfold chop in cc
chop-IsWhole (suc n) q (_, inl z) e = cc (chop-nil n, z)
chop-IsWhole (suc n) q (_, inr l) e = cc (chop-true n q l)

-- It takes away just the unfinished code point.
chop-Shape :
    {rs : List Range} (part rest : Bytes) {r : Bytes}
    → Shape part rs
    → IsWhole rest
    → chop 3 (part ++ rest) ≡ some r
    → r ≡ rest
chop-Shape part rest whole w e = chop-IsWhole 3 rest w e
chop-Shape part rest (one {d} l) w e =
    chop-IsWhole 2 rest w (sym (chop-false 2 d rest (last_rune-Shape d [] rest (one l))) ∙ e)
chop-Shape part rest (two {d} {c} l h) w e = chop-IsWhole 1 rest w (
    sym (
      chop-false 2 c (d ∷ rest) (last_rune-Shape c (d ∷ []) rest (two l h))
      ∙ chop-false 1 d rest (last_rune-Shape d [] rest (one l)))
    ∙ e)
chop-Shape part rest (three {d} {c} {b} l h k) w e = chop-IsWhole 0 rest w (
    sym (
      chop-false 2 b (c ∷ d ∷ rest) (last_rune-Shape b (c ∷ d ∷ []) rest (three l h k))
      ∙ chop-false 1 c (d ∷ rest) (last_rune-Shape c (d ∷ []) rest (two l h))
      ∙ chop-false 0 d rest (last_rune-Shape d [] rest (one l)))
    ∙ e)

decode-prefix :
    (rs : List Range) (s t : Bytes) {end : List Range}
    → decode rs (s ++ t) ≡ some end
    → (mid : List Range) × (decode rs s ≡ some mid)
unfolding decode
decode-prefix rs [] t e = (rs, refl)
decode-prefix rs (c ∷ s) t e =
    let (next, f, e') = decode-step rs c (s ++ t) e in rw (f, decode) (decode-prefix next s t e')

is_done-some : (o : Option (List Range)) → is_done o ≡ true → o ≡ some []
is_done-some none h = cc
is_done-some (some []) h = refl
is_done-some (some (_ ∷ _)) h = cc

-- Any first bytes of a valid text, last byte first, are cut from a whole one.
prefix-IsCut : (s t : Bytes) → valid_string (s ++ t) ≡ true → IsCut (reverse s)
unfolding valid_string
prefix-IsCut s t v =
    let (mid, e) = decode-prefix [] s t (is_done-some (decode [] (s ++ t)) v) in
    walk s [] [] [] whole (unfold decode in refl, inl refl) (unfold decode in refl) e

pub chop_end-some :
    (s : Bytes) {r : Bytes}
    → chop_end s ≡ some r
    → (t : Bytes) × (chop 3 (reverse s) ≡ some t) × (r ≡ reverse t)
unfolding chop_end
chop_end-some s e = elim (Option-cases (chop 3 (reverse s))) [
  | inl n ↦ ground arith
  | inr (t, f) ↦ (t, f, ground arith)
]

-- The loop leaves valid text if it starts from the first bytes of valid text.
pub chop_end-valid_string :
    (s t : Bytes) {r : Bytes}
    → valid_string (s ++ t) ≡ true
    → chop_end s ≡ some r
    → valid_string r ≡ true
chop_end-valid_string s t v e =
    let k = prefix-IsCut s t v in
    let (u, f, z) = chop_end-some s e in
    let same : u ≡ k.rest =
      chop-Shape k.part k.rest k.shape k.is_whole (sym (ap (chop 3) k.splits) ∙ f) in
    rw (z, same) (unfold valid_string in rw k.is_whole.0)

-- Truncation keeps valid UTF-8 valid, at every limit at which it returns.
pub truncate-valid_string :
    (message : Bytes) (byte_limit : ℕ) {r : Bytes}
    → valid_string message ≡ true
    → truncate_utf8_safe message byte_limit ≡ some r
    → valid_string r ≡ true
unfolding truncate_utf8_safe
truncate-valid_string message byte_limit v e = elim (Bool-cases (leb (length message) byte_limit)) [
  | inl h ↦ subst (λ x. valid_string x ≡ true) (some-eq (rw h at e)) v
  | inr h ↦
      chop_end-valid_string (take byte_limit message) (drop byte_limit message)
        (rw take-append-drop v) (rw h at e)
]

-- What the loop returns is the text without three bytes at most at its end.
pub chop_end-prefix :
    (s : Bytes) {r : Bytes}
    → chop_end s ≡ some r
    → (gone : Bytes) × (s ≡ r ++ gone) × (length gone ≤ 3)
chop_end-prefix s e =
    let (t, f, z) = chop_end-some s e in
    let (gone, k, l) = chop-suffix 3 (reverse s) f in
    (
      reverse gone,
      sym (reverse-reverse s)
          ∙ ap reverse k
          ∙ reverse-append gone t
          ∙ ap (λ x. x ++ reverse gone) (sym z),
      omega (arith, length-reverse gone),
    )

pub chop_end_total : (s : Bytes) → 3 ≤ length s → (r : Bytes) × (chop_end s ≡ some r)
unfolding chop_end
chop_end_total s h =
    let (t, e) = chop_total 3 (reverse s) (omega (arith, length-reverse s)) in
    (reverse t, rw (e, chop_end))

-- At a limit of three bytes or more, truncation of any message returns its first bytes: all of
-- them if they fit, otherwise between `byte_limit - 3` and `byte_limit` of them.
pub truncate_total :
    (message : Bytes) (byte_limit : ℕ)
    → 3 ≤ byte_limit
    → (r : Bytes) × (rest : Bytes) × (truncate_utf8_safe message byte_limit ≡ some r)
      × (message ≡ r ++ rest)
      × (length r ≤ byte_limit)
      × (length message ≤ byte_limit → r ≡ message)
      × (byte_limit < length message → byte_limit ≤ length r + 3)
unfolding truncate_utf8_safe
truncate_total message byte_limit h = elim (Bool-cases (leb (length message) byte_limit)) [
  | inl fits ↦ (
    message,
    [],
    rw fits,
    sym (append-nil message),
    leb→le (length message) byte_limit fits,
    λ _. refl,
    λ over. omega (arith, leb→le (length message) byte_limit fits),
  )
  | inr long ↦
      let s = take byte_limit message in
      let fits : byte_limit < length message = ground arith in
      let n : length s ≡ byte_limit = omega (arith, length-take byte_limit message) in
      let (r, e) = chop_end_total s (omega arith) in
      let (gone, k, l) = chop_end-prefix s e in
      let m : length s ≡ length r + length gone = ap length k ∙ length-append r gone in
      (
        r,
        gone ++ drop byte_limit message,
        rw long e,
        sym (take-append-drop byte_limit message)
            ∙ ap (λ x. x ++ drop byte_limit message) k
            ∙ append_assoc r gone (drop byte_limit message),
        omega arith,
        λ short. absurd (omega arith),
        λ _. omega arith,
      )
]

high_byte : (c : ℕ) → 0x80 ≤ c → ltb c 0x80 ≡ false
high_byte c h = ground arith

-- A message of two bytes or more that begins with a byte above ASCII panics at the limits 0 and 1:
-- the loop empties the message and then cuts it at a negative index.
pub truncate_panics :
    (c d : ℕ) (message : Bytes) (byte_limit : ℕ)
    → 0x80 ≤ c
    → byte_limit ≤ 1
    → truncate_utf8_safe (c ∷ d ∷ message) byte_limit ≡ none
unfolding truncate_utf8_safe chop_end chop last_rune look_back
truncate_panics c d message zero h l = ground arith
truncate_panics c d message (suc zero) h l = ground (arith, high_byte c h)
truncate_panics c d message (suc (suc n)) h l = absurd (omega arith)
