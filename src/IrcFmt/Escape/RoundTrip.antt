-- ===== src/IrcFmt/Escape/RoundTrip.antt =====
-- A text with no colour code is read back from its escaped form.
use irc_go.Prelude.{
  ℕ, zero, suc, ◌+◌, ◌-◌, ◌≤◌, ◌<◌, true, false, ◌==◌, [], ◌∷◌, ◌++◌, some, ◌≡◌, refl, sym, ap, ◌∙◌,
  inl, inr, arith, Bytes, length, length-append, contains, Bool-cases, ||-eq-false,
}
use irc_go.IrcFmt.Split.{colour}
use irc_go.IrcFmt.Encoding.{encode_valid, encode_rune, encode_all}
use irc_go.IrcFmt.Escape.{replace_all, escape, escape_to_val, unescape_loop, unescape}
use irc_go.IrcFmt.Escape.Copied.{
  mark_of, is_marked, val_to_escape-plain, val_to_escape-mark_of, Copied, Copied-replace_all,
}

unescape_loop_nil : (f : ℕ) → unescape_loop f [] ≡ []
unfolding unescape_loop
unescape_loop_nil zero = refl
unescape_loop_nil (suc f) = refl

unescape_plain :
    (f c : ℕ) (t : Bytes)
    → (c == b'$') ≡ false
    → unescape_loop (suc f) (c ∷ t) ≡ c ∷ unescape_loop f t
unfolding unescape_loop
unescape_plain f c [] k = ap (λ t. c ∷ t) (sym (unescape_loop_nil f))
unescape_plain f c (d ∷ t) k = rw (k, unescape_loop)

unescape_mark :
    (f x : ℕ) (t : Bytes)
    → (x == b'c') ≡ false
    → unescape_loop (suc f) (b'$' ∷ x ∷ t) ≡ escape_to_val x ∷ unescape_loop f t
unfolding unescape_loop
unescape_mark f x t k = rw (k, unescape_loop)

-- The byte at the start of every escape is not among these.
unescape_copied :
    (f : ℕ) (p t : Bytes)
    → length p ≤ f
    → contains b'$' p ≡ false
    → unescape_loop f (p ++ t) ≡ p ++ unescape_loop (f - length p) t
unfolding contains
unescape_copied f [] t h k = ap (λ n. unescape_loop n t) (omega arith)
unescape_copied zero (c ∷ p) t h k = absurd (omega arith)
unescape_copied (suc f) (c ∷ p) t h k =
    let (kc, kp) = ||-eq-false (c == b'$') (contains b'$' p) k in
    let same : f - length p ≡ suc f - suc (length p) = omega arith in
    unescape_plain f c (p ++ t) kc
    ∙ ap (λ x. c ∷ x) (unescape_copied f p t (omega arith) kp)
    ∙ ap (λ n. c ∷ (p ++ unescape_loop n t)) same

encode_rune-ascii : (c : ℕ) → c < 128 → encode_rune c ≡ c ∷ []
unfolding encode_rune encode_valid
encode_rune-ascii c h = ground arith

-- Behind ASCII, a code point is written with bytes above ASCII.
encode_rune-lacks : (c : ℕ) → (c == b'$') ≡ false → contains b'$' (encode_rune c) ≡ false
unfolding encode_rune encode_valid contains
encode_rune-lacks c h = ground arith

encode_rune-marked :
    (c : ℕ)
    → is_marked c ≡ true
    → (encode_rune c ≡ c ∷ []) × (encode_rune (mark_of c) ≡ mark_of c ∷ [])
unfolding is_marked mark_of
encode_rune-marked c h =
    (encode_rune-ascii c (ground arith), encode_rune-ascii (mark_of c) (ground arith))

encode_all-mark :
    (c : ℕ) (t : Bytes)
    → is_marked c ≡ true
    → encode_all (b'$' ∷ mark_of c ∷ t) ≡ b'$' ∷ mark_of c ∷ encode_all t
unfolding encode_all
encode_all-mark c t h =
    ap (λ x. encode_rune b'$' ++ (x ++ encode_all t)) (encode_rune-marked c h).1
    ∙ ap (λ x. x ++ mark_of c ∷ encode_all t) (encode_rune-ascii b'$' (omega arith))

unescape-encode_all :
    (f : ℕ) (s : Bytes)
    → length (encode_all (replace_all s)) < f
    → contains colour s ≡ false
    → unescape_loop f (encode_all (replace_all s)) ≡ encode_all s
unfolding replace_all contains encode_all
unescape-encode_all zero s len h = absurd (omega arith)
unescape-encode_all (suc f) [] len h = unfold unescape_loop in refl
unescape-encode_all (suc f) (c ∷ s) len h =
    let (hc, hs) = ||-eq-false (c == colour) (contains colour s) h in
    let rest = encode_all (replace_all s) in
    elim (Bool-cases (is_marked c)) [
      | inl m ↦
          let (e, l, back) = val_to_escape-mark_of c m in
          let written : encode_all (replace_all (c ∷ s)) ≡ b'$' ∷ mark_of c ∷ rest =
            ap (λ x. encode_all (x ++ replace_all s)) e ∙ encode_all-mark c (replace_all s) m in
          let n : length rest + 2 < suc f = omega (arith, rw written at len) in
          ap (unescape_loop (suc f)) written
          ∙ unescape_mark f (mark_of c) rest l
          ∙ ap (λ x. x ∷ unescape_loop f rest) back
          ∙ ap (λ t. c ∷ t) (unescape-encode_all f s (omega arith) hs)
          ∙ ap (λ x. x ++ encode_all s) (sym (encode_rune-marked c m).0)
      | inr m ↦
          let (e, l) = val_to_escape-plain c m hc in
          let written : encode_all (replace_all (c ∷ s)) ≡ encode_rune c ++ rest =
            ap (λ x. encode_all (x ++ replace_all s)) e in
          let n : length (encode_rune c) + length rest < suc f =
            omega (arith, rw (written, length-append (encode_rune c) rest) at len) in
          ap (unescape_loop (suc f)) written
          ∙ unescape_copied (suc f) (encode_rune c) rest (omega arith) (encode_rune-lacks c l)
          ∙ ap (λ t. encode_rune c ++ t)
              (unescape-encode_all (suc f - length (encode_rune c)) s (omega arith) hs)
    ]

-- A text of code points, none of them a colour code, is escaped without a panic, and `Unescape` gives
-- for the UTF-8 bytes of the result those of the text.
pub unescape-escape_text :
    (s : Bytes)
    → contains colour s ≡ false
    → (t : Bytes) × (escape s ≡ some t) × (unescape (encode_all t) ≡ encode_all s)
unfolding escape unescape Copied
unescape-escape_text s h = (
  replace_all s,
  Copied-replace_all (suc (length (replace_all s))) s (omega arith) h,
  unescape-encode_all (suc (length (encode_all (replace_all s)))) s (omega arith) h,
)
