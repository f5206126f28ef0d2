-- ===== src/IrcMsg/Tags/Unescape.antt =====
-- `UnescapeTagValue` against a reference definition, and the round trip of tag values.
use mathlib.Core.List.{concat-ne-nil}
use irc_go.Prelude.{
  ℕ, zero, suc, ◌-◌, ◌<◌, false, [], ◌∷◌, ◌++◌, append_assoc, append-nil, inl, inr, ◌≡◌, refl, sym,
  ap, ◌∙◌, arith, Bytes, length, take, cut, contains, cut-eq-some, contains-of-cut, ◌==◌,
  if◌then◌else◌, Option-cases, length-append, take-append,
}
use irc_go.IrcMsg.Tags.{
  escape_byte, escape_tag_value, escaped_char, is_empty, unescape_loop, unescape_tag_value,
}

-- Unescaping read off the specification of message tags: a backslash takes the next byte through
-- the table, and a lone backslash at the end is dropped.
unfoldable pub unescaped : Bytes → Bytes
unescaped [] = []
unescaped (c ∷ []) = if c == b'\\' then [] else c ∷ []
unescaped (c ∷ d ∷ s) = if c == b'\\' then escaped_char d ∷ unescaped s else c ∷ unescaped (d ∷ s)

unescaped-plain : (p r : Bytes) → contains b'\\' p ≡ false → unescaped (p ++ r) ≡ p ++ unescaped r
unfolding contains unescaped
unescaped-plain [] r h = refl
unescaped-plain (c ∷ []) [] h = ground arith
unescaped-plain (c ∷ []) (d ∷ r) h = ground arith
unescaped-plain (c ∷ d ∷ p) r h = ground (arith, unescaped-plain (d ∷ p) r)

unescaped-id : (s : Bytes) → contains b'\\' s ≡ false → unescaped s ≡ s
unescaped-id s h =
    ap unescaped (sym (append-nil s)) ∙ unescaped-plain s [] h ∙ unfold unescaped in append-nil s

unescaped-trailing : (p : Bytes) → contains b'\\' p ≡ false → unescaped (p ++ b'\\' ∷ []) ≡ p
unescaped-trailing p h = unescaped-plain p (b'\\' ∷ []) h ∙ unfold unescaped in append-nil p

unescaped-escape :
    (c d : ℕ) (s : Bytes) → (c ≡ b'\\') → unescaped (c ∷ d ∷ s) ≡ escaped_char d ∷ unescaped s
unfolding unescaped
unescaped-escape c d s h = ground arith

take-init : (p : Bytes) (c : ℕ) → take (length (p ++ c ∷ []) - 1) (p ++ c ∷ []) ≡ p
take-init p c =
    let e : length (p ++ c ∷ []) - 1 ≡ length p = omega (arith, length-append p (c ∷ [])) in
    rw e (take-append p (c ∷ []))

-- What the loop returns in its last round.
finish_plain :
    (input buf rem : Bytes)
    → (buf ≡ [] → rem ≡ input)
    → contains b'\\' rem ≡ false
    → (if is_empty buf then input else buf ++ rem) ≡ buf ++ unescaped rem
finish_plain input [] rem k h = rw (unescaped-id rem h) (sym (k refl))
finish_plain input (c ∷ buf) rem k h = rw (unescaped-id rem h)

finish_trailing :
    (input buf rem p : Bytes)
    → (buf ≡ [] → rem ≡ input)
    → (rem ≡ p ++ b'\\' ∷ []) × (contains b'\\' p ≡ false)
    → (if is_empty buf then take (length input - 1) input else buf ++ take (length rem - 1) rem)
      ≡ buf ++ unescaped rem
finish_trailing input [] rem p k (e, h) =
    rw (← k refl, e, take-init p b'\\', unescaped-trailing p h)
finish_trailing input (c ∷ buf) rem p k (e, h) = rw (e, take-init p b'\\', unescaped-trailing p h)

-- A round that resolves one escape.
unescape_round :
    {rem : Bytes} (f : ℕ) (input buf p : Bytes) (c : ℕ) (r : Bytes)
    → (rem ≡ p ++ b'\\' ∷ c ∷ r) × (contains b'\\' p ≡ false)
    → (length r < f
        → unescape_loop f input ((buf ++ p) ++ escaped_char c ∷ []) r
          ≡ ((buf ++ p) ++ escaped_char c ∷ []) ++ unescaped r)
    → length rem < suc f
    → unescape_loop f input ((buf ++ p) ++ escaped_char c ∷ []) r ≡ buf ++ unescaped rem
unescape_round f input buf p c r (e, h) ih l =
    rw (ih (omega (arith, ap length e, length-append p (b'\\' ∷ c ∷ r))), e)
      (simp (unescaped-plain p (b'\\' ∷ c ∷ r) h, unescaped-escape b'\\' c r refl, append_assoc))

-- The loop, from any state in which nothing is written before something is read.
unescape_loop-unescaped :
    (f : ℕ) (input buf rem : Bytes)
    → length rem < f
    → (buf ≡ [] → rem ≡ input)
    → unescape_loop f input buf rem ≡ buf ++ unescaped rem
unfolding unescape_loop
unescape_loop-unescaped zero input buf rem h k = elim h [ ]
unescape_loop-unescaped (suc f) input buf rem h k = elim (Option-cases (cut b'\\' rem)) [
  | inl e ↦ rw (e, unescape_loop) (finish_plain input buf rem k (contains-of-cut b'\\' rem e))
  | inr ((p, []), e) ↦
      rw (e, unescape_loop) (finish_trailing input buf rem p k (cut-eq-some b'\\' rem e))
  | inr ((p, c ∷ r), e) ↦
      rw (e, unescape_loop)
        (unescape_round f input buf p c r (cut-eq-some b'\\' rem e)
          (λ l. unescape_loop-unescaped f input _ r l (λ n. absurd (concat-ne-nil _ _ n))) h)
]

-- The loop with its fast path computes the reference definition on every text.
pub unescape_tag_value-unescaped : (s : Bytes) → unescape_tag_value s ≡ unescaped s
unfolding unescape_tag_value
unescape_tag_value-unescaped s =
    unescape_loop-unescaped (suc (length s)) s [] s (omega arith) (λ _. refl)

unescaped-escape_byte : (c : ℕ) (s : Bytes) → unescaped (escape_byte c ++ s) ≡ c ∷ unescaped s
unfolding unescaped escape_byte escaped_char
unescaped-escape_byte c [] = ground arith
unescaped-escape_byte c (d ∷ s) = ground arith

unescaped-escape_tag_value : (s : Bytes) → unescaped (escape_tag_value s) ≡ s
unfolding escape_tag_value
unescaped-escape_tag_value [] = unfold unescaped in refl
unescaped-escape_tag_value (c ∷ s) =
    unescaped-escape_byte c (escape_tag_value s) ∙ ap (◌∷◌ c) (unescaped-escape_tag_value s)

-- Unescaping an escaped tag value gives the value back, whatever bytes it holds.
pub unescape-escape : (s : Bytes) → unescape_tag_value (escape_tag_value s) ≡ s
unescape-escape s = unescape_tag_value-unescaped (escape_tag_value s) ∙ unescaped-escape_tag_value s
