-- ===== src/IrcFmt/Split/Styled.antt =====
-- `Split` refines a view of a text as characters that each have their own formatting.
use irc_go.Prelude.{
  ℕ, zero, suc, ◌<◌, true, false, List, [], ◌∷◌, ◌++◌, map, ◌≡◌, refl, sym, ap, ◌∙◌, inl, inr,
  arith, Bytes, length, drop, length-drop, Bool-cases,
}
use irc_go.IrcFmt.Split.Codes.{is_code, restyled, code_length, is_meta-is_code, apply_meta-restyled}
use irc_go.IrcFmt.Split.{
  is_meta, FormattedSubstring, unformatted, span_plain, append_chunk, at_meta, split_loop, split,
}

-- The formatting of a substring, without its content.
abbrev pub style_of : FormattedSubstring → FormattedSubstring
style_of chunk = record chunk { content = [] }

-- The abstract view: one pass over the characters with the formatting so far, which each code changes
-- as Codes says. `skip` counts the characters that belong to a colour code.
unfoldable pub styled : FormattedSubstring → ℕ → Bytes → List (ℕ × FormattedSubstring)
styled style skip [] = []
styled style (suc skip) (c ∷ s) = styled style skip s
styled style zero (c ∷ s) = elim (is_code c) [
  | true ↦ styled (restyled style c s) (code_length c s) s
  | false ↦ (c, style) ∷ styled style zero s
]

-- The characters of substrings, each with the formatting of its substring.
unfoldable pub expand : List FormattedSubstring → List (ℕ × FormattedSubstring)
expand [] = []
expand (chunk ∷ chunks) = map (λ c. (c, style_of chunk)) chunk.content ++ expand chunks

styled_skip :
    (style : FormattedSubstring) (k : ℕ) (s : Bytes) → styled style k s ≡ styled style 0 (drop k s)
unfolding styled
styled_skip style zero s = refl
styled_skip style (suc k) [] = refl
styled_skip style (suc k) (c ∷ s) = styled_skip style k s

-- The characters up to a metacharacter keep the formatting.
styled_span :
    (style : FormattedSubstring) (s : Bytes)
    → styled style 0 s ≡ map (λ c. (c, style)) (span_plain s).0 ++ styled style 0 (span_plain s).1
unfolding styled span_plain
styled_span style [] = refl
styled_span style (c ∷ s) = elim (Bool-cases (is_meta c)) [
  | inl e ↦ rw e
  | inr e ↦
      let code : is_code c ≡ false = sym (is_meta-is_code c) ∙ e in
      rw e (rw (code, styled) (ap (λ l. (c, style) ∷ l) (styled_span style s)))
]

pub span_rest :
    (s : Bytes) (c : ℕ) (t : Bytes)
    → (span_plain s).1 ≡ c ∷ t
    → (is_meta c ≡ true) × (length t < length s)
unfolding span_plain
span_rest [] c t e = cc
span_rest (d ∷ s) c t e = elim (Bool-cases (is_meta d)) [
  | inl k ↦ ground arith
  | inr k ↦ ground (arith, span_rest s c t)
]

expand-append_chunk :
    (chunk : FormattedSubstring) (p : Bytes) (result : List FormattedSubstring)
    → expand (append_chunk chunk p result) ≡ map (λ c. (c, style_of chunk)) p ++ expand result
unfolding expand
expand-append_chunk chunk [] result = refl
expand-append_chunk chunk (c ∷ p) result = refl

restyled_content :
    (style : FormattedSubstring) (c : ℕ) (s : Bytes) → (restyled style c s).content ≡ style.content
unfolding restyled
restyled_content style c s = refl

expand-at_meta :
    (loop : Bytes → FormattedSubstring → List FormattedSubstring) (raw : Bytes)
    (chunk : FormattedSubstring) (rest : Bytes)
    → ((t : Bytes) (next : FormattedSubstring)
        → length t < length raw
        → next.content ≡ []
        → expand (loop t next) ≡ styled next 0 t)
    → chunk.content ≡ []
    → (span_plain raw).1 ≡ rest
    → expand (at_meta loop chunk rest) ≡ styled chunk 0 rest
unfolding at_meta expand
expand-at_meta loop raw chunk [] ih e q = unfold styled in refl
expand-at_meta loop raw chunk (c ∷ s) ih e q =
    let (meta, shorter) = span_rest raw c s q in
    let (next, n) : FormattedSubstring × ℕ = (restyled chunk c s, code_length c s) in
    let code : is_code c ≡ true = sym (is_meta-is_code c) ∙ meta in
    ap (λ x. expand (loop (drop x.1 s) x.0)) (apply_meta-restyled chunk c s e meta)
    ∙ ih (drop n s) next (omega (arith, length-drop n s)) (restyled_content chunk c s ∙ e)
    ∙ sym (styled_skip next n s)
    ∙ unfold styled in rw (code, styled)

expand-split_loop :
    (f : ℕ) (raw : Bytes) (chunk : FormattedSubstring)
    → length raw < f
    → chunk.content ≡ []
    → expand (split_loop f raw chunk) ≡ styled chunk 0 raw
unfolding split_loop
expand-split_loop zero raw chunk h e = absurd (omega arith)
expand-split_loop (suc f) raw chunk h e =
    let part = span_plain raw in
    let bare : style_of chunk ≡ chunk = ap (λ t. record chunk { content = t }) (sym e) in
    expand-append_chunk chunk part.0 (at_meta (split_loop f) chunk part.1)
    ∙ ap (λ l. map (λ c. (c, style_of chunk)) part.0 ++ l)
        (expand-at_meta (split_loop f) raw chunk part.1
          (λ t next shorter k. expand-split_loop f t next (omega arith) k) e refl)
    ∙ ap (λ style. map (λ c. (c, style)) part.0 ++ styled chunk 0 part.1) bare
    ∙ sym (styled_span chunk raw)

-- Substrings of `Split`, read character by character, are the characters of the text that are not
-- part of a code, each with the formatting that the codes before it set up: a code flips its own
-- attribute, a reset clears every one, and a colour code reads one or two digits for the foreground
-- and, behind a comma, for the background.
pub expand-split : (raw : Bytes) → expand (split raw) ≡ styled unformatted 0 raw
unfolding split
expand-split raw = expand-split_loop (suc (length raw)) raw unformatted (omega arith) refl
