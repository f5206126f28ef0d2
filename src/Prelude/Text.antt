-- ===== src/Prelude/Text.antt =====
-- Byte strings, and what the packages use of Go's `strings`.
use Prim.Native.Nat.{ℕ, ◌-◌}
use Prim.Native.Char.{code}
use Prim.Native.String.{String}
use mathlib.Core.Path.{◌≡◌, refl}
use mathlib.Core.Logic.{◌↔◌, inl, inr}
use mathlib.Core.Bool.{Bool, true, false, ◌&&◌, ◌||◌}
use mathlib.Core.Option.{Option, none, some}
use mathlib.Core.List.{List, [], ◌∷◌, ◌++◌, map}
use native.Mathlib.Omega.{arith}
use irc_go.Prelude.Tests.{Option-cases, ◌==◌, within, if◌then◌else◌}

abbrev pub Bytes : Type 0
Bytes = List ℕ

-- The code points of a literal: its bytes, if it is ASCII.
abbrev pub codes : String → Bytes
codes String.[] = []
codes (String.◌∷◌ c s) = code c ∷ codes s

-- `a == b` on strings.
unfoldable pub bytes_eq : Bytes → Bytes → Bool
bytes_eq [] [] = true
bytes_eq (x ∷ a) (y ∷ b) = x == y && bytes_eq a b
bytes_eq _ _ = false

pub bytes_eq_iff : (a b : Bytes) → (bytes_eq a b ≡ true) ↔ (a ≡ b)
unfolding bytes_eq
bytes_eq_iff (x ∷ a) (y ∷ b) = ground (arith, bytes_eq_iff a b)
bytes_eq_iff _ _ = ground arith

-- `strings.IndexByte(s, b) != -1`.
unfoldable pub contains : ℕ → Bytes → Bool
contains b [] = false
contains b (c ∷ s) = c == b || contains b s

-- `strings.IndexByte(s, b)` with the two slices around it, `s[:i]` and `s[i+1:]`; `none` for -1.
unfoldable pub cut : ℕ → Bytes → Option (Bytes × Bytes)
cut b [] = none
cut b (c ∷ s) = elim (c == b) [
  | true ↦ some ([], s)
  | false ↦ elim (cut b s) [ none ↦ none | some (p, r) ↦ some (c ∷ p, r) ]
]

-- `strings.HasPrefix`.
unfoldable pub has_prefix : Bytes → Bytes → Bool
has_prefix s [] = true
has_prefix [] (y ∷ p) = false
has_prefix (x ∷ s) (y ∷ p) = x == y && has_prefix s p

-- `strings.TrimSuffix` with a suffix of one byte.
unfoldable pub trim_suffix : ℕ → Bytes → Bytes
trim_suffix b [] = []
trim_suffix b (c ∷ []) = if c == b then [] else c ∷ []
trim_suffix b (c ∷ d ∷ s) = c ∷ trim_suffix b (d ∷ s)

unfoldable pub upper_byte : ℕ → ℕ
upper_byte c = if within b'a' b'z' c then c - 32 else c

-- `strings.ToUpper` of ASCII text.
unfoldable pub to_upper : Bytes → Bytes
to_upper s = map upper_byte s

pub contains-append : (b : ℕ) (s t : Bytes) → contains b (s ++ t) ≡ (contains b s || contains b t)
unfolding contains
contains-append b [] t = refl
contains-append b (c ∷ s) t = ground (arith, contains-append b s t)

pub cut-append : (b : ℕ) (p r : Bytes) → contains b p ≡ false → cut b (p ++ b ∷ r) ≡ some (p, r)
unfolding contains cut
cut-append b [] r h = ground arith
cut-append b (c ∷ p) r h = ground (arith, cut-append b p r)

pub cut-eq-none : (b : ℕ) (s : Bytes) → contains b s ≡ false → cut b s ≡ none
unfolding contains cut
cut-eq-none b [] h = refl
cut-eq-none b (c ∷ s) h = ground (arith, cut-eq-none b s)

pub contains-of-cut : (b : ℕ) (s : Bytes) → cut b s ≡ none → contains b s ≡ false
unfolding contains cut
contains-of-cut b [] h = refl
contains-of-cut b (c ∷ s) h = ground (arith, contains-of-cut b s)

-- Both slices around the first `b` spell the text, and the first of them holds no `b`.
pub cut-eq-some :
    (b : ℕ) (s : Bytes) {p r : Bytes}
    → cut b s ≡ some (p, r)
    → (s ≡ p ++ b ∷ r) × (contains b p ≡ false)
unfolding contains cut
cut-eq-some b [] h = cc
cut-eq-some b (c ∷ s) h = elim (Option-cases (cut b s)) [
  | inl e ↦ ground arith
  | inr ((q, t), e) ↦ ground (arith, cut-eq-some b s {p = q} {r = t} e)
]
