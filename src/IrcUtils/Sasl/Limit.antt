-- ===== src/IrcUtils/Sasl/Limit.antt =====
-- A buffer keeps to its limit.
use irc_go.Prelude.{
  ℕ, ◌*◌, ◌/◌, ◌≤◌, [], ◌∷◌, Option, none, some, ◌≡◌, ◌⊎◌, inl, inr, arith, Bytes, length,
  length-append, Option-cases,
}
use irc_go.IrcUtils.Sasl.{
  base64_value, drop_newlines, last_quantum, decode_quanta, decode, decoded_len, SaslBuffer, clear,
  add,
}

abbrev len_or_zero : Option Bytes → ℕ
len_or_zero none = 0
len_or_zero (some s) = length s

length-last_quantum : (a b c d : ℕ) → len_or_zero (last_quantum a b c d) ≤ 3
unfolding last_quantum
length-last_quantum a b c d = ground arith

length-decode_quanta : (s : Bytes) → len_or_zero (decode_quanta s) ≤ length s / 4 * 3
unfolding decode_quanta
length-decode_quanta [] = omega arith
length-decode_quanta (a ∷ []) = omega arith
length-decode_quanta (a ∷ b ∷ []) = omega arith
length-decode_quanta (a ∷ b ∷ c ∷ []) = omega arith
length-decode_quanta (c0 ∷ c1 ∷ c2 ∷ c3 ∷ s) = elim (Option-cases (base64_value c0)) [
  | inl e ↦ ground arith
  | inr (v0, e) ↦ elim (Option-cases (base64_value c1)) [
    | inl k ↦ ground arith
    | inr (v1, k) ↦ ground (arith, length-decode_quanta s, length-last_quantum v0 v1 c2 c3)
  ]
]

length-drop_newlines : (s : Bytes) → length (drop_newlines s) ≤ length s
unfolding drop_newlines
length-drop_newlines [] = omega arith
length-drop_newlines (c ∷ s) = ground (arith, length-drop_newlines s)

length-decode : (value : Bytes) → len_or_zero (decode value) ≤ decoded_len (length value)
unfolding decode decoded_len
length-decode value =
    let d = length-decode_quanta (drop_newlines value) in
    let n = length-drop_newlines value in omega arith

-- What a buffer holds is within its limit, if it has one.
unfoldable pub IsWithin : SaslBuffer → Type 0
IsWithin b = (b.max_length ≡ 0) ⊎ (length b.buf ≤ b.max_length)

-- Whatever text is added to a buffer within its limit, the buffer stays within its limit, and what
-- the call returns is within it too.
pub add-IsWithin :
    (b : SaslBuffer) (value : Bytes)
    → IsWithin b
    → let (added, b') = add b value in
      IsWithin b' × ((b.max_length ≡ 0) ⊎ (length added.output ≤ b.max_length))
unfolding add clear IsWithin
add-IsWithin b value (inl e) = elim (Option-cases (decode value)) [
  | inl k ↦ (inl (ground arith), inl e)
  | inr (out, k) ↦ (inl (ground arith), inl e)
]
add-IsWithin b value (inr l) = elim (Option-cases (decode value)) [
  | inl e ↦ ground arith
  | inr (out, e) ↦ ground (arith, length-decode value, length-append b.buf out)
]
