-- ===== src/IrcUtils/Sasl/Base64.antt =====
-- What the base64 functions compute: lengths, prefixes and the round trip.
use irc_go.Prelude.{
  ℕ, zero, suc, ◌+◌, ◌*◌, ◌/◌, ◌%◌, ◌<◌, ◌≤◌, false, [], ◌∷◌, none, some, ◌≡◌, refl, ap, ◌∙◌, arith,
  Bytes, length, take, drop, bytes_eq,
}
use irc_go.IrcUtils.Sasl.{
  base64_char, base64_value, encode_to_string, drop_newlines, last_quantum, decode_quanta, decode,
  plus,
}

base64_value-base64_char : (n : ℕ) → n < 64 → base64_value (base64_char n) ≡ some n
unfolding base64_value base64_char
base64_value-base64_char n h = ground arith

-- A text of bytes.
unfoldable pub AllBytes : Bytes → Type 0
AllBytes [] = Unit {0}
AllBytes (c ∷ s) = (c < 256) × AllBytes s

keep_char :
    (n : ℕ) (s : Bytes)
    → n < 64
    → drop_newlines (base64_char n ∷ s) ≡ base64_char n ∷ drop_newlines s
unfolding drop_newlines base64_char
keep_char n s h = ground arith

decode_four :
    (a b c d : ℕ) (s : Bytes)
    → a < 64
    → b < 64
    → c < 64
    → d < 64
    → decode_quanta (base64_char a ∷ base64_char b ∷ base64_char c ∷ base64_char d ∷ s)
      ≡ elim (decode_quanta s) [
        | none ↦ none
        | some out ↦ some ((a * 4 + b / 16) ∷ (b % 16 * 16 + c / 4) ∷ (c % 4 * 64 + d) ∷ out)
      ]
unfolding decode_quanta
decode_four a b c d s ha hb hc hd =
    rw (base64_value-base64_char a ha, decode_quanta)
      (rw (base64_value-base64_char b hb, decode_quanta)
        (rw (base64_value-base64_char d hd, decode_quanta)
          (rw (base64_value-base64_char c hc, decode_quanta))))

no_value : base64_value b'=' ≡ none
unfolding base64_value
no_value = refl

decode_three :
    (a b c : ℕ)
    → a < 64
    → b < 64
    → c < 64
    → decode_quanta (base64_char a ∷ base64_char b ∷ base64_char c ∷ b'=' ∷ [])
      ≡ some ((a * 4 + b / 16) ∷ (b % 16 * 16 + c / 4) ∷ [])
unfolding decode_quanta last_quantum base64_char
decode_three a b c ha hb hc =
    rw (base64_value-base64_char a ha, decode_quanta)
      (rw (base64_value-base64_char b hb, decode_quanta)
        (rw (no_value, decode_quanta) (ground (arith, base64_value-base64_char c hc))))

decode_two :
    (a b : ℕ)
    → a < 64
    → b < 64
    → decode_quanta (base64_char a ∷ base64_char b ∷ b'=' ∷ b'=' ∷ [])
      ≡ some ((a * 4 + b / 16) ∷ [])
unfolding decode_quanta last_quantum
decode_two a b ha hb =
    rw (base64_value-base64_char a ha, decode_quanta)
      (rw (base64_value-base64_char b hb, decode_quanta) (rw (no_value, decode_quanta)))

-- The decoder passes over nothing in an encoded text.
drop_newlines-encode_to_string :
    (s : Bytes) → AllBytes s → drop_newlines (encode_to_string s) ≡ encode_to_string s
unfolding encode_to_string AllBytes
drop_newlines-encode_to_string [] h = unfold drop_newlines in refl
drop_newlines-encode_to_string (a ∷ []) (h, _) =
    keep_char (a / 4) _ (omega arith)
    ∙ ap (λ t. base64_char (a / 4) ∷ t)
        (keep_char (a % 4 * 16) (b'=' ∷ b'=' ∷ []) (omega arith) ∙ unfold drop_newlines in refl)
drop_newlines-encode_to_string (a ∷ b ∷ []) (h, (k, _)) =
    keep_char (a / 4) _ (omega arith)
    ∙ ap (λ t. base64_char (a / 4) ∷ t)
        (keep_char (a % 4 * 16 + b / 16) _ (omega arith)
          ∙ ap (λ t. base64_char (a % 4 * 16 + b / 16) ∷ t)
              (keep_char (b % 16 * 4) (b'=' ∷ []) (omega arith) ∙ unfold drop_newlines in refl))
drop_newlines-encode_to_string (a ∷ b ∷ c ∷ s) (h, (k, (l, hs))) =
    keep_char (a / 4) _ (omega arith)
    ∙ ap (λ t. base64_char (a / 4) ∷ t)
        (keep_char (a % 4 * 16 + b / 16) _ (omega arith)
          ∙ ap (λ t. base64_char (a % 4 * 16 + b / 16) ∷ t)
              (keep_char (b % 16 * 4 + c / 64) _ (omega arith)
                ∙ ap (λ t. base64_char (b % 16 * 4 + c / 64) ∷ t)
                    (keep_char (c % 64) _ (omega arith)
                      ∙ ap (λ t. base64_char (c % 64) ∷ t) (drop_newlines-encode_to_string s hs))))

decode_quanta-encode_to_string :
    (s : Bytes) → AllBytes s → decode_quanta (encode_to_string s) ≡ some s
unfolding encode_to_string AllBytes
decode_quanta-encode_to_string [] h = unfold decode_quanta in refl
decode_quanta-encode_to_string (a ∷ []) (h, _) =
    decode_two (a / 4) (a % 4 * 16) (omega arith) (omega arith)
    ∙ ap some (ap (λ x. x ∷ []) (omega arith))
decode_quanta-encode_to_string (a ∷ b ∷ []) (h, (k, _)) =
    let x : a / 4 * 4 + (a % 4 * 16 + b / 16) / 16 ≡ a = omega arith in
    let y : (a % 4 * 16 + b / 16) % 16 * 16 + b % 16 * 4 / 4 ≡ b = omega arith in
    decode_three (a / 4) (a % 4 * 16 + b / 16) (b % 16 * 4) (omega arith) (omega arith)
      (omega arith)
    ∙ ap some (cc)
decode_quanta-encode_to_string (a ∷ b ∷ c ∷ s) (h, (k, (l, hs))) =
    let x : a / 4 * 4 + (a % 4 * 16 + b / 16) / 16 ≡ a = omega arith in
    let y : (a % 4 * 16 + b / 16) % 16 * 16 + (b % 16 * 4 + c / 64) / 4 ≡ b = omega arith in
    let z : (b % 16 * 4 + c / 64) % 4 * 64 + c % 64 ≡ c = omega arith in
    decode_four (a / 4) (a % 4 * 16 + b / 16) (b % 16 * 4 + c / 64) (c % 64) (encode_to_string s)
      (omega arith) (omega arith) (omega arith) (omega arith)
    ∙ rw (decode_quanta-encode_to_string s hs) (ap some cc)

-- Decoding an encoded text of bytes gives the text back.
pub decode-encode_to_string : (s : Bytes) → AllBytes s → decode (encode_to_string s) ≡ some s
unfolding decode
decode-encode_to_string s h =
    rw (drop_newlines-encode_to_string s h) (decode_quanta-encode_to_string s h)

-- Four characters stand for three bytes, the last group included.
pub length-encode_to_string :
    (s : Bytes)
    → (4 * length s ≤ 3 * length (encode_to_string s))
      × (3 * length (encode_to_string s) ≤ 4 * (length s + 2))
unfolding encode_to_string
length-encode_to_string [] = (omega arith, omega arith)
length-encode_to_string (a ∷ []) = (omega arith, omega arith)
length-encode_to_string (a ∷ b ∷ []) = (omega arith, omega arith)
length-encode_to_string (a ∷ b ∷ c ∷ s) =
    let (lo, hi) = length-encode_to_string s in (omega arith, omega arith)

unfoldable pub three : ℕ → ℕ
three zero = 0
three (suc n) = suc (suc (suc (three n)))

unfoldable pub four : ℕ → ℕ
four zero = 0
four (suc n) = suc (suc (suc (suc (four n))))

take_nil : (n : ℕ) → take {A = ℕ} n [] ≡ []
take_nil zero = refl
take_nil (suc n) = refl

drop_nil : (n : ℕ) → drop {A = ℕ} n [] ≡ []
drop_nil zero = refl
drop_nil (suc n) = refl

pub plus-encode_to_string : (c : ℕ) (s : Bytes) → bytes_eq (encode_to_string (c ∷ s)) plus ≡ false
unfolding encode_to_string bytes_eq
plus-encode_to_string c [] = ground arith
plus-encode_to_string c (d ∷ []) = ground arith
plus-encode_to_string c (d ∷ e ∷ s) = ground arith

-- Whole groups are encoded on their own.
pub take-encode_to_string :
    (n : ℕ) (s : Bytes) → take (four n) (encode_to_string s) ≡ encode_to_string (take (three n) s)
unfolding encode_to_string three four
take-encode_to_string zero s = refl
take-encode_to_string (suc n) [] = refl
take-encode_to_string (suc n) (a ∷ []) = rw (take_nil (four n))
take-encode_to_string (suc n) (a ∷ b ∷ []) = rw (take_nil (four n))
take-encode_to_string (suc n) (a ∷ b ∷ c ∷ s) =
    ap
      (λ t.
        base64_char (a / 4)
        ∷ base64_char (a % 4 * 16 + b / 16)
        ∷ base64_char (b % 16 * 4 + c / 64)
        ∷ base64_char (c % 64)
        ∷ t)
      (take-encode_to_string n s)

pub drop-encode_to_string :
    (n : ℕ) (s : Bytes) → drop (four n) (encode_to_string s) ≡ encode_to_string (drop (three n) s)
unfolding encode_to_string three four
drop-encode_to_string zero s = refl
drop-encode_to_string (suc n) [] = refl
drop-encode_to_string (suc n) (a ∷ []) = drop_nil (four n)
drop-encode_to_string (suc n) (a ∷ b ∷ []) = drop_nil (four n)
drop-encode_to_string (suc n) (a ∷ b ∷ c ∷ s) = drop-encode_to_string n s
