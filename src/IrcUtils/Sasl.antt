-- ===== src/IrcUtils/Sasl.antt =====
-- ircutils/sasl.go: responses to AUTHENTICATE in chunks of 400 bytes, and the part of
-- encoding/base64 that they use.
pub mod Base64
pub mod Chunks
pub mod Limit
use irc_go.Prelude.{
  ℕ, zero, suc, ◌+◌, ◌-◌, ◌*◌, ◌/◌, ◌%◌, Bool, true, false, ◌&&◌, ◌||◌, not, ◌==◌, ltb, within,
  List, [], ◌∷◌, ◌++◌, Option, none, some, Bytes, length, take, drop, bytes_eq, if◌then◌else◌,
}

-- The standard alphabet.
unfoldable pub base64_char : ℕ → ℕ
base64_char n =
    if ltb n 26
    then n + b'A'
    else if ltb n 52
    then n - 26 + b'a'
    else if ltb n 62
    then n - 52 + b'0'
    else if n == 62
    then b'+'
    else b'/'

unfoldable pub base64_value : ℕ → Option ℕ
base64_value c =
    if within b'A' b'Z' c
    then some (c - b'A')
    else if within b'a' b'z' c
    then some (c - b'a' + 26)
    else if within b'0' b'9' c
    then some (c - b'0' + 52)
    else if c == b'+'
    then some 62
    else if c == b'/'
    then some 63
    else none

-- `base64.StdEncoding.EncodeToString`.
unfoldable pub encode_to_string : Bytes → Bytes
encode_to_string [] = []
encode_to_string (a ∷ []) = base64_char (a / 4) ∷ base64_char (a % 4 * 16) ∷ b'=' ∷ b'=' ∷ []
encode_to_string (a ∷ b ∷ []) =
    base64_char (a / 4) ∷ base64_char (a % 4 * 16 + b / 16) ∷ base64_char (b % 16 * 4) ∷ b'=' ∷ []
encode_to_string (a ∷ b ∷ c ∷ s) =
    base64_char (a / 4)
    ∷ base64_char (a % 4 * 16 + b / 16)
    ∷ base64_char (b % 16 * 4 + c / 64)
    ∷ base64_char (c % 64)
    ∷ encode_to_string s

-- The decoder passes over line ends, wherever they are.
unfoldable pub drop_newlines : Bytes → Bytes
drop_newlines [] = []
drop_newlines (c ∷ s) = if c == b'\r' || c == b'\n' then drop_newlines s else c ∷ drop_newlines s

-- The bytes of a last group with padding, of which there may be no more behind it.
unfoldable pub last_quantum : ℕ → ℕ → ℕ → ℕ → Option Bytes
last_quantum a b c d =
    if d == b'='
    then if c == b'=' then some ((a * 4 + b / 16) ∷ []) else elim (base64_value c) [
      | none ↦ none
      | some v ↦ some ((a * 4 + b / 16) ∷ (b % 16 * 16 + v / 4) ∷ [])
    ]
    else none

-- The groups of four; `none` is a CorruptInputError.
unfoldable pub decode_quanta : Bytes → Option Bytes
decode_quanta [] = some []
decode_quanta (c0 ∷ c1 ∷ c2 ∷ c3 ∷ s) = elim (base64_value c0) [
  | none ↦ none
  | some v0 ↦ elim (base64_value c1) [
    | none ↦ none
    | some v1 ↦ elim (base64_value c3) [
      | none ↦ elim s [ [] ↦ last_quantum v0 v1 c2 c3 | _ ∷ _ ↦ none ]
      | some v3 ↦ elim (base64_value c2) [
        | none ↦ none
        | some v2 ↦ elim (decode_quanta s) [
          | none ↦ none
          | some out ↦
              some ((v0 * 4 + v1 / 16) ∷ (v1 % 16 * 16 + v2 / 4) ∷ (v2 % 4 * 64 + v3) ∷ out)
        ]
      ]
    ]
  ]
]
decode_quanta _ = none

-- `base64.StdEncoding.Decode`, with `DecodedLen`.
unfoldable pub decode : Bytes → Option Bytes
decode value = decode_quanta (drop_newlines value)

unfoldable pub decoded_len : ℕ → ℕ
decoded_len n = n / 4 * 3

abbrev pub plus : Bytes
plus = b'+' ∷ []

abbrev pub chunk_len : ℕ → ℕ
chunk_len n = if ltb 400 n then 400 else n

-- The loop of `EncodeSASLResponse` and the test behind it; each round shortens `response`, which
-- bounds the fuel.
unfoldable pub encode_loop : ℕ → Bytes → ℕ → List Bytes
encode_loop zero response last_len = []
encode_loop (suc f) [] last_len = if last_len == 400 then plus ∷ [] else []
encode_loop (suc f) (c ∷ r) last_len =
    let n = chunk_len (length (c ∷ r)) in take n (c ∷ r) ∷ encode_loop f (drop n (c ∷ r)) n

unfoldable pub encode_sasl_response : Bytes → List Bytes
encode_sasl_response [] = plus ∷ []
encode_sasl_response (c ∷ raw) =
    let response = encode_to_string (c ∷ raw) in
    encode_loop (suc (suc (length response))) response 0

pub data SaslError : Type 0 where
  limit_exceeded sasl_too_long corrupt_input : SaslError

pub record SaslBuffer : Type 0 where
  pub max_length : ℕ
  pub buf : Bytes

unfoldable pub new_sasl_buffer : ℕ → SaslBuffer
new_sasl_buffer max_length = record { max_length = max_length; buf = [] }

unfoldable pub clear : SaslBuffer → SaslBuffer
clear b = record b { buf = [] }

pub record Added : Type 0 where
  pub done : Bool
  pub output : Bytes
  pub err : Option SaslError

unfoldable pub add : SaslBuffer → Bytes → Added × SaslBuffer
unfolding clear decoded_len
add b value =
    if bytes_eq value plus
    then (record { done = true; output = b.buf; err = none }, clear b)
    else if ltb 400 (length value)
    then (record { done = true; output = []; err = some sasl_too_long }, clear b)
    else if not (b.max_length == 0) && ltb b.max_length (length b.buf + decoded_len (length value))
    then (record { done = true; output = []; err = some limit_exceeded }, clear b)
    else elim (decode value) [
      | none ↦ (record { done = true; output = []; err = some corrupt_input }, clear b)
      | some out ↦
          if ltb (length value) 400
          then (record { done = true; output = b.buf ++ out; err = none }, clear b)
          else (record { done = false; output = []; err = none }, record b { buf = b.buf ++ out })
    ]
