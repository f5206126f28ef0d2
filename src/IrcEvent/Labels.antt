-- ===== src/IrcEvent/Labels.antt =====
-- ircevent/irc_callback.go: labels as texts, and the callbacks that wait for labeled responses. A
-- callback is a value of a type that the client chooses, and the time is a number.
pub mod Waiting
use irc_go.Prelude.{
  ℕ, zero, suc, ◌+◌, ◌-◌, ◌*◌, ◌/◌, ◌%◌, ◌^◌, ◌<◌, Bool, false, ◌||◌, ◌==◌, ltb, within, List, [],
  ◌∷◌, ◌++◌, Option, none, some, ◌≡◌, refl, ap, ◌∙◌, inl, inr, arith, Bytes, nat_eq, lookup, insert,
  delete, lookup-insert, lookup-delete, ==_refl, lt→ltb, if◌then◌else◌, Bool-cases, Option-cases,
  length, length-append,
}

-- An int64 that is read from a text.
pub data Int64 : Type 0 where
  pos negative : ℕ → Int64

-- Its two's complement. A label that the client makes is kept as this number, which is the label
-- itself where it is below 2^63.
unfoldable pub key_of : Int64 → ℕ
key_of (pos n) = n
key_of (negative n) = (2 ^ 64 - n) % 2 ^ 64

unfoldable pub digit : ℕ → ℕ
digit d = if ltb d 10 then d + b'0' else d - 10 + b'a'

unfoldable pub digit_value : ℕ → Option ℕ
digit_value c =
    if within b'0' b'9' c
    then some (c - b'0')
    else if within b'a' b'v' c
    then some (c - b'a' + 10)
    else if within b'A' b'V' c
    then some (c - b'A' + 10)
    else none

-- `strconv.FormatInt` in base 32; each round divides the number, which bounds the fuel.
unfoldable pub format_loop : ℕ → ℕ → Bytes
format_loop zero n = []
format_loop (suc f) n =
    let front = format_loop f (n / 32) in
    if ltb n 32 then digit n ∷ [] else front ++ digit (n % 32) ∷ []

-- `serializeLabel` of a label that is given by its two's complement.
unfoldable pub serialize_label : ℕ → Bytes
serialize_label label =
    if ltb label (2 ^ 63)
    then format_loop (suc label) label
    else b'-' ∷ format_loop (suc (2 ^ 64 - label)) (2 ^ 64 - label)

unfoldable pub parse_digits : ℕ → Bytes → Option ℕ
parse_digits acc [] = some acc
parse_digits acc (c ∷ s) = elim (digit_value c) [
  | none ↦ none
  | some d ↦ parse_digits (acc * 32 + d) s
]

unfoldable pub parse_unsigned : Bytes → Option ℕ
parse_unsigned [] = none
parse_unsigned (c ∷ s) = parse_digits 0 (c ∷ s)

abbrev pub in_range : ℕ → (ℕ → Int64) → Option ℕ → Int64
in_range limit sign none = pos 0
in_range limit sign (some n) = if ltb n limit then sign n else pos 0

-- `deserializeLabel`: 0 where `strconv.ParseInt` in base 32 has an error.
unfoldable pub deserialize_label : Bytes → Int64
deserialize_label [] = pos 0
deserialize_label (c ∷ s) =
    if c == b'-'
    then in_range (2 ^ 63 + 1) negative (parse_unsigned s)
    else if c == b'+'
    then in_range (2 ^ 63) pos (parse_unsigned s)
    else in_range (2 ^ 63) pos (parse_unsigned (c ∷ s))

pub record PendingLabel (L : Type 0) : Type 0 where
  pub created_at : ℕ
  pub callback : L

-- The fields of `Connection` for labels. The counter and the keys are int64s, as their two's
-- complement.
pub record Labels (L : Type 0) : Type 0 where
  pub label_callbacks : List (ℕ × PendingLabel L)
  pub label_counter : ℕ

module _ {L : Type 0} where
  unfoldable pub register_label : Labels L → ℕ → L → Bytes × Labels L
  unfolding serialize_label
  register_label st now callback =
      let label = (st.label_counter + 1) % 2 ^ 64 in
      (
        serialize_label label,
        record {
          label_callbacks =
              insert label (record { created_at = now; callback = callback }) st.label_callbacks;
          label_counter = label;
        },
      )

  unfoldable pub unregister_number : Labels L → Int64 → Labels L
  unfolding key_of
  unregister_number st label =
      if key_of label == 0
      then st
      else record st { label_callbacks = delete (key_of label) st.label_callbacks }

  unfoldable pub unregister_label : Labels L → Bytes → Labels L
  unfolding unregister_number
  unregister_label st label_str = unregister_number st (deserialize_label label_str)

  -- `getLabelCallbackNoMutex`: the callback, which is taken out.
  unfoldable pub get_label_callback : Labels L → Int64 → Option L × Labels L
  unfolding key_of
  get_label_callback st label = elim (lookup (key_of label) st.label_callbacks) [
    | none ↦ (none, st)
    | some lc ↦
        (some lc.callback, record st { label_callbacks = delete (key_of label) st.label_callbacks })
  ]

  -- `expireBatches` on the labels: the callbacks that have failed, and those that still wait.
  unfoldable pub expire_labels :
      Bool → ℕ → ℕ → List (ℕ × PendingLabel L) → List L × List (ℕ × PendingLabel L)
  expire_labels force now keep_alive [] = ([], [])
  expire_labels force now keep_alive ((label, lcb) ∷ callbacks) =
      let (failed, kept) = expire_labels force now keep_alive callbacks in
      if force || ltb keep_alive (now - lcb.created_at)
      then (lcb.callback ∷ failed, kept)
      else (failed, (label, lcb) ∷ kept)

digit_value-digit : (d : ℕ) → d < 32 → digit_value (digit d) ≡ some d
unfolding digit_value digit
digit_value-digit d h = ground arith

parse_digits-append :
    (acc : ℕ) (s : Bytes) (n d : ℕ)
    → d < 32
    → parse_digits acc s ≡ some n
    → parse_digits acc (s ++ digit d ∷ []) ≡ some (n * 32 + d)
unfolding parse_digits
parse_digits-append acc [] n d h e = rw (digit_value-digit d h, parse_digits) (ground arith)
parse_digits-append acc (c ∷ s) n d h e = elim (Option-cases (digit_value c)) [
  | inl z ↦ ground arith
  | inr (v, z) ↦ ground (arith, parse_digits-append (acc * 32 + v) s n d h)
]

one_digit : (n : ℕ) → n < 32 → parse_digits 0 (digit n ∷ []) ≡ some n
unfolding parse_digits
one_digit n h = rw (digit_value-digit n h, parse_digits) (ap some (omega arith))

parse_digits-format_loop : (f n : ℕ) → n < f → parse_digits 0 (format_loop f n) ≡ some n
unfolding format_loop parse_digits
parse_digits-format_loop zero n h = absurd (omega arith)
parse_digits-format_loop (suc f) n h = elim (Bool-cases (ltb n 32)) [
  | inl e ↦ rw e (one_digit n (ground arith))
  | inr e ↦ rw e (
      parse_digits-append 0 (format_loop f (n / 32)) (n / 32) (n % 32) (omega arith)
        (parse_digits-format_loop f (n / 32) (ground arith))
      ∙ ap some (omega arith))
]

length-format_loop : (f n : ℕ) → 0 < f → 0 < length (format_loop f n)
unfolding format_loop
length-format_loop zero n h = absurd (omega arith)
length-format_loop (suc f) n h = elim (Bool-cases (ltb n 32)) [
  | inl e ↦ rw e (omega arith)
  | inr e ↦ rw e (rw (length-append (format_loop f (n / 32)) (digit (n % 32) ∷ [])) (omega arith))
]

deserialize_digits :
    (t : Bytes) (n : ℕ)
    → parse_digits 0 t ≡ some n
    → 0 < length t
    → n < 2 ^ 63
    → deserialize_label t ≡ pos n
unfolding deserialize_label parse_unsigned
deserialize_digits [] n e h k = absurd (omega arith)
deserialize_digits (c ∷ s) n e h k =
    let mark : ((c == b'-') ≡ false) × ((c == b'+') ≡ false) =
      unfold parse_digits digit_value in ground arith in
    rw (mark.0, mark.1, e) (rw (lt→ltb n (2 ^ 63) k))

-- A label below 2^63 is read back from its text.
pub deserialize_label-serialize_label :
    (n : ℕ) → n < 2 ^ 63 → deserialize_label (serialize_label n) ≡ pos n
unfolding serialize_label
deserialize_label-serialize_label n h = rw (lt→ltb n (2 ^ 63) h) (
    deserialize_digits (format_loop (suc n) n) n (parse_digits-format_loop (suc n) n (omega arith))
      (length-format_loop (suc n) n (omega arith)) h)

-- Below 2^63, nothing wraps around.
pub registered_as :
    {L : Type 0} (st : Labels L) (now : ℕ) (callback : L)
    → st.label_counter + 1 < 2 ^ 63
    → register_label st now callback ≡ (
      serialize_label (st.label_counter + 1),
      record {
        label_callbacks =
            insert
              (st.label_counter + 1)
              (record { created_at = now; callback = callback })
              st.label_callbacks;
        label_counter = st.label_counter + 1;
      },
    )
unfolding register_label
registered_as {L} st now callback h =
    let p : PendingLabel L = record { created_at = now; callback = callback } in
    let same : (st.label_counter + 1) % 2 ^ 64 ≡ st.label_counter + 1 = omega arith in
    ap
      (λ n. (
        serialize_label n,
        record { label_callbacks = insert n p st.label_callbacks; label_counter = n },
      ))
      same

-- The text that `registerLabel` sends leads back to the callback, whatever was registered before,
-- until the counter reaches 2^63 - 1; a second response with the label finds nothing.
pub register_label-get_label_callback :
    {L : Type 0} (st : Labels L) (now : ℕ) (callback : L)
    → st.label_counter + 1 < 2 ^ 63
    → let (label, st1) = register_label st now callback in
      let (found, st2) = get_label_callback st1 (deserialize_label label) in
      (found ≡ some callback) × ((get_label_callback st2 (deserialize_label label)).0 ≡ none)
unfolding register_label get_label_callback key_of
register_label-get_label_callback {L} st now callback h =
    let same : st.label_counter + 1 ≡ (st.label_counter + 1) % 2 ^ 64 = omega arith in
    let n = (st.label_counter + 1) % 2 ^ 64 in
    let small : n < 2 ^ 63 = omega arith in
    let p : PendingLabel L = record { created_at = now; callback = callback } in
    let found : lookup n (insert n p st.label_callbacks) ≡ some p =
      rw (lookup-insert n n p st.label_callbacks, ==_refl n) in
    let gone : lookup n (delete n (insert n p st.label_callbacks)) ≡ none =
      rw (lookup-delete n n (insert n p st.label_callbacks), ==_refl n) in
    rw (deserialize_label-serialize_label n small)
      (rw (found, get_label_callback) (refl, rw (gone, get_label_callback)))
