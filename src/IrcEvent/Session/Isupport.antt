-- ===== src/IrcEvent/Session/Isupport.antt =====
-- The values of ISUPPORT: their escapes, and when the map no longer changes.
use irc_go.Prelude.{
  ℕ, zero, suc, ◌+◌, ◌-◌, ◌*◌, ◌/◌, ◌%◌, ◌≤◌, ◌<◌, Bool, true, false, ◌||◌, ◌==◌, ltb, List, [],
  ◌∷◌, Option, none, some, ◌≡◌, refl, sym, ap, ◌∙◌, inl, inr, arith, Bytes, length, contains,
  string_eq, ◌++◌, take, drop, lookup, if◌then◌else◌, Bool-cases,
}
use irc_go.IrcMsg.Message.{TagMap, Message}
use irc_go.IrcEvent.Session.{
  Session, handle_registration, handle_isupport, base_callback, hex_value, parse_octet, octet_of,
  unescape_value_loop, unescape_isupport_value, add_tokens, isupport_tokens,
}
use irc_go.IrcEvent.Session.Kept.{
  gives_tokens, ends_registration, base_callback-IsKept, base_callback-isupport,
  base_callback-registration,
}
use irc_go.IrcEvent.Session.Tokens.{
  last_value, tokens_sent, still_registering, or_else-none, lookup-add_tokens, add_tokens-append,
  isupport_tokens-take,
}

abbrev pub hex_digit : ℕ → ℕ
hex_digit d = if ltb d 10 then d + b'0' else d - 10 + b'A'

-- The bytes that a server escapes: controls, the space, the backslash and the equals sign.
abbrev pub needs_escape : ℕ → Bool
needs_escape c = ltb c 33 || (c == b'\\' || c == b'=')

unfoldable pub escape_value : Bytes → Bytes
escape_value [] = []
escape_value (c ∷ s) =
    let rest = escape_value s in
    if needs_escape c
    then b'\\' ∷ b'x' ∷ hex_digit (c / 16) ∷ hex_digit (c % 16) ∷ rest
    else c ∷ rest

hex_value-hex_digit : (d : ℕ) → d < 16 → hex_value (hex_digit d) ≡ some d
hex_value-hex_digit d h = ground arith

parse_octet-hex_digit :
    (high low : ℕ)
    → low < 16
    → 16 * high + low < 128
    → parse_octet (hex_digit high) (hex_digit low) ≡ some (16 * high + low)
unfolding parse_octet
parse_octet-hex_digit high low h k =
    let plus : (hex_digit high == b'+') ≡ false = ground arith in
    let minus : (hex_digit high == b'-') ≡ false = ground arith in
    let small : ltb (16 * high + low) 128 ≡ true = ground arith in
    rw (hex_value-hex_digit low h, parse_octet)
      (rw (plus, minus) (rw (hex_value-hex_digit high (omega arith)) (rw small refl)))

octet_of-escape :
    (c : ℕ) (s : Bytes)
    → needs_escape c ≡ true
    → octet_of (b'x' ∷ hex_digit (c / 16) ∷ hex_digit (c % 16) ∷ s) ≡ some c
unfolding octet_of
octet_of-escape c s h =
    let small : c < 128 = ground arith in
    parse_octet-hex_digit (c / 16) (c % 16) (omega arith) (omega arith) ∙ ap some (omega arith)

unescape_value_loop-escape_value :
    (f : ℕ) (s : Bytes) → length (escape_value s) ≤ f → unescape_value_loop f (escape_value s) ≡ s
unfolding unescape_value_loop escape_value
unescape_value_loop-escape_value zero [] h = refl
unescape_value_loop-escape_value (suc f) [] h = refl
unescape_value_loop-escape_value zero (c ∷ s) h = absurd (ground arith)
unescape_value_loop-escape_value (suc f) (c ∷ s) h = elim (Bool-cases (needs_escape c)) [
  | inl e ↦
      let fits : length (escape_value s) ≤ f = ground arith in
      rw e (
        rw (octet_of-escape c (escape_value s) e, unescape_value_loop)
          (ap (◌∷◌ c) (unescape_value_loop-escape_value f s fits)))
  | inr e ↦
      let plain : (c == b'\\') ≡ false = ground arith in
      let fits : length (escape_value s) ≤ f = ground arith in
      rw e
        (rw (plain, unescape_value_loop) (ap (◌∷◌ c) (unescape_value_loop-escape_value f s fits)))
]

unescape_value_loop-plain :
    (s : Bytes) → contains b'\\' s ≡ false → unescape_value_loop (length s) s ≡ s
unfolding unescape_value_loop contains
unescape_value_loop-plain [] h = refl
unescape_value_loop-plain (c ∷ s) h =
    let plain : (c == b'\\') ≡ false = ground arith in
    let rest : contains b'\\' s ≡ false = ground arith in
    rw (plain, unescape_value_loop) (ap (◌∷◌ c) (unescape_value_loop-plain s rest))

-- A value whose controls, spaces, backslashes and equals signs were escaped in hexadecimal is read
-- back.
pub unescape_isupport_value-escape_value :
    (s : Bytes) → unescape_isupport_value (escape_value s) ≡ s
unfolding unescape_isupport_value
unescape_isupport_value-escape_value s =
    let loop = unescape_value_loop-escape_value (length (escape_value s)) s (omega arith) in
    elim (Bool-cases (contains b'\\' (escape_value s))) [
      | inl e ↦ rw e loop
      | inr e ↦ rw e (sym (unescape_value_loop-plain (escape_value s) e) ∙ loop)
    ]

-- The callbacks of a list of messages, in their order.
unfoldable pub run_base_callbacks : Session → List Message → Session
unfolding base_callback
run_base_callbacks st [] = st
run_base_callbacks st (e ∷ events) = run_base_callbacks (base_callback st e).1 events

-- Before registration, with the tokens so far.
record IsOpen (m : TagMap) (st : Session) : Type 0 where
  registered : st.registered ≡ false
  partial : st.isupport_partial ≡ some m

-- After registration.
record IsFrozen (m : Option TagMap) (st : Session) : Type 0 where
  registered : st.registered ≡ true
  partial : st.isupport_partial ≡ none
  isupport : st.isupport ≡ m

base_callback-IsOpen :
    (m : TagMap) (st : Session) (e : Message)
    → ends_registration e ≡ false
    → IsOpen m st
    → IsOpen
        (add_tokens m (if gives_tokens e then take (length e.params - 2) (drop 1 e.params) else []))
        (base_callback st e).1
base_callback-IsOpen m st e r h = elim (Bool-cases (gives_tokens e)) [
  | inl g ↦
      let out : handle_isupport st e
          ≡ ([], record st { isupport_partial = some (add_tokens m (isupport_tokens e.params)) }) =
        unfold handle_isupport in rw h.partial refl in
      rw (g, base_callback-isupport st e g, out)
        (record {
          registered = h.registered;
          partial = ap (λ l. some (add_tokens m l)) (isupport_tokens-take e.params);
        })
  | inr g ↦
      let k = base_callback-IsKept st e g r in
      rw g (record {
        registered = k.registered ∙ h.registered;
        partial = k.partial ∙ h.partial ∙ unfold add_tokens in refl;
      })
]

run_base_callbacks-IsOpen :
    (m : TagMap) (st : Session) (events : List Message)
    → still_registering events ≡ true
    → IsOpen m st
    → IsOpen (add_tokens m (tokens_sent events)) (run_base_callbacks st events)
unfolding run_base_callbacks still_registering tokens_sent
run_base_callbacks-IsOpen m st [] r h = unfold add_tokens in h
run_base_callbacks-IsOpen m st (e ∷ events) r h =
    let now : ends_registration e ≡ false = ground arith in
    let later : still_registering events ≡ true = ground arith in
    let own = if gives_tokens e then take (length e.params - 2) (drop 1 e.params) else [] in
    rw (add_tokens-append m own (tokens_sent events)) (
      run_base_callbacks-IsOpen (add_tokens m own) (base_callback st e).1 events later
        (base_callback-IsOpen m st e now h))

base_callback-IsFrozen :
    (m : Option TagMap) (st : Session) (e : Message)
    → IsFrozen m st
    → IsFrozen m (base_callback st e).1
base_callback-IsFrozen m st e h = elim (Bool-cases (gives_tokens e)) [
  | inl g ↦
      let out : handle_isupport st e ≡ ([], st) = unfold handle_isupport in rw h.partial refl in
      rw (base_callback-isupport st e g, out) h
  | inr g ↦ elim (Bool-cases (ends_registration e)) [
    | inl r ↦
        let out : handle_registration st e ≡ ([], record st { welcome_chan = true }) =
          unfold handle_registration in rw h.registered refl in
        rw (base_callback-registration st e r, out)
          (record { registered = h.registered; partial = h.partial; isupport = h.isupport })
    | inr r ↦
        let k = base_callback-IsKept st e g r in
        record {
          registered = k.registered ∙ h.registered;
          partial = k.partial ∙ h.partial;
          isupport = k.isupport ∙ h.isupport;
        }
  ]
]

run_base_callbacks-IsFrozen :
    (m : Option TagMap) (st : Session) (events : List Message)
    → IsFrozen m st
    → IsFrozen m (run_base_callbacks st events)
unfolding run_base_callbacks
run_base_callbacks-IsFrozen m st [] h = h
run_base_callbacks-IsFrozen m st (e ∷ events) h =
    run_base_callbacks-IsFrozen m (base_callback st e).1 events (base_callback-IsFrozen m st e h)

run_base_callbacks-append :
    (st : Session) (p q : List Message)
    → run_base_callbacks st (p ++ q) ≡ run_base_callbacks (run_base_callbacks st p) q
unfolding run_base_callbacks
run_base_callbacks-append st [] q = refl
run_base_callbacks-append st (e ∷ p) q = run_base_callbacks-append (base_callback st e).1 p q

-- On a connection that has just been opened, where the server ends registration with `e` behind the
-- messages `before`, the map of ISUPPORT has for each key what the last token of `before` says that
-- names it, its escapes undone, and no value where none does; and the messages behind `e`, whatever
-- they are, change nothing of it.
pub handle_registration-isupport :
    (st : Session) (before : List Message) (e : Message) (events : List Message) (key : Bytes)
    → st.registered ≡ false
    → st.isupport_partial ≡ some []
    → still_registering before ≡ true
    → ends_registration e ≡ true
    → (m : TagMap) × ((run_base_callbacks st (before ++ e ∷ events)).isupport ≡ some m)
      × (lookup key m ≡ last_value key (tokens_sent before))
unfolding run_base_callbacks lookup
handle_registration-isupport st before e events key u n b r =
    let opened = run_base_callbacks st before in
    let m = add_tokens [] (tokens_sent before) in
    let h = run_base_callbacks-IsOpen [] st before b (record { registered = u; partial = n }) in
    let out : IsFrozen (some m) (base_callback opened e).1 =
      rw (base_callback-registration opened e r) (
        unfold handle_registration in
        rw h.registered (record { registered = refl; partial = refl; isupport = h.partial })) in
    (
      m,
      ap (λ x. x.isupport) (run_base_callbacks-append st before (e ∷ events))
          ∙ (run_base_callbacks-IsFrozen (some m) (base_callback opened e).1 events out).isupport,
      lookup-add_tokens key [] (tokens_sent before)
          ∙ or_else-none (last_value key (tokens_sent before)),
    )
