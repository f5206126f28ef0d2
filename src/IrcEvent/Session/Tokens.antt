-- ===== src/IrcEvent/Session/Tokens.antt =====
-- The tokens of ISUPPORT: what the last of them says of a key.
use irc_go.Prelude.{
  suc, ◌-◌, Bool, true, false, List, [], ◌∷◌, Option, none, some, ◌≡◌, refl, sym, ap, ◌∙◌, inl, inr,
  arith, Bytes, length, bytes_eq, string_eq, ◌++◌, ◌&&◌, not, cut, take, drop, lookup, insert,
  lookup-insert, Option-cases, if◌then◌else◌,
}
use irc_go.IrcMsg.Message.{TagMap, Message}
use irc_go.IrcEvent.Session.{
  unescape_isupport_value, add_token, add_tokens, without_last, isupport_tokens,
}
use irc_go.IrcEvent.Session.Kept.{gives_tokens, ends_registration}

-- What a token says of a key: no value is the empty one.
unfoldable pub token_value : Bytes → Bytes → Option Bytes
token_value key token = elim (cut b'=' token) [
  | none ↦ if bytes_eq token key then some [] else none
  | some (name, value) ↦ if bytes_eq name key then some (unescape_isupport_value value) else none
]

-- The last of the tokens that names the key decides.
unfoldable pub last_value : Bytes → List Bytes → Option Bytes
last_value key [] = none
last_value key (token ∷ tokens) = elim (last_value key tokens) [
  | some value ↦ some value
  | none ↦ token_value key token
]

-- All parameters of the RPL_ISUPPORT messages but the first and the last of each.
unfoldable pub tokens_sent : List Message → List Bytes
tokens_sent [] = []
tokens_sent (e ∷ events) =
    (if gives_tokens e then take (length e.params - 2) (drop 1 e.params) else [])
    ++ tokens_sent events

unfoldable pub still_registering : List Message → Bool
still_registering [] = true
still_registering (e ∷ events) = not (ends_registration e) && still_registering events

abbrev or_else : Option Bytes → Option Bytes → Option Bytes
or_else (some v) old = some v
or_else none old = old

or_else_branch :
    (b : Bool) (v : Bytes) (old : Option Bytes)
    → (if b then some v else old) ≡ or_else (if b then some v else none) old
or_else_branch true v old = refl
or_else_branch false v old = refl

lookup-add_cut :
    (key : Bytes) (m : TagMap) (token : Bytes) (parts : Option (Bytes × Bytes))
    → cut b'=' token ≡ parts
    → lookup key (add_token m token) ≡ or_else (token_value key token) (lookup key m)
unfolding add_token token_value
lookup-add_cut key m token none e =
    let added : add_token m token ≡ insert token [] m = rw (e, add_token) refl in
    let said : token_value key token ≡ (if bytes_eq token key then some [] else none) =
      rw (e, token_value) refl in
    ap (lookup key) added
    ∙ lookup-insert token key [] m
    ∙ or_else_branch (bytes_eq token key) [] (lookup key m)
    ∙ ap (λ v. or_else v (lookup key m)) (sym said)
lookup-add_cut key m token (some (name, value)) e =
    let v = unescape_isupport_value value in
    let added : add_token m token ≡ insert name v m = rw (e, add_token) refl in
    let said : token_value key token ≡ (if bytes_eq name key then some v else none) =
      rw (e, token_value) refl in
    ap (lookup key) added
    ∙ lookup-insert name key v m
    ∙ or_else_branch (bytes_eq name key) v (lookup key m)
    ∙ ap (λ x. or_else x (lookup key m)) (sym said)

lookup-add_token :
    (key : Bytes) (m : TagMap) (token : Bytes)
    → lookup key (add_token m token) ≡ or_else (token_value key token) (lookup key m)
lookup-add_token key m token = lookup-add_cut key m token (cut b'=' token) refl

pub or_else-none : (a : Option Bytes) → or_else a none ≡ a
or_else-none (some v) = refl
or_else-none none = refl

or_else_assoc : (a b c : Option Bytes) → or_else a (or_else b c) ≡ or_else (or_else a b) c
or_else_assoc (some v) b c = refl
or_else_assoc none b c = refl

last_value-cons :
    (key token : Bytes) (tokens : List Bytes)
    → last_value key (token ∷ tokens) ≡ or_else (last_value key tokens) (token_value key token)
unfolding last_value
last_value-cons key token tokens = elim (Option-cases (last_value key tokens)) [
  | inl e ↦ rw e refl
  | inr (v, e) ↦ rw e refl
]

pub lookup-add_tokens :
    (key : Bytes) (m : TagMap) (tokens : List Bytes)
    → lookup key (add_tokens m tokens) ≡ or_else (last_value key tokens) (lookup key m)
unfolding add_tokens
lookup-add_tokens key m [] = unfold last_value in refl
lookup-add_tokens key m (token ∷ tokens) =
    lookup-add_tokens key (add_token m token) tokens
    ∙ ap (or_else (last_value key tokens)) (lookup-add_token key m token)
    ∙ or_else_assoc (last_value key tokens) (token_value key token) (lookup key m)
    ∙ ap (λ v. or_else v (lookup key m)) (sym (last_value-cons key token tokens))

pub add_tokens-append :
    (m : TagMap) (p q : List Bytes) → add_tokens m (p ++ q) ≡ add_tokens (add_tokens m p) q
unfolding add_tokens
add_tokens-append m [] q = refl
add_tokens-append m (token ∷ p) q = add_tokens-append (add_token m token) p q

without_last-take : (ps : List Bytes) → without_last ps ≡ take (length ps - 1) ps
without_last-take [] = refl
without_last-take (p ∷ []) = refl
without_last-take (p ∷ q ∷ ps) =
    let same : suc (length ps) ≡ length (p ∷ q ∷ ps) - 1 = omega arith in
    let back : length (q ∷ ps) - 1 ≡ length ps = omega arith in
    ap (◌∷◌ p) (without_last-take (q ∷ ps) ∙ ap (λ n. take n (q ∷ ps)) back)
    ∙ ap (λ n. take n (p ∷ q ∷ ps)) same

pub isupport_tokens-take : (ps : List Bytes) → isupport_tokens ps ≡ take (length ps - 2) (drop 1 ps)
isupport_tokens-take [] = refl
isupport_tokens-take (p ∷ ps) =
    let same : length ps - 1 ≡ length (p ∷ ps) - 2 = omega arith in
    without_last-take ps ∙ ap (λ n. take n ps) same
