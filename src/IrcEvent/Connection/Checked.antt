-- ===== src/IrcEvent/Connection/Checked.antt =====
-- What a configuration has once `Connect` accepts it.
use irc_go.Prelude.{
  ℕ, ◌≤◌, ◌<◌, true, false, ◌&&◌, ◌||◌, not, ltb, List, [], ◌∷◌, ◌++◌, none, some, ◌≡◌, ◌≢◌, refl,
  sym, subst, ap, ◌∙◌, inl, inr, arith, codes, Bytes, bytes_eq, bytes_eq_iff, Bool-cases,
}
use irc_go.IrcEvent.Caps.{slice_contains}
use irc_go.IrcEvent.Connection.{
  ClientError, no_server, keep_alive_too_short, unsupported_sasl_mech, Config, default_to,
  default_number, nanoseconds, is_empty, early_defaults, sasl_defaults, late_defaults, check_config,
}

-- A configuration that `Connect` goes on with.
unfoldable pub IsReady : Config → Type 0
IsReady c =
    (is_empty c.server ≡ false)
    × (is_empty c.nick ≡ false)
    × (is_empty c.user ≡ false)
    × (0 < c.timeout)
    × (c.timeout ≤ c.keep_alive)
    × (0 < c.reconnect_freq)
    × (0 < c.max_line_len)
    × ((bytes_eq c.sasl_mech (codes "PLAIN") || bytes_eq c.sasl_mech (codes "EXTERNAL")) ≡ true)
    × ((not c.use_sasl || slice_contains (codes "sasl") c.request_caps) ≡ true)

default_to_set :
    (fallback s : Bytes) → is_empty fallback ≡ false → is_empty (default_to fallback s) ≡ false
default_to_set fallback [] h = h
default_to_set fallback (c ∷ s) h = refl

default_number_set : (fallback n : ℕ) → 0 < fallback → 0 < default_number fallback n
default_number_set fallback n h = ground arith

slice_contains-append : (x : Bytes) (l : List Bytes) → slice_contains x (l ++ x ∷ []) ≡ true
unfolding slice_contains
slice_contains-append x [] = rw ((bytes_eq_iff x x).1 refl) refl
slice_contains-append x (y ∷ l) = let rest = slice_contains-append x l in ground arith

-- With SASL in use, `sasl` is among the requested capabilities.
requests_sasl :
    (c : Config)
    → (not (sasl_defaults c).use_sasl
        || slice_contains (codes "sasl") (sasl_defaults c).request_caps)
      ≡ true
unfolding sasl_defaults
requests_sasl c =
    elim (Bool-cases
      (c.use_sasl || (not (is_empty c.sasl_login) && not (is_empty c.sasl_password)))) [
        | inr e ↦ rw e refl
        | inl e ↦ elim (Bool-cases (slice_contains (codes "sasl") c.request_caps)) [
          | inl k ↦ rw (e, k) k
          | inr k ↦ rw (e, k) (slice_contains-append (codes "sasl") c.request_caps)
        ]
      ]

accepted-IsReady :
    (c : Config)
    → is_empty c.server ≡ false
    → ltb (early_defaults c).keep_alive (early_defaults c).timeout ≡ false
    → (let c2 = sasl_defaults (early_defaults c) in
        (bytes_eq c2.sasl_mech (codes "PLAIN") || bytes_eq c2.sasl_mech (codes "EXTERNAL")) ≡ true)
    → IsReady (late_defaults (sasl_defaults (early_defaults c)))
unfolding IsReady early_defaults sasl_defaults late_defaults
accepted-IsReady c server keep mech =
    let nick = default_to_set (codes "ircevent") c.nick refl in
    (
      server,
      nick,
      default_to_set (default_to (codes "ircevent") c.nick) c.user nick,
      default_number_set (nanoseconds 60) c.timeout (omega arith),
      ground arith,
      default_number_set (nanoseconds 120) c.reconnect_freq (omega arith),
      default_number_set 512 c.max_line_len (omega arith),
      mech,
      requests_sasl (early_defaults c),
    )

refuses :
    (c c' : Config) (err : ClientError)
    → (check_config c).0 ≡ some err
    → check_config c ≢ (none, c')
refuses c c' err h e = let k = ap (λ o. o.0) e in ground arith

-- What `check_config` accepts has a server, a nick, a user, a positive timeout that is at most
-- KeepAlive, a positive reconnection delay and line length, and a mechanism that is PLAIN or
-- EXTERNAL, and where it uses SASL the capability `sasl` is among those it requests.
pub check_config-IsReady : (c c' : Config) → check_config c ≡ (none, c') → IsReady c'
unfolding check_config
check_config-IsReady c c' e = elim (Bool-cases (is_empty c.server)) [
  | inl s ↦ absurd (refuses c c' no_server (rw s refl) e)
  | inr s ↦ elim (Bool-cases (ltb (early_defaults c).keep_alive (early_defaults c).timeout)) [
    | inl k ↦ absurd (refuses c c' keep_alive_too_short (rw (s, k) refl) e)
    | inr k ↦
        elim (Bool-cases (
          bytes_eq (sasl_defaults (early_defaults c)).sasl_mech (codes "PLAIN")
          || bytes_eq (sasl_defaults (early_defaults c)).sasl_mech (codes "EXTERNAL"))) [
            | inr m ↦ absurd (refuses c c' unsupported_sasl_mech (rw (s, k) (rw m refl)) e)
            | inl m ↦
                let out : check_config c
                    ≡ (none, late_defaults (sasl_defaults (early_defaults c))) =
                  rw (s, k) (rw m refl) in
                subst IsReady (ap (λ o. o.1) (sym out ∙ e)) (accepted-IsReady c s k m)
          ]
  ]
]
