-- ===== src/IrcEvent/Connection/Connect/Required.antt =====
-- SASL where the configuration requires it.
use irc_go.Prelude.{
  true, false, List, [], ◌∷◌, Option, none, some, codes, Bytes, length, ◌≡◌, ◌⊎◌, refl, sym, ap,
  ◌∙◌, inl, inr, arith, Bool-cases, Option-cases,
}
use irc_go.IrcEvent.Caps.{
  CapEvent, Waited, all_answered, timed_out, disconnected, out_of_events, slice_contains,
  wait_for_caps,
}
use irc_go.IrcEvent.Connection.{
  ClientError, sasl_failed, server_disconnected, client_has_quit, Config, Connection, close_end,
  check_config, prepare, open_socket,
}
use irc_go.IrcEvent.Connection.Checked.{IsReady, check_config-IsReady}
use irc_go.IrcEvent.Connection.Sending.{Run, done, waits, crashes, send, and_then}
use irc_go.IrcEvent.Connection.Sending.Queued.{and_then-done}
use irc_go.IrcEvent.Connection.Connect.{
  SaslEvent, sasl_result, sasl_timeout, sasl_end, WelcomeEvent, welcomed, welcome_end,
  welcome_timeout, with_error, on_success, sasl_error_of, sasl_outcome, welcome_error, cap_end_sent,
  negotiate_sasl, after_caps, no_caps, user_params, negotiate_caps, greet, introduce, cleaned,
  prepared, connect,
}

with_error-none :
    (err e : Option ClientError) (r : Run) (c' : Connection)
    → with_error err r ≡ done e c'
    → err ≡ e
with_error-none err e (done _ c) c' h = ground arith
with_error-none err e waits c' h = absurd (ground arith)
with_error-none err e crashes c' h = absurd (ground arith)

on_success-done :
    (r : Run) (k : Connection → Run) (c' : Connection)
    → on_success r k ≡ done none c'
    → (c : Connection) × (r ≡ done none c) × (k c ≡ done none c')
on_success-done (done none c) k c' h = (c, refl, h)
on_success-done (done (some _) c) k c' h = absurd (ground arith)
on_success-done waits k c' h = absurd (ground arith)
on_success-done crashes k c' h = absurd (ground arith)

required_outcome :
    (config : Config) (sasl : SaslEvent)
    → config.sasl_optional ≡ false
    → sasl_outcome config sasl ≡ none
    → sasl ≡ sasl_result none
required_outcome config (sasl_result none) o h = refl
required_outcome config (sasl_result (some err)) o h = absurd (ground arith)
required_outcome config sasl_timeout o h = absurd (ground arith)
required_outcome config sasl_end o h = absurd (ground arith)

welcome_error-none : (event : WelcomeEvent) → welcome_error event ≡ none → event ≡ welcomed
welcome_error-none welcomed h = refl
welcome_error-none welcome_end h = absurd (ground arith)
welcome_error-none welcome_timeout h = absurd (ground arith)

cleaned-none : (r : Run) (c' : Connection) → cleaned r ≡ done none c' → r ≡ done none c'
cleaned-none (done none c) c' h = h
cleaned-none (done (some err) c) c' h = elim (Option-cases (close_end c)) [
  | inl k ↦ absurd (ground arith)
  | inr (d, k) ↦ absurd (ground arith)
]
cleaned-none waits c' h = absurd (ground arith)
cleaned-none crashes c' h = absurd (ground arith)

no_caps-contains :
    (caps : List Bytes) → no_caps caps ≡ true → slice_contains (codes "sasl") caps ≡ true → ⊥
unfolding slice_contains
no_caps-contains [] h k = ground arith
no_caps-contains (_ ∷ _) h k = ground arith

module _ (other : Connection → Connection) where
  negotiate_sasl_required :
      (config : Config) (acked : List Bytes) (sasl : SaslEvent) (c c' : Connection)
      → config.use_sasl ≡ true
      → config.sasl_optional ≡ false
      → negotiate_sasl other config acked sasl c ≡ done none c'
      → (slice_contains (codes "sasl") acked ≡ true) × (sasl ≡ sasl_result none)
  negotiate_sasl_required config acked sasl c c' u o h =
      elim (Bool-cases (slice_contains (codes "sasl") acked)) [
        | inr k ↦
            let run : cap_end_sent (sasl_error_of config (some sasl_failed)) c ≡ done none c' =
              rw (u, k) at h in
            let e =
              with_error-none (sasl_error_of config (some sasl_failed)) none
                (send c (codes "CAP") (codes "END" ∷ [])) c' run in
            absurd (ground arith)
        | inl k ↦
            let run : and_then (send c (codes "AUTHENTICATE") (config.sasl_mech ∷ []))
                  (λ c1. cap_end_sent (sasl_outcome config sasl) (other c1))
                ≡ done none c' =
              rw (u, k) at h in
            let (c1, e) =
              and_then-done (send c (codes "AUTHENTICATE") (config.sasl_mech ∷ []))
                (λ c1. cap_end_sent (sasl_outcome config sasl) (other c1)) none c' run in
            (
              k,
              required_outcome config sasl o (
                  with_error-none (sasl_outcome config sasl) none
                    (send (other c1) (codes "CAP") (codes "END" ∷ [])) c' e),
            )
      ]

  after_caps_required :
      (config : Config) (waited : Waited × List Bytes) (sasl : SaslEvent) (c c' : Connection)
      → config.use_sasl ≡ true
      → config.sasl_optional ≡ false
      → after_caps other config waited sasl c ≡ done none c'
      → (waited.0 ≡ timed_out)
        ⊎ ((slice_contains (codes "sasl") waited.1 ≡ true) × (sasl ≡ sasl_result none))
  after_caps_required config (all_answered, acked) sasl c c' u o h =
      inr (negotiate_sasl_required config acked sasl c c' u o h)
  after_caps_required config (timed_out, acked) sasl c c' u o h = inl refl
  after_caps_required config (disconnected, acked) sasl c c' u o h = absurd (
      let k =
        with_error-none (some server_disconnected) none (send c (codes "CAP") (codes "END" ∷ [])) c'
          h in
      ground arith)
  after_caps_required config (out_of_events, acked) sasl c c' u o h = absurd (ground arith)

  negotiate_caps_required :
      (config : Config) (events : List CapEvent) (sasl : SaslEvent) (c c' : Connection)
      → config.use_sasl ≡ true
      → config.sasl_optional ≡ false
      → slice_contains (codes "sasl") config.request_caps ≡ true
      → negotiate_caps other config events sasl c ≡ done none c'
      → let waited = wait_for_caps (length config.request_caps) [] events in
        (waited.0 ≡ timed_out)
        ⊎ ((slice_contains (codes "sasl") waited.1 ≡ true) × (sasl ≡ sasl_result none))
  unfolding negotiate_caps
  negotiate_caps_required config events sasl c c' u o r h =
      elim (Bool-cases (no_caps config.request_caps)) [
        | inl k ↦ absurd (no_caps-contains config.request_caps k r)
        | inr k ↦
            let waited = wait_for_caps (length config.request_caps) [] events in
            let (c1, e) =
              and_then-done (send c (codes "CAP") (codes "LS" ∷ codes "302" ∷ []))
                (λ x. after_caps other config waited sasl (other x)) none c' (rw k at h) in
            after_caps_required config waited sasl (other c1) c' u o e
      ]

  introduce_welcomed :
      (config : Config) (event : WelcomeEvent) (c c' : Connection)
      → introduce other config event c ≡ done none c'
      → event ≡ welcomed
  unfolding introduce
  introduce_welcomed config event c c' h =
      let last : Connection → Run = λ x. done (welcome_error event) (other x) in
      let (c1, e) =
        and_then-done (send c (codes "NICK") (c.config.nick ∷ []))
          (λ x. and_then (send x (codes "USER") (user_params config)) last) none c' h in
      let (c2, k) = and_then-done (send c1 (codes "USER") (user_params config)) last none c' e in
      welcome_error-none event (ground arith)

  prepared_required :
      (p : Option ClientError × Connection) (dialed : Option ClientError) (events : List CapEvent)
      (sasl : SaslEvent) (event : WelcomeEvent) (c' : Connection)
      → prepared other p dialed events sasl event ≡ done none c'
      → (c1 c2 : Connection) × (p.0 ≡ none)
        × (event ≡ welcomed)
        × (negotiate_caps other p.1.config events sasl c1 ≡ done none c2)
  prepared_required (some x, c) dialed events sasl event c' h = absurd (ground arith)
  prepared_required (none, c) (some x) events sasl event c' h = absurd (ground arith)
  prepared_required (none, c) none events sasl event c' h =
      let (c1, e) =
        and_then-done (greet c.config (open_socket c))
          (λ x.
            on_success (negotiate_caps other c.config events sasl x)
              (λ y. introduce other c.config event y))
          none c' (cleaned-none _ c' h) in
      let (c2, negotiated, k) =
        on_success-done (negotiate_caps other c.config events sasl c1)
          (λ y. introduce other c.config event y) c' e in
      (c1, c2, refl, introduce_welcomed c.config event c2 c' k, negotiated)

  prepare_config :
      (c : Connection) → (prepare c).0 ≡ none → check_config c.config ≡ (none, (prepare c).1.config)
  unfolding prepare
  prepare_config c h = elim (Bool-cases c.quit) [
    | inl k ↦ absurd (let e : (prepare c).0 ≡ some client_has_quit = rw k refl in ground arith)
    | inr k ↦
        let e : (check_config c.config).0 ≡ none = rw k at h in
        let out : (prepare c).1.config ≡ (check_config c.config).1 = rw k refl in
        let same : check_config c.config ≡ (none, (check_config c.config).1) = ground arith in
        same ∙ ap (λ x. (none, x)) (sym out)
  ]

  -- If `Connect` returns without error while SASL is in use and not optional, then the server has
  -- sent its welcome, and either the wait for its capabilities timed out, or it acknowledged `sasl`
  -- and the authentication succeeded.
  pub connect_authenticates :
      (dialed : Option ClientError) (events : List CapEvent) (sasl : SaslEvent)
      (event : WelcomeEvent) (c c' : Connection)
      → (prepare c).1.config.use_sasl ≡ true
      → (prepare c).1.config.sasl_optional ≡ false
      → connect other dialed events sasl event c ≡ done none c'
      → let waited = wait_for_caps (length (prepare c).1.config.request_caps) [] events in
        (event ≡ welcomed)
        × ((waited.0 ≡ timed_out)
            ⊎ ((slice_contains (codes "sasl") waited.1 ≡ true) × (sasl ≡ sasl_result none)))
  unfolding connect IsReady
  connect_authenticates dialed events sasl event c c' u o h =
      let (c1, c2, p, w, n) = prepared_required (prepare c) dialed events sasl event c' h in
      let config = (prepare c).1.config in
      let (_, _, _, _, _, _, _, _, r) = check_config-IsReady c.config config (prepare_config c p) in
      (w, negotiate_caps_required config events sasl c1 c2 u o (rw u at r) n)
