-- ===== src/IrcEvent/Connection/Connect.antt =====
-- ircevent/irc.go: `Connect` behind its tests, with `negotiateCaps`. Dialing, the events that the
-- goroutine of `Connect` waits for, and what other goroutines do to the connection while it waits
-- are arguments.
pub mod Outcome
pub mod Required
use irc_go.Prelude.{
  Bool, true, false, not, List, [], ◌∷◌, Option, none, some, codes, Bytes, length, if◌then◌else◌,
}
use irc_go.IrcEvent.Caps.{
  CapEvent, Waited, all_answered, timed_out, disconnected, out_of_events, slice_contains,
  wait_for_caps,
}
use irc_go.IrcEvent.Connection.{
  ClientError, server_timed_out, server_disconnected, sasl_failed, Config, Connection, is_empty,
  close_end, prepare, open_socket,
}
use irc_go.IrcEvent.Connection.Sending.{Run, done, waits, crashes, send, and_then}

-- What the SASL part of `negotiateCaps` waits for; a result carries an error if it failed.
pub data SaslEvent : Type 0 where
  sasl_result : Option ClientError → SaslEvent
  sasl_timeout sasl_end : SaslEvent

-- What `Connect` waits for in the end.
pub data WelcomeEvent : Type 0 where
  welcomed welcome_end welcome_timeout : WelcomeEvent

abbrev pub with_error : Option ClientError → Run → Run
with_error err (done _ c) = done err c
with_error err waits = waits
with_error err crashes = crashes

abbrev pub on_success : Run → (Connection → Run) → Run
on_success (done none c) k = k c
on_success (done (some err) c) k = done (some err) c
on_success waits k = waits
on_success crashes k = crashes

-- The closure `saslError`.
abbrev pub sasl_error_of : Config → Option ClientError → Option ClientError
sasl_error_of config err = if not config.sasl_optional then err else none

abbrev pub sasl_outcome : Config → SaslEvent → Option ClientError
sasl_outcome config (sasl_result none) = none
sasl_outcome config (sasl_result (some err)) = sasl_error_of config (some err)
sasl_outcome config sasl_timeout = sasl_error_of config (some sasl_failed)
sasl_outcome config sasl_end = some server_disconnected

abbrev pub welcome_error : WelcomeEvent → Option ClientError
welcome_error welcomed = none
welcome_error welcome_end = some server_disconnected
welcome_error welcome_timeout = some server_timed_out

-- A return with the deferred CAP END.
abbrev pub cap_end_sent : Option ClientError → Connection → Run
cap_end_sent err c = with_error err (send c (codes "CAP") (codes "END" ∷ []))

abbrev pub no_caps : List Bytes → Bool
no_caps [] = true
no_caps (_ ∷ _) = false

-- WEBIRC and PASS.
unfoldable pub greet : Config → Connection → Run
greet config c =
    and_then
      (if no_caps config.web_irc then done none c else send c (codes "WEBIRC") config.web_irc)
      (λ c1.
        if is_empty config.password
        then done none c1
        else send c1 (codes "PASS") (config.password ∷ []))

-- The deferred cleanup.
abbrev pub cleaned : Run → Run
cleaned (done none c) = done none c
cleaned (done (some err) c) = elim (close_end c) [ none ↦ crashes | some c1 ↦ done (some err) c1 ]
cleaned waits = waits
cleaned crashes = crashes

abbrev pub user_params : Config → List Bytes
user_params config =
    config.user
    ∷ codes "s"
    ∷ codes "e"
    ∷ (if is_empty config.real_name then config.user else config.real_name)
    ∷ []

module _ (other : Connection → Connection) where
  abbrev pub negotiate_sasl : Config → List Bytes → SaslEvent → Connection → Run
  negotiate_sasl config acked sasl c =
      if not config.use_sasl
      then cap_end_sent none c
      else if not (slice_contains (codes "sasl") acked)
      then cap_end_sent (sasl_error_of config (some sasl_failed)) c
      else and_then (send c (codes "AUTHENTICATE") (config.sasl_mech ∷ []))
          (λ c1. cap_end_sent (sasl_outcome config sasl) (other c1))

  abbrev pub after_caps : Config → Waited × List Bytes → SaslEvent → Connection → Run
  after_caps config (all_answered, acked) sasl c = negotiate_sasl config acked sasl c
  after_caps config (timed_out, _) sasl c = cap_end_sent none c
  after_caps config (disconnected, _) sasl c = cap_end_sent (some server_disconnected) c
  after_caps config (out_of_events, _) sasl c = waits

  -- `negotiateCaps`, without the deferred `processAckedCaps`, which works on other fields.
  unfoldable pub negotiate_caps : Config → List CapEvent → SaslEvent → Connection → Run
  negotiate_caps config events sasl c =
      if no_caps config.request_caps
      then done none c
      else and_then (send c (codes "CAP") (codes "LS" ∷ codes "302" ∷ [])) (λ c1.
        after_caps config (wait_for_caps (length config.request_caps) [] events) sasl (other c1))

  unfoldable pub introduce : Config → WelcomeEvent → Connection → Run
  introduce config event c = and_then (send c (codes "NICK") (c.config.nick ∷ [])) (λ c1.
      and_then (send c1 (codes "USER") (user_params config))
        (λ c2. done (welcome_error event) (other c2)))

  abbrev pub dialed_out :
      Option ClientError → List CapEvent → SaslEvent → WelcomeEvent → Connection → Run
  dialed_out (some err) events sasl event c = done (some err) c
  dialed_out none events sasl event c = cleaned (
      and_then (greet c.config (open_socket c)) (λ c1.
        on_success (negotiate_caps c.config events sasl c1) (λ c2. introduce c.config event c2)))

  abbrev pub prepared :
      Option ClientError × Connection
      → Option ClientError
      → List CapEvent
      → SaslEvent
      → WelcomeEvent
      → Run
  prepared (some err, c) dialed events sasl event = done (some err) c
  prepared (none, c) dialed events sasl event = dialed_out dialed events sasl event c

  -- `Connect`; `dialed` is the error of `dial`.
  unfoldable pub connect :
      Option ClientError → List CapEvent → SaslEvent → WelcomeEvent → Connection → Run
  unfolding negotiate_caps greet introduce
  connect dialed events sasl event c = prepared (prepare c) dialed events sasl event
