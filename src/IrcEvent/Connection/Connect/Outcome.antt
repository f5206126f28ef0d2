-- ===== src/IrcEvent/Connection/Connect/Outcome.antt =====
-- What holds when `Connect` returns.
use irc_go.Prelude.{
  false, List, Option, none, some, ◌≡◌, refl, subst, inl, inr, arith, Bool-cases, Option-cases,
}
use irc_go.IrcEvent.Caps.{CapEvent}
use irc_go.IrcEvent.Connection.{ClientError, Connection, close_end, prepare}
use irc_go.IrcEvent.Connection.Sending.{Run, done, waits, crashes}
use irc_go.IrcEvent.Connection.Connect.{SaslEvent, WelcomeEvent, cleaned, prepared, connect}

close_end_stopped : (c c' : Connection) → close_end c ≡ some c' → c'.running ≡ false
unfolding close_end
close_end_stopped c c' e = ground arith

prepare_stopped : (c : Connection) → c.running ≡ false → (prepare c).1.running ≡ false
unfolding prepare
prepare_stopped c h = elim (Bool-cases c.quit) [ inl k ↦ rw k h | inr k ↦ rw k refl ]

module _ (other : Connection → Connection) where
  cleaned_stopped :
      (r : Run) (err : ClientError) (c' : Connection)
      → cleaned r ≡ done (some err) c'
      → c'.running ≡ false
  cleaned_stopped (done none c) err c' e = absurd (ground arith)
  cleaned_stopped (done (some x) c) err c' e = elim (Option-cases (close_end c)) [
    | inl k ↦ absurd (ground arith)
    | inr (d, k) ↦ close_end_stopped c c' (ground arith)
  ]
  cleaned_stopped waits err c' e = absurd (ground arith)
  cleaned_stopped crashes err c' e = absurd (ground arith)

  prepared_stopped :
      (p : Option ClientError × Connection) (dialed : Option ClientError) (events : List CapEvent)
      (sasl : SaslEvent) (event : WelcomeEvent) (err : ClientError) (c' : Connection)
      → p.1.running ≡ false
      → prepared other p dialed events sasl event ≡ done (some err) c'
      → c'.running ≡ false
  prepared_stopped (some x, c) dialed events sasl event err c' h e =
      let k : c ≡ c' = ground arith in subst (λ d. d.running ≡ false) k h
  prepared_stopped (none, c) (some x) events sasl event err c' h e =
      let k : c ≡ c' = ground arith in subst (λ d. d.running ≡ false) k h
  prepared_stopped (none, c) none events sasl event err c' h e = cleaned_stopped _ err c' e

  -- A call of `Connect` on a client that is not running leaves it stopped if it returns an error,
  -- wherever the error comes from and whatever other goroutines did to the connection meanwhile.
  pub connect_fails_stopped :
      (dialed : Option ClientError) (events : List CapEvent) (sasl : SaslEvent)
      (event : WelcomeEvent) (c c' : Connection) (err : ClientError)
      → c.running ≡ false
      → connect other dialed events sasl event c ≡ done (some err) c'
      → c'.running ≡ false
  unfolding connect
  connect_fails_stopped dialed events sasl event c c' err h e =
      prepared_stopped (prepare c) dialed events sasl event err c' (prepare_stopped c h) e
