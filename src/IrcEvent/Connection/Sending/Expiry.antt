-- ===== src/IrcEvent/Connection/Sending/Expiry.antt =====
-- The tick that finds a PING unanswered.
use irc_go.Prelude.{ℕ, true, false, Bytes, none, some, ◌≡◌, ap, ◌∙◌, inl, inr, arith}
use irc_go.IrcEvent.Connection.{server_timed_out, Connection}
use irc_go.IrcEvent.Connection.Lifecycle.{
  Reachable, IsSound, IsLive, Reachable-IsSound, first_error, set_error_stops,
}
use irc_go.IrcEvent.Connection.Tick.{unanswered}
use irc_go.IrcEvent.Connection.Sending.{done, act, stopped, process_tick}

-- A tick of a running client that does not quit and whose PING is unanswered stops it, without a
-- panic, and leaves ServerTimedOut as its error.
pub process_tick_times_out :
    (c : Connection) (now tick : ℕ) (time : Bytes)
    → Reachable c
    → c.running ≡ true
    → c.quit ≡ false
    → c.ping_sent ≡ true
    → (c' : Connection) × (process_tick c now tick time ≡ done none c')
      × (c'.running ≡ false)
      × (c'.last_error ≡ some server_timed_out)
unfolding process_tick IsSound IsLive
process_tick_times_out c now tick time r running q sent = elim (Reachable-IsSound c r) [
  | inl h ↦ absurd (ground arith)
  | inr (_, no_error, _, _) ↦
      let (c', out, stops, err) = (set_error_stops c server_timed_out r).1 in
      (
        c',
        ap (λ o. act o time) (unanswered c now tick q sent) ∙ ap stopped out,
        stops,
        err ∙ ap (λ e. first_error e server_timed_out) no_error,
      )
]
