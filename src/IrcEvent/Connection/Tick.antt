-- ===== src/IrcEvent/Connection/Tick.antt =====
-- The keep-alive: a PING that no PONG answers ends the connection.
use irc_go.Prelude.{
  ℕ, ◌/◌, ◌==◌, ◌||◌, true, false, ◌++◌, none, some, ◌≡◌, refl, inl, inr, arith, Bytes, has_prefix,
  Option-cases,
}
use irc_go.IrcEvent.Connection.{
  server_timed_out, Connection, TickAction, no_action, keepalive_prefix, is_int64, record_pong,
  tick_state,
}

pinged :
    (c c1 : Connection) (now tick : ℕ) (a : TickAction)
    → tick_state c now tick ≡ some (a, c1)
    → a.should_ping ≡ true
    → (c1 ≡ record c { ping_sent = true })
      × ((c.config.timeout == 0 || c.config.keep_alive / c.config.timeout == 0) ≡ false)
unfolding tick_state
pinged c c1 now tick a e h = ground arith

record_pong_clears :
    (c : Connection) (ts : Bytes)
    → is_int64 ts ≡ true
    → record_pong c (keepalive_prefix ++ ts) ≡ record c { ping_sent = false }
unfolding record_pong has_prefix
record_pong_clears c ts h = rw h refl

pub unanswered :
    (c : Connection) (now tick : ℕ)
    → c.quit ≡ false
    → c.ping_sent ≡ true
    → tick_state c now tick ≡ some (record no_action { fatal = some server_timed_out }, c)
unfolding tick_state
unanswered c now tick q h = rw (q, h) refl

answered :
    (c : Connection) (now tick : ℕ)
    → c.quit ≡ false
    → c.ping_sent ≡ false
    → (c.config.timeout == 0 || c.config.keep_alive / c.config.timeout == 0) ≡ false
    → (out : TickAction × Connection) × (tick_state c now tick ≡ some out) × (out.0.fatal ≡ none)
unfolding tick_state
answered c now tick q h k = elim (Option-cases (tick_state c now tick)) [
  | inl e ↦ absurd (ground arith)
  | inr (out, e) ↦ (out, e, ground arith)
]

-- After a tick that sends a PING, while the client does not quit: the next tick, at whatever time,
-- ends the connection as timed out, unless the server sends back the text of a PING in between; then
-- no tick ends it.
pub tick_state_answered :
    (c c1 : Connection) (now later tick next : ℕ) (a : TickAction) (ts : Bytes)
    → c.quit ≡ false
    → tick_state c now tick ≡ some (a, c1)
    → a.should_ping ≡ true
    → is_int64 ts ≡ true
    → (tick_state c1 later next ≡ some (record no_action { fatal = some server_timed_out }, c1))
      × ((out : TickAction × Connection) × (tick_state
              (record_pong c1 (keepalive_prefix ++ ts))
              later
              next
            ≡ some out)
          × (out.0.fatal ≡ none))
tick_state_answered c c1 now later tick next a ts q e h k =
    let (sent, modulus) = pinged c c1 now tick a e h in
    (
      rw sent (unanswered (record c { ping_sent = true }) later next q refl),
      rw (record_pong_clears c1 ts k)
          (rw sent (answered (record c { ping_sent = false }) later next q refl modulus)),
    )
