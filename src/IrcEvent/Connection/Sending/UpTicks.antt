-- ===== src/IrcEvent/Connection/Sending/UpTicks.antt =====
-- What one tick does to a connection that is running.
use irc_go.Prelude.{
  ℕ, ◌%◌, ◌/◌, ◌<◌, ◌==◌, ◌||◌, not, true, false, [], ◌∷◌, codes, Bytes, bytes_eq, Option, none,
  some, ◌≡◌, refl, sym, ap, subst, ◌∙◌, arith, if◌then◌else◌,
}
use irc_go.IrcEvent.Connection.{
  ClientError, server_timed_out, Connection, TickAction, no_action, close_end, set_error,
  tick_state,
}
use irc_go.IrcEvent.Connection.Lifecycle.{IsLive}
use irc_go.IrcEvent.Connection.Tick.{unanswered}
use irc_go.IrcEvent.Connection.Sending.{
  Run, done, waits, crashes, send, ping, and_then, act, stopped, process_tick,
}
use irc_go.IrcEvent.Connection.Sending.Kept.{KeepsState, KeepsState-trans, renick_kept, ping_kept}

-- A running connection that does not quit and whose ticks do not divide by zero.
pub record IsUp (m : ℕ) (c : Connection) : Type 0 where
  pub is_running : c.running ≡ true
  pub is_open : c.end_closed ≡ false
  pub no_error : c.last_error ≡ none
  pub no_quit : c.quit ≡ false
  pub divides : (c.config.timeout == 0 || c.config.keep_alive / c.config.timeout == 0) ≡ false
  pub modulus : c.config.keep_alive / c.config.timeout ≡ m

abbrev pub expired : Connection → Connection
expired c = record c { last_error = some server_timed_out; running = false; end_closed = true }

set_error-IsUp :
    (m : ℕ) (c : Connection) → IsUp m c → set_error c server_timed_out ≡ some (expired c)
unfolding set_error close_end
set_error-IsUp m c up = rw up.no_error (rw (up.is_running, up.is_open) refl)

pub tick_timed_out :
    (m : ℕ) (c : Connection) (now tick : ℕ) (time : Bytes)
    → IsUp m c
    → c.ping_sent ≡ true
    → process_tick c now tick time ≡ done none (expired c)
unfolding process_tick
tick_timed_out m c now tick time up sent =
    ap (λ o. act o time) (unanswered c now tick up.no_quit sent)
    ∙ ap stopped (set_error-IsUp m c up)

pub tick_not_due :
    (m : ℕ) (c : Connection) (now tick : ℕ) (time : Bytes)
    → IsUp m c
    → c.ping_sent ≡ false
    → (tick % m == 0) ≡ false
    → process_tick c now tick time ≡ done none c
unfolding process_tick tick_state
tick_not_due m c now tick time up unsent due =
    let later : (tick % (c.config.keep_alive / c.config.timeout) == 0) ≡ false =
      rw up.modulus due in
    let out : tick_state c now tick ≡ some (no_action, c) =
      rw (up.no_quit, unsent) (rw up.divides (rw later refl)) in
    ap (λ o. act o time) out

pub and_then-runs :
    (r : Run) (k : Connection → Run) (e : Option ClientError) (c' : Connection)
    → and_then r k ≡ done e c'
    → (c : Connection) × (x : Option ClientError) × (r ≡ done x c) × (k c ≡ done e c')
and_then-runs (done x c) k e c' h = (c, x, refl, h)
and_then-runs waits k e c' h = absurd (ground arith)
and_then-runs crashes k e c' h = absurd (ground arith)

pub tick_due :
    (m : ℕ) (c c' : Connection) (now tick : ℕ) (time : Bytes) (e : Option ClientError)
    → IsUp m c
    → c.ping_sent ≡ false
    → (tick % m == 0) ≡ true
    → process_tick c now tick time ≡ done e c'
    → KeepsState (record c { ping_sent = true }) c'
unfolding process_tick tick_state
tick_due m c c' now tick time e up unsent due h =
    let now_due : (tick % (c.config.keep_alive / c.config.timeout) == 0) ≡ true =
      rw up.modulus due in
    let action : TickAction = record {
      fatal = none;
      should_ping = true;
      should_renick = not (bytes_eq c.current_nick c.config.nick);
    } in
    let out : tick_state c now tick ≡ some (action, record c { ping_sent = true }) =
      rw (up.no_quit, unsent) (rw up.divides (rw now_due refl)) in
    let c0 : Connection = record c { ping_sent = true } in
    let run : act (some (action, c0)) time ≡ done e c' = ap (λ o. act o time) (sym out) ∙ h in
    let (c1, x, sent, rest) =
      and_then-runs (ping c0 time)
        (λ y.
          if action.should_renick then send y (codes "NICK") (y.config.nick ∷ []) else done none y)
        e c' run in
    KeepsState-trans c0 c1 c' (ping_kept c0 c1 time x sent)
      (renick_kept c1 c' action.should_renick e rest)

pub kept-IsUp :
    (m : ℕ) (c c' : Connection)
    → IsUp m c
    → KeepsState (record c { ping_sent = true }) c'
    → IsUp m c'
unfolding KeepsState
kept-IsUp m c c' up (w, e) = subst (IsUp m) (sym e) (record {
  is_running = up.is_running;
  is_open = up.is_open;
  no_error = up.no_error;
  no_quit = up.no_quit;
  divides = up.divides;
  modulus = up.modulus;
})

pub kept_sent :
    (c c' : Connection) → KeepsState (record c { ping_sent = true }) c' → c'.ping_sent ≡ true
unfolding KeepsState
kept_sent c c' (w, e) = ap (λ x. x.ping_sent) e

pub done-state : (x y : Option ClientError) (c c' : Connection) → done x c ≡ done y c' → c ≡ c'
done-state x y c c' e = ground arith

pub live-IsUp :
    (c : Connection)
    → c.running ≡ true
    → c.quit ≡ false
    → IsLive c
    → IsUp (c.config.keep_alive / c.config.timeout) c
unfolding IsLive
live-IsUp c running q (is_open, no_error, p, r) = record {
  is_running = running;
  is_open = is_open;
  no_error = no_error;
  no_quit = q;
  divides = let k : 0 < c.config.keep_alive / c.config.timeout = grind arith in ground arith;
  modulus = refl;
}
