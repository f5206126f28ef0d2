-- ===== src/IrcEvent/Connection/Sending/PingLoop.antt =====
-- ircevent/irc.go: `pingLoop`, which finds out that a server no longer answers.
use native.Mathlib.Nat.{mod_self}
use irc_go.Prelude.{
  ℕ, zero, suc, ◌+◌, ◌-◌, ◌%◌, ◌/◌, ◌≤◌, ◌<◌, ◌==◌, true, false, List, [], ◌∷◌, Bytes, length,
  Option, none, some, ◌≡◌, ◌⊎◌, refl, sym, ap, subst, ◌∙◌, inl, inr, arith, Bool-cases,
  if◌then◌else◌,
}
use irc_go.IrcEvent.Connection.{ClientError, server_timed_out, Connection}
use irc_go.IrcEvent.Connection.Lifecycle.{Reachable, IsSound, Reachable-IsSound}
use irc_go.IrcEvent.Connection.Sending.{Run, done, and_then, process_tick}
use irc_go.IrcEvent.Connection.Sending.UpTicks.{
  IsUp, expired, tick_timed_out, tick_not_due, and_then-runs, tick_due, kept-IsUp, kept_sent,
  done-state, live-IsUp,
}

-- The loop on its ticks, each with the time and its text, from the number of the last tick on. It
-- looks at `end` before each of them. What the other goroutines do to the connection before a tick is
-- a function of the tick's number and of the connection.
module _ (other : ℕ → Connection → Connection) where
  unfoldable pub ping_loop : ℕ → List (ℕ × Bytes) → Connection → Run
  ping_loop tick [] c = done none c
  ping_loop tick ((now, time) ∷ ticks) c =
      let seen = other (tick + 1) c in
      if seen.end_closed
      then done none seen
      else and_then (process_tick seen now (tick + 1) time) (λ c1. ping_loop (tick + 1) ticks c1)

-- A connection that was stopped, by the loop with ServerTimedOut or by others with one of `errors`.
unfoldable pub IsEnded : (ClientError → Type 0) → Connection → Type 0
IsEnded errors c =
    (c.running ≡ false)
    × (c.end_closed ≡ true)
    × ((e : ClientError) × (c.last_error ≡ some e) × ((e ≡ server_timed_out) ⊎ errors e))

unfoldable pub IsAsBefore : Connection → Connection → Type 0
IsAsBefore c d =
    (d.running ≡ c.running) × (d.end_closed ≡ c.end_closed) × (d.last_error ≡ c.last_error)

-- Others send and receive, but no PONG, and do not quit; they may stop the connection with one of
-- `errors`, and leave it stopped.
pub record IsSilent (errors : ClientError → Type 0) (other : ℕ → Connection → Connection)
    : Type 0 where
  pub same_config : (n : ℕ) (c : Connection) → (other n c).config ≡ c.config
  pub no_quit : (n : ℕ) (c : Connection) → (other n c).quit ≡ c.quit
  pub no_pong : (n : ℕ) (c : Connection) → c.ping_sent ≡ true → (other n c).ping_sent ≡ true
  pub goes_on :
      (n : ℕ) (c : Connection)
      → c.end_closed ≡ false
      → IsAsBefore c (other n c) ⊎ IsEnded errors (other n c)
  pub stays : (n : ℕ) (c : Connection) → c.end_closed ≡ true → IsAsBefore c (other n c)

module _ (errors : ClientError → Type 0) (other : ℕ → Connection → Connection)
    (silent : IsSilent errors other) where
  -- What the loop finds at a tick.
  found : (m n : ℕ) (c : Connection) → IsUp m c → IsUp m (other n c) ⊎ IsEnded errors (other n c)
  unfolding IsAsBefore
  found m n c up = elim (silent.goes_on n c up.is_open) [
    | inr ended ↦ inr ended
    | inl (p, q, r) ↦
        let same = silent.same_config n c in
        inl (record {
          is_running = p ∙ up.is_running;
          is_open = q ∙ up.is_open;
          no_error = r ∙ up.no_error;
          no_quit = silent.no_quit n c ∙ up.no_quit;
          divides = rw same up.divides;
          modulus = rw same up.modulus;
        })
  ]

  stays_ended : (n : ℕ) (c : Connection) → IsEnded errors c → IsEnded errors (other n c)
  unfolding IsEnded IsAsBefore
  stays_ended n c (p, q, (e, l, o)) =
      let (running, closed, error) = silent.stays n c q in
      (running ∙ p, closed ∙ q, (e, error ∙ l, o))

  closed_tick :
      (tick now : ℕ) (time : Bytes) (ticks : List (ℕ × Bytes)) (c : Connection)
      → (other (tick + 1) c).end_closed ≡ true
      → ping_loop other tick ((now, time) ∷ ticks) c ≡ done none (other (tick + 1) c)
  unfolding ping_loop
  closed_tick tick now time ticks c h = rw h refl

  next_tick :
      (tick now : ℕ) (time : Bytes) (ticks : List (ℕ × Bytes)) (c : Connection)
      → (other (tick + 1) c).end_closed ≡ false
      → ping_loop other tick ((now, time) ∷ ticks) c
        ≡ and_then
            (process_tick (other (tick + 1) c) now (tick + 1) time)
            (λ c1. ping_loop other (tick + 1) ticks c1)
  unfolding ping_loop
  next_tick tick now time ticks c h = rw h refl

  found_ended :
      (tick now : ℕ) (time : Bytes) (ticks : List (ℕ × Bytes)) (c c' : Connection)
      (e : Option ClientError)
      → IsEnded errors (other (tick + 1) c)
      → ping_loop other tick ((now, time) ∷ ticks) c ≡ done e c'
      → IsEnded errors c'
  found_ended tick now time ticks c c' e ended h =
      let closed : (other (tick + 1) c).end_closed ≡ true = unfold IsEnded in ended.1 in
      subst (IsEnded errors)
        (done-state none e (other (tick + 1) c) c'
          (sym (closed_tick tick now time ticks c closed) ∙ h))
        ended

  loop_ended :
      (tick : ℕ) (ticks : List (ℕ × Bytes)) (c c' : Connection) (e : Option ClientError)
      → IsEnded errors c
      → ping_loop other tick ticks c ≡ done e c'
      → IsEnded errors c'
  unfolding ping_loop
  loop_ended tick [] c c' e ended h = subst (IsEnded errors) (done-state none e c c' h) ended
  loop_ended tick ((now, time) ∷ ticks) c c' e ended h =
      found_ended tick now time ticks c c' e (stays_ended (tick + 1) c ended) h

  expired-IsEnded : (c : Connection) → IsEnded errors (expired c)
  unfolding IsEnded
  expired-IsEnded c = (refl, refl, (server_timed_out, refl, inl refl))

  -- An open connection whose PING is unanswered, as a tick finds it.
  tick_ends :
      (m : ℕ) (c c' : Connection) (tick now : ℕ) (time : Bytes) (ticks : List (ℕ × Bytes))
      (e : Option ClientError)
      → IsUp m (other (tick + 1) c)
      → (other (tick + 1) c).ping_sent ≡ true
      → ping_loop other tick ((now, time) ∷ ticks) c ≡ done e c'
      → IsEnded errors c'
  tick_ends m c c' tick now time ticks e up sent h =
      let seen = other (tick + 1) c in
      let stop = tick_timed_out m seen now (tick + 1) time up sent in
      let first : ping_loop other tick ((now, time) ∷ ticks) c
          ≡ ping_loop other (tick + 1) ticks (expired seen) =
        next_tick tick now time ticks c up.is_open
        ∙ ap (λ r. and_then r (λ c1. ping_loop other (tick + 1) ticks c1)) stop in
      loop_ended (tick + 1) ticks (expired seen) c' e (expired-IsEnded seen) (sym first ∙ h)

  loop_times_out :
      (m : ℕ) (c c' : Connection) (tick : ℕ) (ticks : List (ℕ × Bytes)) (e : Option ClientError)
      → IsUp m c
      → c.ping_sent ≡ true
      → 0 < length ticks
      → ping_loop other tick ticks c ≡ done e c'
      → IsEnded errors c'
  loop_times_out m c c' tick [] e up sent l h = absurd (omega arith)
  loop_times_out m c c' tick ((now, time) ∷ ticks) e up sent l h = elim (found m (tick + 1) c up) [
    | inr ended ↦ found_ended tick now time ticks c c' e ended h
    | inl seen ↦ tick_ends m c c' tick now time ticks e seen (silent.no_pong (tick + 1) c sent) h
  ]

  -- Behind a tick that sends a PING.
  due_tick :
      (m : ℕ) (seen c1 c' : Connection) (now tick : ℕ) (time : Bytes) (ticks : List (ℕ × Bytes))
      (x e : Option ClientError)
      → IsUp m seen
      → seen.ping_sent ≡ false
      → ((tick + 1) % m == 0) ≡ true
      → process_tick seen now (tick + 1) time ≡ done x c1
      → 0 < length ticks
      → ping_loop other (tick + 1) ticks c1 ≡ done e c'
      → IsEnded errors c'
  due_tick m seen c1 c' now tick time ticks x e up unsent due ticked l h =
      let kept = tick_due m seen c1 now (tick + 1) time x up unsent due ticked in
      loop_times_out m c1 c' (tick + 1) ticks e (kept-IsUp m seen c1 up kept)
        (kept_sent seen c1 kept) l h

  loop_detects :
      (m j : ℕ) (c c' : Connection) (tick : ℕ) (ticks : List (ℕ × Bytes)) (e : Option ClientError)
      → IsUp m c
      → ((tick + suc j) % m == 0) ≡ true
      → j + 2 ≤ length ticks
      → ping_loop other tick ticks c ≡ done e c'
      → IsEnded errors c'
  loop_detects m j c c' tick [] e up due l h = absurd (omega arith)
  loop_detects m zero c c' tick ((now, time) ∷ ticks) e up due l h =
      elim (found m (tick + 1) c up) [
        | inr ended ↦ found_ended tick now time ticks c c' e ended h
        | inl seen ↦ elim (Bool-cases (other (tick + 1) c).ping_sent) [
          | inl sent ↦ tick_ends m c c' tick now time ticks e seen sent h
          | inr unsent ↦
              let (c1, x, ticked, rest) =
                and_then-runs (process_tick (other (tick + 1) c) now (tick + 1) time)
                  (λ y. ping_loop other (tick + 1) ticks y) e c'
                  (sym (next_tick tick now time ticks c seen.is_open) ∙ h) in
              due_tick m (other (tick + 1) c) c1 c' now tick time ticks x e seen unsent due ticked
                (omega arith) rest
        ]
      ]
  loop_detects m (suc j) c c' tick ((now, time) ∷ ticks) e up due l h =
      elim (found m (tick + 1) c up) [
        | inr ended ↦ found_ended tick now time ticks c c' e ended h
        | inl seen ↦ elim (Bool-cases (other (tick + 1) c).ping_sent) [
          | inl sent ↦ tick_ends m c c' tick now time ticks e seen sent h
          | inr unsent ↦
              let (c1, x, ticked, rest) =
                and_then-runs (process_tick (other (tick + 1) c) now (tick + 1) time)
                  (λ y. ping_loop other (tick + 1) ticks y) e c'
                  (sym (next_tick tick now time ticks c seen.is_open) ∙ h) in
              elim (Bool-cases ((tick + 1) % m == 0)) [
                | inl now_due ↦
                    due_tick m (other (tick + 1) c) c1 c' now tick time ticks x e seen unsent
                      now_due ticked (omega arith) rest
                | inr not_due ↦
                    let same : other (tick + 1) c ≡ c1 = done-state none x (other (tick + 1) c) c1 (
                      sym (
                        tick_not_due m (other (tick + 1) c) now (tick + 1) time seen unsent not_due)
                      ∙ ticked) in
                    loop_detects m j c1 c' (tick + 1) ticks e (subst (IsUp m) same seen)
                      (ap (λ n. n % m == 0) (omega arith) ∙ due) (omega arith) rest
              ]
        ]
      ]

-- The loop of a reachable connection that is running, where others neither receive a PONG nor quit
-- but may send, and may stop the connection with one of `errors`: when it has gone through KeepAlive /
-- Timeout + 1 ticks or has returned before, the connection is stopped and `end` closed, and the error
-- that it keeps is ServerTimedOut or the one of those others.
pub ping_loop_detects :
    (errors : ClientError → Type 0) (other : ℕ → Connection → Connection) (c c' : Connection)
    (ticks : List (ℕ × Bytes)) (e : Option ClientError)
    → IsSilent errors other
    → Reachable c
    → c.running ≡ true
    → c.quit ≡ false
    → c.config.keep_alive / c.config.timeout + 1 ≤ length ticks
    → ping_loop other 0 ticks c ≡ done e c'
    → IsEnded errors c'
unfolding IsSound
ping_loop_detects errors other c c' ticks e silent r running q l h = elim (Reachable-IsSound c r) [
  | inl k ↦ absurd (ground arith)
  | inr live ↦
      let m = c.config.keep_alive / c.config.timeout in
      let up = live-IsUp c running q live in
      let positive : 0 < m = ground (arith, up.divides) in
      loop_detects errors other silent m (m - 1) c c' 0 ticks e up
        (ap (λ n. n % m == 0) (omega arith) ∙ ap (λ n. n == 0) (mod_self m)) (omega arith) h
]
