-- ===== src/IrcEvent/Connection/Loop.antt =====
-- ircevent/irc.go: `Loop`, which connects again when a connection has stopped, `waitForStop` and
-- `Reconnect`. The clock, the signal of `Reconnect` and what `Connect` leaves are arguments; `Loop` is
-- entered, and `Connect` left, with the goroutines that `waitForStop` waits for.
use irc_go.Prelude.{
  ℕ, ◌+◌, ◌-◌, ◌≤◌, Bool, true, false, List, [], ◌∷◌, ◌++◌, map, Option, none, some, ◌≡◌, ◌⊎◌, refl,
  ap, inl, inr, arith, Bool-cases, if◌then◌else◌,
}
use irc_go.IrcEvent.Labels.Waiting.{waiting, callback_of, expire_labels-force}
use irc_go.IrcEvent.Batches.{Batches, expire_batches}
use irc_go.IrcEvent.Connection.{Connection, close_end}

-- `waitForStop` behind the channel and the wait group: the callbacks that are called with nil.
unfoldable pub wait_for_stop : {L : Type 0} → Batches L → ℕ → ℕ → List L × Batches L
unfolding expire_batches
wait_for_stop st now keep_alive = expire_batches st true now keep_alive

-- `Reconnect`; the signal is taken if `Loop` is waiting.
unfoldable pub reconnect : Connection → Bool → Option (Bool × Connection)
unfolding close_end
reconnect c loop_waits = elim (close_end c) [ none ↦ none | some c' ↦ some (loop_waits, c') ]

-- `time.Until(lastReconnect.Add(irc.ReconnectFreq))`; the zero time is long over.
unfoldable pub reconnect_delay : Option ℕ → ℕ → ℕ → ℕ
reconnect_delay none freq now = 0
reconnect_delay (some last) freq now = last + freq - now

-- A call of `Connect` by the loop: its time, the frequency in force, and whether it was signalled.
pub record Attempt : Type 0 where
  pub at : ℕ
  pub freq : ℕ
  pub by_signal : Bool

-- Each call, unless a signal asked for it, is no earlier than the one before and the frequency allow.
unfoldable pub AreSpaced : Option ℕ → List Attempt → Type 0
AreSpaced last [] = Unit {0}
AreSpaced none (a ∷ attempts) = AreSpaced (some a.at) attempts
AreSpaced (some last) (a ∷ attempts) =
    ((a.by_signal ≡ true) ⊎ (last + a.freq ≤ a.at)) × AreSpaced (some a.at) attempts

-- One pass of the loop: when the delay is computed, whether `reconnSig` ends the wait, for how long the
-- pass takes longer than it has to, and what `Connect` leaves.
pub record Pass (L : Type 0) : Type 0 where
  pub now : ℕ
  pub signalled : Bool
  pub extra : ℕ
  pub connected : Connection × Batches L → Connection × Batches L

-- What the loop has done: its calls of `Connect`, the callbacks that it has called with nil, whether it
-- has returned, and the state.
pub record LoopRun (L : Type 0) : Type 0 where
  pub attempts : List Attempt
  pub called : List L
  pub has_returned : Bool
  pub connection : Connection
  pub batches : Batches L

module _ {L : Type 0} where
  -- `lastReconnect = time.Now()`: behind the wait, unless that was cut short.
  unfoldable pub woken : Option ℕ → ℕ → Pass L → ℕ
  unfolding reconnect_delay
  woken last freq p =
      if p.signalled then p.now + p.extra else p.now + reconnect_delay last freq p.now + p.extra

  -- The loop on its passes.
  unfoldable pub loop : Option ℕ → List (Pass L) → Connection → Batches L → LoopRun L
  unfolding wait_for_stop
  loop last [] c batches = record {
    attempts = [];
    called = [];
    has_returned = false;
    connection = c;
    batches = batches;
  }
  loop last (p ∷ passes) c batches =
      let (failed, stopped) = wait_for_stop batches p.now c.config.keep_alive in
      let at = woken last c.config.reconnect_freq p in
      let (c', batches') = p.connected (c, stopped) in
      let rest = loop (some at) passes c' batches' in
      if c.quit
      then record {
        attempts = [];
        called = failed;
        has_returned = true;
        connection = c;
        batches = stopped;
      }
      else record rest {
        attempts =
            record { at = at; freq = c.config.reconnect_freq; by_signal = p.signalled }
            ∷ rest.attempts;
        called = failed ++ rest.called;
      }

  woken-later :
      (last freq : ℕ) (p : Pass L) → (p.signalled ≡ true) ⊎ (last + freq ≤ woken (some last) freq p)
  unfolding woken
  woken-later last freq p = elim (Bool-cases p.signalled) [
    | inl h ↦ inl h
    | inr h ↦ inr (rw h (omega arith))
  ]

  spaced_first :
      (last : Option ℕ) (freq : ℕ) (p : Pass L) (rest : List Attempt)
      → AreSpaced (some (woken last freq p)) rest
      → AreSpaced last
          (record { at = woken last freq p; freq = freq; by_signal = p.signalled } ∷ rest)
  unfolding AreSpaced
  spaced_first none freq p rest h = h
  spaced_first (some last) freq p rest h = (woken-later last freq p, h)

  wait_for_stop-waiting :
      (batches : Batches L) (now keep_alive : ℕ)
      → waiting (wait_for_stop batches now keep_alive).1.labels ≡ []
  unfolding wait_for_stop waiting
  wait_for_stop-waiting batches now keep_alive =
      ap (map callback_of) (expire_labels-force now keep_alive batches.labels.label_callbacks)

  -- Whatever happens while it waits and in `Connect`: `Loop` calls `Connect` again no earlier than
  -- ReconnectFreq, as it is set by then, after its last call, except where `Reconnect` has cut the wait
  -- short; and if it returns, then the client quits, and no callback for a label waits any longer.
  pub loop-IsOrderly :
      (last : Option ℕ) (passes : List (Pass L)) (c : Connection) (batches : Batches L)
      → (let run = loop last passes c batches in
          AreSpaced last run.attempts
          × ((run.has_returned ≡ false)
              ⊎ ((run.connection.quit ≡ true) × (waiting run.batches.labels ≡ []))))
  unfolding loop AreSpaced
  loop-IsOrderly last [] c batches = (tt, inl refl)
  loop-IsOrderly last (p ∷ passes) c batches = elim (Bool-cases c.quit) [
    | inl h ↦ simp h (tt, inr (refl, wait_for_stop-waiting batches p.now c.config.keep_alive))
    | inr h ↦
        let after = p.connected (c, (wait_for_stop batches p.now c.config.keep_alive).1) in
        let at = woken last c.config.reconnect_freq p in
        let (spaced, returned) = loop-IsOrderly (some at) passes after.0 after.1 in
        simp h (
          spaced_first last c.config.reconnect_freq p
              (loop (some at) passes after.0 after.1).attempts spaced,
          returned,
        )
  ]
