-- ===== src/IrcEvent/Connection/ReadLoop.antt =====
-- ircevent/irc.go: `readLoop`, which hands the lines of `readMsgLoop` to `runCallbacks` and lets old
-- labels and batches expire. What an action or an expired callback does to the client is a parameter.
pub mod Dispatch
use irc_go.Prelude.{
  ℕ, ◌+◌, ◌-◌, Bool, true, false, ◌&&◌, ltb, List, [], ◌∷◌, Option, none, some, ◌≡◌, refl, sym, ap,
  ◌∙◌, inl, inr, arith, Bytes, map, Bool-cases, if◌then◌else◌,
}
use irc_go.IrcMsg.Message.{Message, Outcome as Parsed, returns, panics}
use irc_go.IrcMsg.Parse.{parse_line}
use irc_go.IrcEvent.Caps.{CapState, batch_negotiated, label_negotiated}
use irc_go.IrcEvent.Batches.{Batches, Action, handle_message, run_callbacks, expire_batches}
use irc_go.IrcEvent.Registry.{Registry}
use irc_go.IrcEvent.Setup.{run_disconnect_callbacks}
use irc_go.IrcEvent.Connection.{ClientError, Connection, set_error}
use irc_go.IrcEvent.Connection.Delivery.Account.{as_read}

-- The state that `readLoop` works on, with its own `lastExpireCheck`.
pub record Client (L : Type 0) : Type 0 where
  pub connection : Connection
  pub caps : CapState
  pub batches : Batches L
  pub last_check : ℕ

-- What `select` takes.
pub data Arrival : Type 0 where
  end_closed : Arrival
  line_arrived : Bytes → Arrival
  read_failed : ClientError → Arrival

pub data ReadRound (L : Type 0) : Type 0 where
  goes_on returned : Client L → ReadRound L
  panicked : ReadRound L

module _ {L : Type 0} (perform : Action L → Client L → Client L)
    (call_failed : L → Client L → Client L) where
  abbrev pub read_parsed : ℕ → Client L → Parsed Message → ReadRound L
  read_parsed now st panics = panicked
  -- An invalid message is only logged.
  read_parsed now st (returns msg (some _)) = goes_on st
  read_parsed now st (returns msg none) =
      let (action, batches) =
        run_callbacks st.batches now (batch_negotiated st.caps) (label_negotiated st.caps) msg in
      goes_on (perform action (record st { batches = batches }))

  -- `for _, bcb := range failedCallbacks { bcb(nil) }`.
  abbrev pub call_all : List L → Client L → Client L
  call_all [] st = st
  call_all (f ∷ failed) st = call_all failed (call_failed f st)

  abbrev pub expire_now : ℕ → Client L → List L × Batches L → Client L
  expire_now now st (failed, batches) = record (call_all failed (record st { batches = batches })) {
    last_check = now;
  }

  unfoldable pub expire_check : ℕ → Client L → Client L
  expire_check now st =
      if batch_negotiated st.caps && ltb st.connection.config.timeout (now - st.last_check)
      then expire_now now st (expire_batches st.batches false now st.connection.config.keep_alive)
      else st

  abbrev pub then_check : ℕ → ReadRound L → ReadRound L
  then_check now (goes_on st) = goes_on (expire_check now st)
  then_check now (returned st) = returned st
  then_check now panicked = panicked

  abbrev pub after_failure : Client L → Option Connection → ReadRound L
  after_failure st none = panicked
  after_failure st (some c) = returned (record st { connection = c })

  -- One round of the loop, at a time.
  unfoldable pub read_round : ℕ → Arrival → Client L → ReadRound L
  read_round now end_closed st = returned st
  read_round now (line_arrived msg) st = then_check now (read_parsed now st (parse_line msg 0 0))
  read_round now (read_failed err) st = after_failure st (set_error st.connection err)

  -- The loop on what arrives, with the times; where nothing more arrives, it waits.
  unfoldable pub read_loop : List (ℕ × Arrival) → Client L → ReadRound L
  read_loop [] st = goes_on st
  read_loop ((now, a) ∷ arrivals) st = elim (read_round now a st) [
    | goes_on st' ↦ read_loop arrivals st'
    | returned st' ↦ returned st'
    | panicked ↦ panicked
  ]

-- The deferred function of `readLoop`: the callbacks that it calls.
unfoldable pub on_return : {L F B : Type 0} → Client L → Registry F B → List F
unfolding run_disconnect_callbacks
on_return st r = if st.caps.registered then run_disconnect_callbacks r else []

-- Lines that arrive one after the other, the i-th one at the time `clock i`.
unfoldable pub arrivals : (ℕ → ℕ) → ℕ → List Bytes → List (ℕ × Arrival)
arrivals clock i [] = []
arrivals clock i (l ∷ lines) = (clock i, line_arrived l) ∷ arrivals clock (i + 1) lines
