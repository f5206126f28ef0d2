-- ===== src/IrcEvent/Connection/ReadLoop/Dispatch.antt =====
-- From `SendIRCMessage` on one side to `HandleMessage` on the other.
use irc_go.Prelude.{
  ℕ, ◌+◌, ◌≤◌, ◌<◌, false, List, [], ◌∷◌, some, ◌≡◌, refl, ap, ◌∙◌, arith, Bytes, length, map,
}
use irc_go.IrcReader.{Chunk, conn_error, conn_eof}
use irc_go.IrcReader.Lines.{stream}
use irc_go.IrcReader.Clean.{IsClean}
use irc_go.IrcReader.Stream.{read_connection}
use irc_go.IrcMsg.Message.{Message}
use irc_go.IrcMsg.Parse.{parse_line}
use irc_go.IrcEvent.Caps.{batch_negotiated, label_negotiated}
use irc_go.IrcEvent.Batches.{Action, handle_message, run_callbacks}
use irc_go.IrcEvent.Connection.{Connection}
use irc_go.IrcEvent.Connection.Delivery.{Transfer, read_connection-Transfer}
use irc_go.IrcEvent.Connection.Delivery.Account.{AllCanonical, read_lines, as_read}
use irc_go.IrcEvent.Connection.ReadLoop.{
  Client, Arrival, line_arrived, goes_on, read_parsed, expire_check, then_check, read_round,
  read_loop, arrivals,
}

-- A message as `ParseLine` gives it.
abbrev pub plain : Message → Message
plain msg = record msg { force_trailing = false }

module _ {L : Type 0} (perform : Action L → Client L → Client L)
    (call_failed : L → Client L → Client L) where
  -- The normal handlers, one message after the other.
  unfoldable pub handle_all : List Message → Client L → Client L
  handle_all [] st = st
  handle_all (msg ∷ msgs) st = handle_all msgs (perform (handle_message msg) st)

  read_normal :
      (now : ℕ) (st : Client L) (msg : Message)
      → batch_negotiated st.caps ≡ false
      → label_negotiated st.caps ≡ false
      → read_parsed perform call_failed now st (as_read msg)
        ≡ goes_on (perform (handle_message (plain msg)) st)
  unfolding run_callbacks
  read_normal now st msg b n = rw (b, n) refl

  expire_check_off :
      (now : ℕ) (st : Client L)
      → batch_negotiated st.caps ≡ false
      → expire_check perform call_failed now st ≡ st
  unfolding expire_check
  expire_check_off now st b = rw b refl

  dispatches :
      (now : ℕ) (st : Client L) (l : Bytes) (msg : Message)
      → ((a : Action L) (x : Client L) → (perform a x).caps ≡ x.caps)
      → batch_negotiated st.caps ≡ false
      → label_negotiated st.caps ≡ false
      → parse_line l 0 0 ≡ as_read msg
      → read_round perform call_failed now (line_arrived l) st
        ≡ goes_on (perform (handle_message (plain msg)) st)
  unfolding read_round
  dispatches now st l msg keeps b n h =
      let after : Client L = perform (handle_message (plain msg)) st in
      ap (λ o. then_check perform call_failed now (read_parsed perform call_failed now st o)) h
      ∙ ap (then_check perform call_failed now) (read_normal now st msg b n)
      ∙ ap goes_on (
          expire_check_off now after
            (ap batch_negotiated (keeps (handle_message (plain msg)) st) ∙ b))

  next_round :
      (now : ℕ) (a : Arrival) (rest : List (ℕ × Arrival)) (st st' : Client L)
      → read_round perform call_failed now a st ≡ goes_on st'
      → read_loop perform call_failed ((now, a) ∷ rest) st ≡ read_loop perform call_failed rest st'
  unfolding read_loop
  next_round now a rest st st' h = rw (h, read_loop) refl

  read_loop-handle_all :
      (clock : ℕ → ℕ) (i : ℕ) (lines : List Bytes) (msgs : List Message) (st : Client L)
      → ((a : Action L) (x : Client L) → (perform a x).caps ≡ x.caps)
      → batch_negotiated st.caps ≡ false
      → label_negotiated st.caps ≡ false
      → read_lines lines ≡ map as_read msgs
      → read_loop perform call_failed (arrivals clock i lines) st
        ≡ goes_on (handle_all (map plain msgs) st)
  unfolding read_loop arrivals handle_all
  read_loop-handle_all clock i [] [] st keeps b n h = refl
  read_loop-handle_all clock i [] (msg ∷ msgs) st keeps b n h = absurd (ground arith)
  read_loop-handle_all clock i (l ∷ lines) [] st keeps b n h = absurd (ground arith)
  read_loop-handle_all clock i (l ∷ lines) (msg ∷ msgs) st keeps b n h =
      let (here, later) : (parse_line l 0 0 ≡ as_read msg) × (read_lines lines ≡ map as_read msgs) =
        ground arith in
      let after : Client L = perform (handle_message (plain msg)) st in
      let same = keeps (handle_message (plain msg)) st in
      next_round (clock i) (line_arrived l) (arrivals clock (i + 1) lines) st after
        (dispatches (clock i) st l msg keeps b n here)
      ∙ read_loop-handle_all clock (i + 1) lines msgs after keeps (ap batch_negotiated same ∙ b)
          (ap label_negotiated same ∙ n) later

  -- From an empty queue, with a positive MaxLineLen and no AllowTruncation: canonical messages that
  -- `SendIRCMessage` has accepted one by one, while rounds of `writeLoop` whose `Write` succeeds, refused
  -- messages and changes elsewhere in the state came in between in any order, and whose queue is
  -- empty in the end, reach the handlers of a peer with a MaxLineLen no smaller: its connection
  -- delivers the written bytes in any chunks and with no error before the end, and it has negotiated
  -- neither batches nor labels, and nothing that its handlers do changes that. Its `readMsgLoop` sends one
  -- line for each message, which `ParseLine` makes that message, and its `readLoop` calls the normal handlers on those messages, in order,
  -- less the request for a trailing parameter, at whatever times the lines arrive.
  pub read_loop-Transfer :
      (c0 c : Connection) (msgs : List Message) (wire : Bytes) (max_line_len : ℕ)
      (conn : List Chunk) (clock : ℕ → ℕ) (st : Client L)
      → c0.pwrite ≡ []
      → 0 < c0.config.max_line_len
      → c0.config.allow_truncation ≡ false
      → AllCanonical msgs
      → Transfer c0 msgs c wire
      → c.pwrite ≡ []
      → c0.config.max_line_len ≤ max_line_len
      → IsClean conn
      → stream conn ≡ wire
      → ((a : Action L) (x : Client L) → (perform a x).caps ≡ x.caps)
      → batch_negotiated st.caps ≡ false
      → label_negotiated st.caps ≡ false
      → (lines : List Bytes) × (read_connection (length msgs + 1) max_line_len conn
          ≡ some (lines, conn_error conn_eof))
        × (read_lines lines ≡ map as_read msgs)
        × (read_loop perform call_failed (arrivals clock 0 lines) st
            ≡ goes_on (handle_all (map plain msgs) st))
  read_loop-Transfer c0 c msgs wire max conn clock st q p a m t drained big clean same keeps b n =
      let (lines, arrive, back) =
        read_connection-Transfer c0 c msgs wire max conn q p a m t drained big clean same in
      (lines, arrive, back, read_loop-handle_all clock 0 lines msgs st keeps b n back)
