-- ===== src/IrcEvent/Setup.antt =====
-- ircevent/irc_callback.go: the callbacks of the library among those of the client, in the order in
-- which `setupCallbacks` adds them, and `HandleMessage`, which runs them.
pub mod Order
use irc_go.Prelude.{ℕ, Bool, true, false, List, [], ◌∷◌, ◌++◌, map, codes, Bytes, if◌then◌else◌}
use irc_go.IrcMsg.Message.{Message}
use irc_go.IrcEvent.Registry.{
  Registry, add_callback, add_callback_id, get_callbacks, disconnect_event,
}
use irc_go.IrcEvent.Ctcp.{event_rewrite_ctcp}

-- A callback: the one of the library for a command, or one of the client.
pub data Callback (F : Type 0) : Type 0 where
  library : Bytes → Callback F
  client : F → Callback F

-- PING to 005.
abbrev pub first_commands : List Bytes
first_commands =
    codes "PING" ∷ codes "PONG" ∷ codes "433" ∷ codes "437" ∷ codes "001" ∷ codes "005" ∷ []

abbrev pub sasl_commands : List Bytes
sasl_commands =
    codes "AUTHENTICATE" ∷ codes "901" ∷ codes "902" ∷ codes "903" ∷ codes "904" ∷ codes "907" ∷ []

abbrev pub ctcp_commands : List Bytes
ctcp_commands =
    codes "CTCP_VERSION"
    ∷ codes "CTCP_USERINFO"
    ∷ codes "CTCP_CLIENTINFO"
    ∷ codes "CTCP_TIME"
    ∷ codes "CTCP_PING"
    ∷ []

abbrev pub last_commands : List Bytes
last_commands = codes "FAIL" ∷ codes "WARN" ∷ codes "NOTE" ∷ []

module _ {F B : Type 0} where
  unfoldable pub add_commands : Registry (Callback F) B → List Bytes → Registry (Callback F) B
  unfolding add_callback
  add_commands r [] = r
  add_commands r (c ∷ cs) = add_commands (add_callback r c (library c)).1 cs

  unfoldable pub prepend_command : Registry (Callback F) B → Bytes → Registry (Callback F) B
  unfolding add_callback_id
  prepend_command r c = (add_callback_id r c (library c) true 0).1

  unfoldable pub setup_callbacks :
      Bool → Bool → Bool → Registry (Callback F) B → Registry (Callback F) B
  setup_callbacks has_base_callbacks use_sasl enable_ctcp r =
      if has_base_callbacks
      then r
      else let r1 = prepend_command (add_commands r first_commands) (codes "NICK") in
        let r2 = add_commands r1 (codes "ERROR" ∷ codes "CAP" ∷ []) in
        let r3 = add_commands r2 (if use_sasl then sasl_commands else []) in
        let r4 = add_commands r3 (if enable_ctcp then ctcp_commands else []) in
        add_commands (prepend_command (prepend_command r4 (codes "376")) (codes "422"))
          last_commands

-- `HandleMessage`: the event, and the callbacks that are called with it, in their order.
unfoldable pub handle_message : {F B : Type 0} → Bool → Registry F B → Message → Message × List F
unfolding event_rewrite_ctcp get_callbacks
handle_message enable_ctcp r event =
    let e = if enable_ctcp then event_rewrite_ctcp event else event in
    (e, map (λ p. p.1) (get_callbacks r e.command))

-- `runDisconnectCallbacks`: the callbacks that are called, each with an empty message.
unfoldable pub run_disconnect_callbacks : {F B : Type 0} → Registry F B → List F
unfolding get_callbacks
run_disconnect_callbacks r = map (λ p. p.1) (get_callbacks r disconnect_event)
