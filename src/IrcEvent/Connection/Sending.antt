-- ===== src/IrcEvent/Connection/Sending.antt =====
-- ircevent/irc.go: what the client sends, and the ticks that send. The clock and the text of its
-- time are arguments.
pub mod Queued
pub mod Labeled
pub mod Expiry
pub mod PingLoop
mod Kept
mod UpTicks
use irc_go.Prelude.{
  ℕ, Bool, true, false, ◌&&◌, not, List, [], ◌∷◌, ◌++◌, Option, none, some, codes, Bytes,
  if◌then◌else◌,
}
use irc_go.IrcMsg.Message.{
  MsgError, body_too_long, TagMap, Message, Outcome, returns, panics, set_tag, make_message,
}
use irc_go.IrcMsg.Line.{line_bytes_strict}
use irc_go.IrcEvent.Labels.{Labels, register_label, unregister_label}
use irc_go.IrcEvent.Connection.{
  ClientError, no_labeled_response, message_error, capability_not_negotiated, Connection,
  TickAction, is_empty, keepalive_prefix, set_error, tick_state, send_internal, start_quit,
  set_nick,
}

-- What a call that may send does. It waits while the queue is full and `end` is open.
pub data Run : Type 0 where
  done : Option ClientError → Connection → Run
  waits crashes : Run

abbrev pub queued : Option (Option ClientError × Connection) → Run
queued none = waits
queued (some (err, c)) = done err c

abbrev pub is_body_too_long : MsgError → Bool
is_body_too_long body_too_long = true
is_body_too_long _ = false

abbrev pub send_outcome : Connection → Outcome Bytes → Run
send_outcome c panics = crashes
send_outcome c (returns b none) = queued (send_internal c b)
send_outcome c (returns b (some err)) =
    if c.config.allow_truncation && is_body_too_long err
    then queued (send_internal c b)
    else done (some (message_error err)) c

unfoldable pub send_irc_message : Connection → Message → Run
send_irc_message c msg = send_outcome c (line_bytes_strict msg true c.config.max_line_len)

unfoldable pub send_with_tags : Connection → TagMap → Bytes → List Bytes → Run
unfolding send_irc_message
send_with_tags c tags command params = send_irc_message c (make_message tags [] command params)

unfoldable pub send : Connection → Bytes → List Bytes → Run
unfolding send_with_tags
send c command params = send_with_tags c [] command params

unfoldable pub join : Connection → Bytes → Run
unfolding send
join c channel = send c (codes "JOIN") (channel ∷ [])

unfoldable pub part : Connection → Bytes → Run
unfolding send
part c channel = send c (codes "PART") (channel ∷ [])

unfoldable pub notice : Connection → Bytes → Bytes → Run
unfolding send
notice c target message = send c (codes "NOTICE") (target ∷ message ∷ [])

unfoldable pub privmsg : Connection → Bytes → Bytes → Run
unfolding send
privmsg c target message = send c (codes "PRIVMSG") (target ∷ message ∷ [])

unfoldable pub action : Connection → Bytes → Bytes → Run
unfolding privmsg
action c target message = privmsg c target (1 ∷ (codes "ACTION " ++ (message ++ 1 ∷ [])))

unfoldable pub ping : Connection → Bytes → Run
unfolding send
ping c time = send c (codes "PING") ((keepalive_prefix ++ time) ∷ [])

unfoldable pub quit : Connection → ℕ → Run
unfolding send start_quit
quit c now =
    send (start_quit c now) (codes "QUIT")
      ((if is_empty c.config.quit_message then c.config.version else c.config.quit_message) ∷ [])

unfoldable pub change_nick : Connection → Bytes → Run
unfolding send set_nick
change_nick c n = send (set_nick c n) (codes "NICK") (n ∷ [])

-- A call whose error is not looked at, and then another.
abbrev pub and_then : Run → (Connection → Run) → Run
and_then (done _ c) k = k c
and_then waits k = waits
and_then crashes k = crashes

abbrev pub stopped : Option Connection → Run
stopped none = crashes
stopped (some c) = done none c

-- The deferred calls of `processTick`.
abbrev pub act : Option (TickAction × Connection) → Bytes → Run
act none time = crashes
act (some (action, c)) time = elim action.fatal [
  | some err ↦ stopped (set_error c err)
  | none ↦ and_then (if action.should_ping then ping c time else done none c) (λ c1.
      if action.should_renick then send c1 (codes "NICK") (c1.config.nick ∷ []) else done none c1)
]

unfoldable pub process_tick : Connection → ℕ → ℕ → Bytes → Run
unfolding tick_state
process_tick c now tick time = act (tick_state c now tick) time

abbrev pub failed : Run → Bool
failed (done (some _) _) = true
failed _ = false

-- `SendWithLabel`, for what `labelNegotiated` says.
module _ {L : Type 0} where
  unfoldable pub send_with_label :
      Connection → Labels L → Bool → ℕ → L → TagMap → Bytes → List Bytes → Run × Labels L
  unfolding send_irc_message register_label
  send_with_label c labels label_negotiated now callback tags command params =
      if not label_negotiated
      then (done (some capability_not_negotiated) c, labels)
      else let registered = register_label labels now callback in
        let msg = set_tag (make_message tags [] command params) (codes "label") registered.0 in
        let out = send_irc_message c msg in
        (out, if failed out then unregister_label registered.1 registered.0 else registered.1)

-- `GetLabeledResponse` behind `SendWithLabel`: the error of that, and what its callback, which ends the
-- wait on `done`, was given by then.
unfoldable pub get_labeled_response : Option ClientError → Option ℕ → Option ℕ × Option ClientError
get_labeled_response (some err) batch = (batch, some err)
get_labeled_response none none = (none, some no_labeled_response)
get_labeled_response none (some batch) = (some batch, none)
