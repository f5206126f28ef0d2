-- ===== src/IrcEvent/Ctcp/RoundTrip.antt =====
-- What `Action` sends, a client reads as a CTCP action; and the answer to a ping.
use irc_go.Prelude.{
  ℕ, ◌<◌, true, false, ==_refl, ltb, [], ◌∷◌, ◌++◌, none, some, to_upper, upper_byte, contains,
  codes, Bytes, bytes_eq, bytes_eq_iff, has_prefix, length, ◌≡◌, refl, ap, ◌∙◌, arith,
}
use irc_go.IrcMsg.Message.{Message, returns, make_message, update_tags}
use irc_go.IrcMsg.Parse.{parse_line, is_ascii}
use irc_go.IrcMsg.RoundTrip.ReadBack.{IsCanonical}
use irc_go.IrcEvent.Connection.{Connection}
use irc_go.IrcEvent.Connection.Sending.{done, send_with_tags, send, privmsg, action}
use irc_go.IrcEvent.Connection.Delivery.Sent.{send_irc_message-IsQueued}
use irc_go.IrcEvent.Ctcp.{
  mark, before_last, ctcp_command, ctcp_event, rewritten, event_rewrite_ctcp,
}

before_last-append : (b : ℕ) (s : Bytes) → before_last b (s ++ b ∷ []) ≡ some s
unfolding before_last
before_last-append b [] = rw (==_refl b) refl
before_last-append b (c ∷ s) = rw (before_last-append b s, before_last) refl

abbrev action_text : Bytes → Bytes
action_text message = mark ∷ (codes "ACTION " ++ (message ++ mark ∷ []))

ctcp_command-action :
    (message : Bytes) → ctcp_command (codes "ACTION " ++ message) ≡ (codes "CTCP_ACTION", message)
unfolding ctcp_command bytes_eq has_prefix
ctcp_command-action message =
    let long : ltb 6 (length (codes "ACTION " ++ message)) ≡ true = ground arith in rw long refl

rewrite_action :
    (event : Message) (target message : Bytes)
    → event.command ≡ codes "PRIVMSG"
    → event.params ≡ target ∷ action_text message ∷ []
    → event_rewrite_ctcp event
      ≡ record event { command = codes "CTCP_ACTION"; params = target ∷ message ∷ [] }
unfolding event_rewrite_ctcp has_prefix
rewrite_action event target message c p =
    let private : bytes_eq event.command (codes "PRIVMSG") ≡ true = (bytes_eq_iff _ _).1 c in
    let start : event_rewrite_ctcp event ≡ rewritten event event.params = rw private refl in
    let inner = mark ∷ (codes "ACTION " ++ message) in
    let text : before_last mark (action_text message) ≡ some inner =
      before_last-append mark inner in
    start
    ∙ ap (rewritten event) p
    ∙ ap (ctcp_event event target) text
    ∙ ap (λ o. record event { command = o.0; params = target ∷ o.1 ∷ [] })
        (ctcp_command-action message)

-- The message that `Action` makes.
abbrev action_message : Bytes → Bytes → Message
action_message target message =
    make_message [] [] (codes "PRIVMSG") (target ∷ action_text message ∷ [])

action_message-IsCanonical : (target message : Bytes) → IsCanonical (action_message target message)
unfolding to_upper upper_byte is_ascii contains make_message update_tags
action_message-IsCanonical target message = record {
  upper = refl;
  ascii = refl;
  word = refl;
  plain = refl;
  source_word = refl;
  regular = tt;
  client = tt;
}

-- With a positive MaxLineLen and no truncation, a call of `Action` that returns no error queues one
-- line. Read by `ParseLine` and relayed with any source, it is rewritten by the library to a CTCP
-- action with the target and the text that were given to the call.
pub event_rewrite_ctcp-action :
    (c c' : Connection) (target message source : Bytes)
    → 0 < c.config.max_line_len
    → c.config.allow_truncation ≡ false
    → action c target message ≡ done none c'
    → (body : Bytes) × (event : Message) × (c'
        ≡ record c { pwrite = c.pwrite ++ (body ++ b'\r' ∷ b'\n' ∷ []) ∷ [] })
      × (parse_line body 0 0 ≡ returns event none)
      × (event_rewrite_ctcp (record event { source = source }) ≡ record event {
        source = source;
        command = codes "CTCP_ACTION";
        params = target ∷ message ∷ [];
      })
unfolding action privmsg send send_with_tags make_message update_tags
event_rewrite_ctcp-action c c' target message source p t h =
    let msg = action_message target message in
    let (body, q) =
      send_irc_message-IsQueued c c' msg p t (action_message-IsCanonical target message) h in
    (
      body,
      record msg { force_trailing = false },
      q.behind,
      q.read_back,
      rewrite_action (record msg { force_trailing = false; source = source }) target message refl
          refl,
    )
