-- ===== src/IrcEvent/Ctcp.antt =====
-- ircevent/irc_ctcp.go: messages that are rewritten as CTCP events, and the answers to them. The
-- rewriting of the last parameter in place is one of the copy that the callbacks get.
pub mod RoundTrip
use irc_go.Prelude.{
  ℕ, Bool, true, false, ◌&&◌, ◌||◌, ◌==◌, ltb, List, [], ◌∷◌, ◌++◌, Option, none, some, codes,
  Bytes, bytes_eq, has_prefix, length, drop, if◌then◌else◌,
}
use irc_go.IrcMsg.Message.{Message}
use irc_go.IrcMsg.Userhost.{nick}
use irc_go.IrcEvent.Connection.{Config}

-- The mark of CTCP, 0x01.
abbrev pub mark : ℕ
mark = 0x01

-- `s[:strings.LastIndex(s, b)]`; `none` for -1.
unfoldable pub before_last : ℕ → Bytes → Option Bytes
before_last b [] = none
before_last b (c ∷ s) = elim (before_last b s) [
  | some p ↦ some (c ∷ p)
  | none ↦ if c == b then some [] else none
]

-- The command and the text of what stands between the marks.
unfoldable pub ctcp_command : Bytes → Bytes × Bytes
ctcp_command msg =
    if bytes_eq msg (codes "VERSION")
    then (codes "CTCP_VERSION", msg)
    else if bytes_eq msg (codes "TIME")
    then (codes "CTCP_TIME", msg)
    else if has_prefix msg (codes "PING")
    then (codes "CTCP_PING", msg)
    else if bytes_eq msg (codes "USERINFO")
    then (codes "CTCP_USERINFO", msg)
    else if bytes_eq msg (codes "CLIENTINFO")
    then (codes "CTCP_CLIENTINFO", msg)
    else if has_prefix msg (codes "ACTION")
    then (codes "CTCP_ACTION", if ltb 6 (length msg) then drop 7 msg else [])
    else (codes "CTCP", msg)

abbrev pub ctcp_event : Message → Bytes → Option Bytes → Message
ctcp_event event target none = record event { command = codes "CTCP" }
ctcp_event event target (some []) = record event { command = codes "CTCP" }
ctcp_event event target (some (_ ∷ msg)) =
    let out = ctcp_command msg in record event { command = out.0; params = target ∷ out.1 ∷ [] }

abbrev pub rewritten : Message → List Bytes → Message
rewritten event (target ∷ msg ∷ []) =
    if has_prefix msg (mark ∷ []) then ctcp_event event target (before_last mark msg) else event
rewritten event _ = event

unfoldable pub event_rewrite_ctcp : Message → Message
unfolding ctcp_command before_last
event_rewrite_ctcp event =
    if bytes_eq event.command (codes "PRIVMSG") then rewritten event event.params else event

-- `NOTICE %s :\x01%s\x01` for a nick and an answer.
abbrev pub ctcp_notice : Message → Bytes → Bytes
ctcp_notice e answer = codes "NOTICE " ++ (nick e ++ (codes " :" ++ (mark ∷ (answer ++ mark ∷ []))))

abbrev pub second_param : List Bytes → Option Bytes
second_param (_ ∷ p ∷ _) = some p
second_param _ = none

-- The callbacks of `setupCTCPCallbacks`, with the text of the time: the line that is passed to
-- `SendRaw`, or nothing for other commands. The outer `none` is a panic.
unfoldable pub ctcp_callback : Config → Bytes → Message → Option (Option Bytes)
ctcp_callback config time e =
    if bytes_eq e.command (codes "CTCP_VERSION")
    then some (some (ctcp_notice e (codes "VERSION " ++ config.version)))
    else if bytes_eq e.command (codes "CTCP_USERINFO")
    then some (some (ctcp_notice e (codes "USERINFO " ++ config.user)))
    else if bytes_eq e.command (codes "CTCP_CLIENTINFO")
    then some (some (ctcp_notice e (codes "CLIENTINFO PING VERSION TIME USERINFO CLIENTINFO")))
    else if bytes_eq e.command (codes "CTCP_TIME")
    then some (some (ctcp_notice e (codes "TIME " ++ time)))
    else if bytes_eq e.command (codes "CTCP_PING")
    then elim (second_param e.params) [ none ↦ none | some p ↦ some (some (ctcp_notice e p)) ]
    else some none
