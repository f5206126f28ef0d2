-- ===== src/IrcEvent/Session/Target.antt =====
-- Where `GetReplyTarget` sends a reply.
use irc_go.Prelude.{
  true, false, ◌||◌, List, [], ◌∷◌, Option, ◌≡◌, ◌⊎◌, refl, sym, ap, ◌∙◌, inl, inr, codes, Bytes,
  bytes_eq, contains, Bool-cases, Option-cases,
}
use irc_go.IrcMsg.Message.{TagMap, Message}
use irc_go.IrcMsg.Userhost.{parse_nuh, nick}
use irc_go.IrcEvent.Session.{chan_types, is_channel, source_target, target_of, get_reply_target}

source_target-nick :
    (msg : Message)
    → (source_target (parse_nuh msg.source) ≡ [])
      ⊎ ((source_target (parse_nuh msg.source) ≡ nick msg) × (contains b'.' (nick msg) ≡ false))
unfolding nick
source_target-nick msg = elim (Option-cases (parse_nuh msg.source)) [
  | inl k ↦ rw k (inl refl)
  | inr (n, k) ↦
      let own : nick msg ≡ n.name = rw (k, nick) refl in
      elim (Bool-cases (contains b'.' n.name)) [
        | inl d ↦ rw k (rw d (inl refl))
        | inr d ↦
            let out : source_target (parse_nuh msg.source) ≡ n.name = rw k (rw d refl) in
            inr (out ∙ sym own, ap (contains b'.') own ∙ d)
      ]
]

-- The three kinds of targets.
unfoldable pub IsTarget : Option TagMap → Message → Bytes → Type 0
IsTarget isupport msg r =
    (r ≡ [])
    ⊎ (((is_channel (chan_types isupport) r ≡ true)
          × ((params : List Bytes) × (msg.params ≡ r ∷ params)))
        ⊎ ((r ≡ nick msg) × (contains b'.' (nick msg) ≡ false)))

target_of-IsTarget :
    (isupport : Option TagMap) (msg : Message) (params : List Bytes)
    → msg.params ≡ params
    → IsTarget isupport msg (target_of isupport msg.source params)
unfolding IsTarget
target_of-IsTarget isupport msg [] e = inl refl
target_of-IsTarget isupport msg (target ∷ params) e =
    elim (Bool-cases (is_channel (chan_types isupport) target)) [
      | inl k ↦ rw k (inr (inl (k, (params, e))))
      | inr k ↦ rw k (elim (source_target-nick msg) [ inl n ↦ inl n | inr n ↦ inr (inr n) ])
    ]

-- A reply goes nowhere, or to the first parameter, if that begins with one of the channel types, or
-- to the nick of the source, if that has no period.
pub get_reply_target-IsTarget :
    (isupport : Option TagMap) (msg : Message)
    → IsTarget isupport msg (get_reply_target isupport msg)
unfolding get_reply_target IsTarget
get_reply_target-IsTarget isupport msg =
    elim (Bool-cases (
      bytes_eq msg.command (codes "PRIVMSG")
      || (bytes_eq msg.command (codes "NOTICE") || bytes_eq msg.command (codes "TAGMSG")))) [
        | inl k ↦ rw k (target_of-IsTarget isupport msg msg.params refl)
        | inr k ↦ rw k (inl refl)
      ]
