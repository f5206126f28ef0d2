-- ===== src/IrcEvent/Connection/Sending/Kept.antt =====
-- What a call that sends leaves of the state.
use irc_go.Prelude.{
  ◌&&◌, ltb, Bool, true, false, List, [], ◌∷◌, ◌++◌, codes, Bytes, length, Option, none, some, ◌≡◌,
  ap, ◌∙◌, inl, inr, arith, Bool-cases, if◌then◌else◌,
}
use irc_go.IrcMsg.Message.{Outcome, returns, panics}
use irc_go.IrcEvent.Connection.{ClientError, Connection, send_internal}
use irc_go.IrcEvent.Connection.Sending.{
  done, queued, send_outcome, is_body_too_long, send_irc_message, send_with_tags, send, ping,
}

-- What a send can change.
unfoldable pub KeepsState : Connection → Connection → Type 0
KeepsState c c' = (w : List Bytes) × (c' ≡ record c { pwrite = w })

queued-KeepsState :
    (c c' : Connection) (b : Bytes) (e : Option ClientError)
    → queued (send_internal c b) ≡ done e c'
    → KeepsState c c'
unfolding send_internal KeepsState
queued-KeepsState c c' b e h = elim (Bool-cases c.running) [
  | inr k ↦ (c.pwrite, ground arith)
  | inl k ↦ elim (Bool-cases (ltb (length c.pwrite) 10)) [
    | inl j ↦ (c.pwrite ++ b ∷ [], ground arith)
    | inr j ↦ absurd (ground arith)
  ]
]

send_outcome-KeepsState :
    (c c' : Connection) (o : Outcome Bytes) (e : Option ClientError)
    → send_outcome c o ≡ done e c'
    → KeepsState c c'
send_outcome-KeepsState c c' panics e h = absurd (ground arith)
send_outcome-KeepsState c c' (returns b none) e h = queued-KeepsState c c' b e h
send_outcome-KeepsState c c' (returns b (some err)) e h =
    elim (Bool-cases (c.config.allow_truncation && is_body_too_long err)) [
      | inl k ↦ queued-KeepsState c c' b e (rw k at h)
      | inr k ↦ unfold KeepsState in (c.pwrite, ground arith)
    ]

pub send-KeepsState :
    (c c' : Connection) (command : Bytes) (params : List Bytes) (e : Option ClientError)
    → send c command params ≡ done e c'
    → KeepsState c c'
unfolding send send_with_tags send_irc_message
send-KeepsState c c' command params e h = send_outcome-KeepsState c c' _ e h

pub KeepsState-trans : (a b c : Connection) → KeepsState a b → KeepsState b c → KeepsState a c
unfolding KeepsState
KeepsState-trans a b c (v, h) (w, k) =
    (w, let f : Connection → Connection = λ x. record x { pwrite = w } in k ∙ ap f h)

pub renick_kept :
    (c c' : Connection) (b : Bool) (e : Option ClientError)
    → (if b then send c (codes "NICK") (c.config.nick ∷ []) else done none c) ≡ done e c'
    → KeepsState c c'
renick_kept c c' true e h = send-KeepsState c c' (codes "NICK") (c.config.nick ∷ []) e h
renick_kept c c' false e h = unfold KeepsState in (c.pwrite, ground arith)

pub ping_kept :
    (c c' : Connection) (time : Bytes) (x : Option ClientError)
    → ping c time ≡ done x c'
    → KeepsState c c'
unfolding ping
ping_kept c c' time x h = send-KeepsState c c' (codes "PING") _ x h
