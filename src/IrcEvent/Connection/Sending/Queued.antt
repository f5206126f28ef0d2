-- ===== src/IrcEvent/Connection/Sending/Queued.antt =====
-- What ends up in the queue.
use irc_go.Prelude.{
  ℕ, ◌+◌, ◌≤◌, ◌<◌, true, ◌&&◌, ltb, [], ◌∷◌, ◌++◌, Option, none, some, ◌≡◌, ◌≢◌, ◌⊎◌, refl, inl,
  inr, arith, Bytes, length, Bool-cases, &&-eq-true,
}
use irc_go.IrcMsg.Message.{
  MsgError, line_is_empty, line_contains_bad_char, tags_too_long, invalid_tag_content,
  command_missing, bad_param, body_too_long, Message, Outcome, returns, panics,
}
use irc_go.IrcMsg.Line.{write_head, maxlen_tags_from_client, line_bytes_strict}
use irc_go.IrcMsg.Line.Limits.{IsLine, has_line, line-IsLine}
use irc_go.IrcEvent.Connection.{ClientError, message_error, Connection, send_internal}
use irc_go.IrcEvent.Connection.Sending.{
  Run, waits, crashes, done, and_then, queued, is_body_too_long, send_outcome, send_irc_message,
}

-- A line of the message whose tags keep their limit and whose rest keeps `limit`.
unfoldable pub AreLimits : ℕ → Message → Bytes → Type 0
AreLimits limit msg b =
    (length (write_head msg).buf ≤ maxlen_tags_from_client)
    × IsLine (length (write_head msg).buf + limit) b

-- The two ways in which a send returns.
unfoldable pub IsSent : Message → Connection → Option ClientError → Connection → Type 0
unfolding AreLimits
IsSent msg c err c' =
    ((err ≡ none)
      × ((b : Bytes) × (c' ≡ record c { pwrite = c.pwrite ++ b ∷ [] })
          × AreLimits c.config.max_line_len msg b))
    ⊎ ((err ≢ none) × (c' ≡ c))

queued-IsSent :
    (msg : Message) (c c' : Connection) (b : Bytes) (err : Option ClientError)
    → AreLimits c.config.max_line_len msg b
    → queued (send_internal c b) ≡ done err c'
    → IsSent msg c err c'
unfolding send_internal IsSent
queued-IsSent msg c c' b err l h = elim (Bool-cases c.running) [
  | inr k ↦ inr ((λ z. ground arith), ground arith)
  | inl k ↦ elim (Bool-cases (ltb (length c.pwrite) 10)) [
    | inl j ↦ inl (ground arith, (b, ground arith, l))
    | inr j ↦ absurd (ground arith)
  ]
]

too_long-has_line : (e : MsgError) → is_body_too_long e ≡ true → has_line (some e) ≡ true
unfolding has_line
too_long-has_line body_too_long h = refl
too_long-has_line line_is_empty h = absurd (ground arith)
too_long-has_line line_contains_bad_char h = absurd (ground arith)
too_long-has_line tags_too_long h = absurd (ground arith)
too_long-has_line invalid_tag_content h = absurd (ground arith)
too_long-has_line command_missing h = absurd (ground arith)
too_long-has_line bad_param h = absurd (ground arith)

send_outcome-IsSent :
    (msg : Message) (c c' : Connection) (o : Outcome Bytes) (err : Option ClientError)
    → ((b : Bytes) (e : Option MsgError)
        → o ≡ returns b e
        → has_line e ≡ true
        → AreLimits c.config.max_line_len msg b)
    → send_outcome c o ≡ done err c'
    → IsSent msg c err c'
unfolding has_line
send_outcome-IsSent msg c c' panics err l h = absurd (ground arith)
send_outcome-IsSent msg c c' (returns b none) err l h =
    queued-IsSent msg c c' b err (l b none refl refl) h
send_outcome-IsSent msg c c' (returns b (some e)) err l h =
    elim (Bool-cases (c.config.allow_truncation && is_body_too_long e)) [
      | inl k ↦
          queued-IsSent msg c c' b err
            (l b (some e) refl
              (too_long-has_line e (&&-eq-true c.config.allow_truncation (is_body_too_long e) k).1))
            (rw k at h)
      | inr k ↦
          let out : done (some (message_error e)) c ≡ done err c' = rw k at h in
          unfold IsSent in inr ((λ z. ground arith), ground arith)
    ]

pub send_irc_message-IsLine :
    (c c' : Connection) (msg : Message) (err : Option ClientError)
    → 0 < c.config.max_line_len
    → send_irc_message c msg ≡ done err c'
    → ((err ≡ none)
        × ((b : Bytes) × (c' ≡ record c { pwrite = c.pwrite ++ b ∷ [] })
            × (length (write_head msg).buf ≤ maxlen_tags_from_client)
            × IsLine (length (write_head msg).buf + c.config.max_line_len) b))
      ⊎ ((err ≢ none) × (c' ≡ c))
unfolding IsSent AreLimits send_irc_message line_bytes_strict
send_irc_message-IsLine c c' msg err p h =
    elim (send_outcome-IsSent msg c c' (line_bytes_strict msg true c.config.max_line_len) err
      (λ b e k l.
        line-IsLine msg maxlen_tags_from_client 0 0 c.config.max_line_len b e (omega arith) p k l)
      h) [
        | inl s ↦
            let (same, rest) = s in
            let (b, e, limits) = rest in inl (same, (b, e, limits.0, limits.1))
        | inr s ↦ inr s
      ]

pub and_then-done :
    (r : Run) (k : Connection → Run) (e : Option ClientError) (c' : Connection)
    → and_then r k ≡ done e c'
    → (c : Connection) × (k c ≡ done e c')
and_then-done (done _ c) k e c' h = (c, h)
and_then-done waits k e c' h = absurd (ground arith)
and_then-done crashes k e c' h = absurd (ground arith)
