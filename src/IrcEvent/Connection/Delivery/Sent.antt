-- ===== src/IrcEvent/Connection/Delivery/Sent.antt =====
-- One message: what `SendIRCMessage` queues, and how `ParseLine` reads it.
use irc_go.Prelude.{
  ℕ, ◌+◌, ◌≤◌, ◌<◌, true, false, ltb, [], ◌∷◌, ◌++◌, none, some, ◌≡◌, refl, sym, ap, ◌∙◌, inl, inr,
  arith, Bytes, length, contains, trim_suffix, Bool-cases,
}
use irc_go.IrcMsg.Message.{Message, Outcome, returns, panics}
use irc_go.IrcMsg.Line.{maxlen_tags_from_client, line_bytes_strict}
use irc_go.IrcMsg.Line.Limits.{IsLine, has_line, line-IsLine}
use irc_go.IrcMsg.Parse.{strip_newline, parse_line}
use irc_go.IrcMsg.RoundTrip.ReadBack.{IsCanonical, strip_newline-crlf, parse_line-line}
use irc_go.IrcEvent.Connection.{Connection, send_internal}
use irc_go.IrcEvent.Connection.Sending.{done, queued, send_outcome, send_irc_message}

trim_suffix-lacks : (b : ℕ) (s : Bytes) → contains b s ≡ false → trim_suffix b s ≡ s
unfolding trim_suffix contains
trim_suffix-lacks b [] h = refl
trim_suffix-lacks b (c ∷ []) h = ground arith
trim_suffix-lacks b (c ∷ d ∷ s) h = ap (◌∷◌ c) (trim_suffix-lacks b (d ∷ s) (ground arith))

strip_newline-lacks :
    (s : Bytes) → contains b'\r' s ≡ false → contains b'\n' s ≡ false → strip_newline s ≡ s
unfolding strip_newline
strip_newline-lacks s h k =
    ap (trim_suffix b'\r') (trim_suffix-lacks b'\n' s k) ∙ trim_suffix-lacks b'\r' s h

-- A line is read alike with its end and without it.
parse_line-crlf :
    (s : Bytes)
    → contains b'\r' s ≡ false
    → contains b'\n' s ≡ false
    → parse_line s 0 0 ≡ parse_line (s ++ b'\r' ∷ b'\n' ∷ []) 0 0
unfolding parse_line
parse_line-crlf s h k = rw (strip_newline-crlf s, strip_newline-lacks s h k) refl

-- What is queued for a message, less its end.
pub record IsQueued (c c' : Connection) (msg : Message) (body : Bytes) : Type 0 where
  pub behind : c' ≡ record c { pwrite = c.pwrite ++ (body ++ b'\r' ∷ b'\n' ∷ []) ∷ [] }
  pub one_line : contains b'\n' body ≡ false
  pub fits : length body + 2 ≤ maxlen_tags_from_client + c.config.max_line_len
  pub read_back : parse_line body 0 0 ≡ returns (record msg { force_trailing = false }) none

queued-accepts :
    (c c' : Connection) (b : Bytes)
    → queued (send_internal c b) ≡ done none c'
    → c' ≡ record c { pwrite = c.pwrite ++ b ∷ [] }
unfolding send_internal
queued-accepts c c' b h = elim (Bool-cases c.running) [
  | inr k ↦ absurd (ground arith)
  | inl k ↦ elim (Bool-cases (ltb (length c.pwrite) 10)) [
    | inl j ↦ ground arith
    | inr j ↦ absurd (ground arith)
  ]
]

send_outcome-accepts :
    (c c' : Connection) (o : Outcome Bytes)
    → c.config.allow_truncation ≡ false
    → send_outcome c o ≡ done none c'
    → (b : Bytes) × (o ≡ returns b none) × (c' ≡ record c { pwrite = c.pwrite ++ b ∷ [] })
send_outcome-accepts c c' panics t h = absurd (ground arith)
send_outcome-accepts c c' (returns b none) t h = (b, refl, queued-accepts c c' b h)
send_outcome-accepts c c' (returns b (some err)) t h = absurd (ground arith)

pub send_irc_message-IsQueued :
    (c c' : Connection) (msg : Message)
    → 0 < c.config.max_line_len
    → c.config.allow_truncation ≡ false
    → IsCanonical msg
    → send_irc_message c msg ≡ done none c'
    → (body : Bytes) × IsQueued c c' msg body
unfolding send_irc_message line_bytes_strict IsLine has_line
send_irc_message-IsQueued c c' msg p t m h =
    let (b, out, e) =
      send_outcome-accepts c c' (line_bytes_strict msg true c.config.max_line_len) t h in
    let (kept, fitted) =
      line-IsLine msg maxlen_tags_from_client 0 0 c.config.max_line_len b none (omega arith) p out
        refl in
    let (body, ends, clean, l) = fitted in
    let back = parse_line-line msg maxlen_tags_from_client 0 0 c.config.max_line_len m out in
    (
      body,
      record {
        behind = e ∙ ap (λ x. record c { pwrite = c.pwrite ++ x ∷ [] }) ends;
        one_line = ground arith;
        fits = omega arith;
        read_back =
            parse_line-crlf body (ground arith) (ground arith)
            ∙ ap (λ x. parse_line x 0 0) (sym ends)
            ∙ back;
      },
    )
