-- ===== src/IrcEvent/Connection/Delivery.antt =====
-- ircevent/irc.go and ircmsg/message.go: from `SendIRCMessage` through the queue, the socket and the
-- line reader to `ParseLine`.
pub mod Sent
pub mod Account
use irc_go.Prelude.{
  ℕ, ◌+◌, ◌≤◌, ◌<◌, Bool, true, false, List, [], ◌∷◌, ◌++◌, append_assoc, append-nil, Option, none,
  some, ◌≡◌, refl, sym, ap, subst, ◌∙◌, inl, inr, arith, Bytes, length, length-append, map,
  map-append,
}
use irc_go.IrcReader.{Chunk, ReadResult, conn_error, conn_eof, initialize}
use irc_go.IrcReader.Invariant.{initialize-IsReader}
use irc_go.IrcReader.Lines.{stream}
use irc_go.IrcReader.Clean.{IsClean}
use irc_go.IrcReader.Stream.{read_connection, maxlen_tags}
use irc_go.IrcReader.Written.{written, AreLines, read_msg_loop-written}
use irc_go.IrcEvent.Connection.Delivery.Account.{
  AllCanonical, AllCanonical-append, AreLines-mono, read_lines, as_read, IsTransfer,
  start-IsTransfer, send-IsTransfer, keep-IsTransfer,
}
use irc_go.IrcMsg.Message.{Message, Outcome, returns}
use irc_go.IrcMsg.Line.{maxlen_tags_from_client}
use irc_go.IrcMsg.Parse.{parse_line}
use irc_go.IrcMsg.RoundTrip.ReadBack.{IsCanonical}
use irc_go.IrcEvent.Connection.{ClientError, Connection}
use irc_go.IrcEvent.Connection.Sending.{done, send_irc_message}
use irc_go.IrcEvent.Connection.Delivery.Sent.{IsQueued, send_irc_message-IsQueued}
use irc_go.IrcEvent.Connection.Sending.Queued.{send_irc_message-IsLine}
use irc_go.IrcEvent.Connection.Writer.{
  goes_on, write_round, joined, joined-append, KeepsBytes, write_round-KeepsBytes,
}

-- What a connection has done since its queue was empty: the messages that were accepted, its state,
-- and what it has written.
pub data Transfer (c0 : Connection) : List Message → Connection → Bytes → Type 0 where
  nothing_sent : Transfer c0 [] c0 []
  after_send :
      {msgs : List Message} {c : Connection} {wire : Bytes} (msg : Message) (c' : Connection)
      → Transfer c0 msgs c wire
      → send_irc_message c msg ≡ done none c'
      → Transfer c0 (msgs ++ msg ∷ []) c' wire
  after_refusal :
      {msgs : List Message} {c : Connection} {wire : Bytes} (msg : Message) (err : ClientError)
      (c' : Connection)
      → Transfer c0 msgs c wire
      → send_irc_message c msg ≡ done (some err) c'
      → Transfer c0 msgs c' wire
  after_round :
      {msgs : List Message} {c : Connection} {wire : Bytes} (sees_end : Bool) (c' : Connection)
      (wire' : Bytes)
      → Transfer c0 msgs c wire
      → write_round sees_end none c wire ≡ goes_on c' wire'
      → Transfer c0 msgs c' wire'
  -- Everything else leaves the queue and the settings of `SendIRCMessage` alone.
  after_other :
      {msgs : List Message} {c : Connection} {wire : Bytes} (c' : Connection)
      → Transfer c0 msgs c wire
      → c'.pwrite ≡ c.pwrite
      → c'.config.max_line_len ≡ c.config.max_line_len
      → c'.config.allow_truncation ≡ c.config.allow_truncation
      → Transfer c0 msgs c' wire

-- A message that is refused changes nothing.
refused-same :
    (c c' : Connection) (msg : Message) (err : ClientError)
    → 0 < c.config.max_line_len
    → send_irc_message c msg ≡ done (some err) c'
    → c' ≡ c
refused-same c c' msg err p h = elim (send_irc_message-IsLine c c' msg (some err) p h) [
  | inl (e, _) ↦ absurd (ground arith)
  | inr (_, e) ↦ e
]

Transfer-IsTransfer :
    (c0 c : Connection) (msgs : List Message) (wire : Bytes)
    → c0.pwrite ≡ []
    → 0 < c0.config.max_line_len
    → c0.config.allow_truncation ≡ false
    → AllCanonical msgs
    → Transfer c0 msgs c wire
    → (lines : List Bytes) × IsTransfer c0 msgs c wire lines
unfolding AllCanonical
Transfer-IsTransfer c0 _ _ _ q p a m nothing_sent = ([], start-IsTransfer c0 q)
Transfer-IsTransfer c0 _ _ _ q p a m (after_send {msgs} {c} {wire} msg c' t h) =
    let (before, (now, _)) = AllCanonical-append msgs (msg ∷ []) m in
    let (lines, k) = Transfer-IsTransfer c0 c msgs wire q p a before t in
    let (body, queued) =
      send_irc_message-IsQueued c c' msg (subst (λ n. 0 < n) (sym k.same_limit) p)
        (k.same_truncation ∙ a) now h in
    (lines ++ body ∷ [], send-IsTransfer c0 c c' msgs msg wire lines body k queued)
Transfer-IsTransfer c0 _ _ _ q p a m (after_refusal {msgs} {c} {wire} msg err c' t h) =
    let (lines, k) = Transfer-IsTransfer c0 c msgs wire q p a m t in
    let same = refused-same c c' msg err (subst (λ n. 0 < n) (sym k.same_limit) p) h in
    (lines, subst (λ x. IsTransfer c0 msgs x wire lines) (sym same) k)
Transfer-IsTransfer c0 _ _ _ q p a m (after_round {msgs} {c} {wire} sees_end c' wire' t h) =
    let (lines, k) = Transfer-IsTransfer c0 c msgs wire q p a m t in
    let keeps = write_round-KeepsBytes sees_end c c' wire wire' h in
    (
      lines,
      keep-IsTransfer c0 c c' msgs wire wire' lines k keeps.same_bytes
          (ap (λ x. x.max_line_len) keeps.same_config)
          (ap (λ x. x.allow_truncation) keeps.same_config),
    )
Transfer-IsTransfer c0 _ _ _ q p a m (after_other {msgs} {c} {wire} c' t w l x) =
    let (lines, k) = Transfer-IsTransfer c0 c msgs wire q p a m t in
    (lines, keep-IsTransfer c0 c c' msgs wire wire lines k (ap (λ y. wire ++ joined y) w) l x)

-- From an empty queue, with a positive MaxLineLen and no AllowTruncation: canonical messages that
-- `SendIRCMessage` has accepted one by one, while rounds of `writeLoop` whose `Write` succeeds, refused
-- messages and changes elsewhere in the state came in between in any order, arrive, once the queue is
-- empty: a peer with a MaxLineLen no smaller, whose connection delivers the written bytes, in any
-- chunks and with no error before the end, reads one line for each message, and `ParseLine`
-- makes them those messages, in order, less the request for a trailing parameter.
pub read_connection-Transfer :
    (c0 c : Connection) (msgs : List Message) (wire : Bytes) (max_line_len : ℕ) (conn : List Chunk)
    → c0.pwrite ≡ []
    → 0 < c0.config.max_line_len
    → c0.config.allow_truncation ≡ false
    → AllCanonical msgs
    → Transfer c0 msgs c wire
    → c.pwrite ≡ []
    → c0.config.max_line_len ≤ max_line_len
    → IsClean conn
    → stream conn ≡ wire
    → (lines : List Bytes) × (read_connection (length msgs + 1) max_line_len conn
        ≡ some (lines, conn_error conn_eof))
      × (read_lines lines ≡ map as_read msgs)
unfolding read_connection joined initialize
read_connection-Transfer c0 c msgs wire max conn q p a m t drained big clean same =
    let (lines, k) = Transfer-IsTransfer c0 c msgs wire q p a m t in
    let on_wire : stream conn ≡ written lines =
      same ∙ sym (append-nil wire) ∙ ap (λ y. wire ++ joined y) (sym drained) ∙ k.accounted in
    let fit =
      AreLines-mono (maxlen_tags_from_client + c0.config.max_line_len) (max + maxlen_tags) lines
        (omega arith) k.fit in
    (
      lines,
      read_msg_loop-written lines (length msgs + 1) (initialize 1024 (max + maxlen_tags)) conn
          (initialize-IsReader 1024 (max + maxlen_tags) (omega arith) (omega arith)) refl clean fit
          on_wire (omega (arith, k.same_length)),
      k.read_back,
    )
