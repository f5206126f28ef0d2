-- ===== src/IrcEvent/Connection/Delivery/Account.antt =====
-- The lines of the messages that were sent: each is on the wire or in the queue.
use irc_go.Prelude.{
  ℕ, ◌+◌, ◌≤◌, false, List, [], ◌∷◌, ◌++◌, append_assoc, none, ◌≡◌, refl, sym, ap, subst, ◌∙◌,
  arith, Bytes, length, length-append, map, map-append,
}
use irc_go.IrcReader.Written.{written, AreLines}
use irc_go.IrcMsg.Message.{Message, Outcome, returns}
use irc_go.IrcMsg.Line.{maxlen_tags_from_client}
use irc_go.IrcMsg.Parse.{parse_line}
use irc_go.IrcMsg.RoundTrip.ReadBack.{IsCanonical}
use irc_go.IrcEvent.Connection.{Connection}
use irc_go.IrcEvent.Connection.Delivery.Sent.{IsQueued}
use irc_go.IrcEvent.Connection.Writer.{joined, joined-append}

unfoldable pub AllCanonical : List Message → Type 0
AllCanonical [] = Unit {0}
AllCanonical (msg ∷ msgs) = IsCanonical msg × AllCanonical msgs

pub AllCanonical-append :
    (p q : List Message) → AllCanonical (p ++ q) → AllCanonical p × AllCanonical q
unfolding AllCanonical
AllCanonical-append [] q h = (tt, h)
AllCanonical-append (msg ∷ p) q (m, h) = let (a, b) = AllCanonical-append p q h in ((m, a), b)

AreLines-append :
    (limit : ℕ) (p q : List Bytes) → AreLines limit p → AreLines limit q → AreLines limit (p ++ q)
unfolding AreLines
AreLines-append limit [] q h k = k
AreLines-append limit (l ∷ p) q (lacks, short, h) k = (lacks, short, AreLines-append limit p q h k)

pub AreLines-mono : (m n : ℕ) (lines : List Bytes) → m ≤ n → AreLines m lines → AreLines n lines
unfolding AreLines
AreLines-mono m n [] h k = tt
AreLines-mono m n (l ∷ lines) h (lacks, short, k) =
    (lacks, omega arith, AreLines-mono m n lines h k)

written-append : (p q : List Bytes) → written (p ++ q) ≡ written p ++ written q
unfolding written
written-append [] q = refl
written-append (l ∷ p) q =
    ap (λ s. (l ++ b'\r' ∷ b'\n' ∷ []) ++ s) (written-append p q)
    ∙ sym (append_assoc (l ++ b'\r' ∷ b'\n' ∷ []) (written p) (written q))

-- What `ParseLine` gives for a line, and what it should give for a message.
abbrev pub read_lines : List Bytes → List (Outcome Message)
read_lines lines = map (λ l. parse_line l 0 0) lines

abbrev pub as_read : Message → Outcome Message
as_read msg = returns (record msg { force_trailing = false }) none

joined-written : (body : Bytes) → joined ((body ++ b'\r' ∷ b'\n' ∷ []) ∷ []) ≡ written (body ∷ [])
unfolding joined written
joined-written body = refl

-- The lines of the messages are on the wire or in the queue.
pub record IsTransfer (c0 : Connection) (msgs : List Message) (c : Connection) (wire : Bytes)
    (lines : List Bytes) : Type 0 where
  pub same_limit : c.config.max_line_len ≡ c0.config.max_line_len
  pub same_truncation : c.config.allow_truncation ≡ c0.config.allow_truncation
  pub accounted : wire ++ joined c.pwrite ≡ written lines
  pub fit : AreLines (maxlen_tags_from_client + c0.config.max_line_len) lines
  pub read_back : read_lines lines ≡ map as_read msgs
  pub same_length : length lines ≡ length msgs

pub start-IsTransfer : (c0 : Connection) → c0.pwrite ≡ [] → IsTransfer c0 [] c0 [] []
unfolding written AreLines joined
start-IsTransfer c0 h = record {
  same_limit = refl;
  same_truncation = refl;
  accounted = ap joined h;
  fit = tt;
  read_back = refl;
  same_length = refl;
}

pub send-IsTransfer :
    (c0 c c' : Connection) (msgs : List Message) (msg : Message) (wire : Bytes) (lines : List Bytes)
    (body : Bytes)
    → IsTransfer c0 msgs c wire lines
    → IsQueued c c' msg body
    → IsTransfer c0 (msgs ++ msg ∷ []) c' wire (lines ++ body ∷ [])
unfolding AreLines
send-IsTransfer c0 c c' msgs msg wire lines body t q = record {
  same_limit = ap (λ x. x.config.max_line_len) q.behind ∙ t.same_limit;
  same_truncation = ap (λ x. x.config.allow_truncation) q.behind ∙ t.same_truncation;
  accounted =
      ap (λ x. wire ++ joined x.pwrite) q.behind
      ∙ ap (λ x. wire ++ x) (joined-append c.pwrite ((body ++ b'\r' ∷ b'\n' ∷ []) ∷ []))
      ∙ sym (append_assoc wire (joined c.pwrite) (joined ((body ++ b'\r' ∷ b'\n' ∷ []) ∷ [])))
      ∙ ap (λ x. x ++ joined ((body ++ b'\r' ∷ b'\n' ∷ []) ∷ [])) t.accounted
      ∙ ap (λ x. written lines ++ x) (joined-written body)
      ∙ sym (written-append lines (body ∷ []));
  fit = AreLines-append (maxlen_tags_from_client + c0.config.max_line_len) lines (body ∷ []) t.fit (
    q.one_line,
    subst (λ m. length body + 2 ≤ maxlen_tags_from_client + m) t.same_limit q.fits,
    tt,
  );
  read_back =
      map-append (λ l. parse_line l 0 0) lines (body ∷ [])
      ∙ ap (λ x. x ++ parse_line body 0 0 ∷ []) t.read_back
      ∙ ap (λ x. map as_read msgs ++ x ∷ []) q.read_back
      ∙ sym (map-append as_read msgs (msg ∷ []));
  same_length =
      length-append lines (body ∷ [])
      ∙ ap (λ n. n + 1) t.same_length
      ∙ sym (length-append msgs (msg ∷ []));
}

-- A step that keeps the bytes and the settings.
pub keep-IsTransfer :
    (c0 c c' : Connection) (msgs : List Message) (wire wire' : Bytes) (lines : List Bytes)
    → IsTransfer c0 msgs c wire lines
    → wire' ++ joined c'.pwrite ≡ wire ++ joined c.pwrite
    → c'.config.max_line_len ≡ c.config.max_line_len
    → c'.config.allow_truncation ≡ c.config.allow_truncation
    → IsTransfer c0 msgs c' wire' lines
keep-IsTransfer c0 c c' msgs wire wire' lines t b l a = record {
  same_limit = l ∙ t.same_limit;
  same_truncation = a ∙ t.same_truncation;
  accounted = b ∙ t.accounted;
  fit = t.fit;
  read_back = t.read_back;
  same_length = t.same_length;
}
