-- ===== src/Lib.antt =====
-- irc-go: libraries for IRC clients and servers.
--
-- The repository has five packages. ircmsg parses and assembles lines of the protocol; ircreader
-- takes lines from a connection; ircutils holds helpers for both ends, such as the chunks of SASL;
-- ircevent is a client on top of them, which reads lines, dispatches them to callbacks and
-- negotiates capabilities; ircfmt translates formatting codes.
--
-- Text is a list of bytes (`Bytes`), a Go map an association list in the order of its iteration
-- (Prelude/Dict), a Go int a native number, so limits and lengths are those that are not negative;
-- a uint64 and an int64 keep their wrap-around. A panic is a value: `panics`, or `none` where a comment says so.
-- Mutexes make each operation of ircevent one step on a record of the fields that they guard.
--
-- IrcMsg/Message, IrcMsg/Parse, IrcMsg/Line: ircmsg/message.go. `parse_line` is `parseLine` and
--   `line` is `(*Message).line`, each in stages that carry the names of the steps of the code.
-- IrcMsg/Tags: ircmsg/tags.go. The fuel of the loop of `UnescapeTagValue` is the length of the
--   value, of which each round takes at least two bytes.
-- IrcMsg/Utf8: ircmsg/unicode.go and the part of `unicode/utf8` that it uses, as an automaton.
-- IrcMsg/Userhost: ircmsg/userhost.go.
-- IrcMsg/RoundTrip: the theorems that relate the parser and the serialiser.
-- IrcReader: ircreader/ircreader.go. The connection is a list of chunks, each with what `Read`
--   returns as its error; the fuel of `read_line` is a bound on the calls of `Read`. IrcReader/Stream
--   is `readMsgLoop` of ircevent/irc.go on top of it, with fuel for its calls of `ReadLine`, each of
--   which has fuel for all chunks and bytes that the connection holds; IrcReader/Written has the
--   streams that a client writes.
-- IrcUtils/Sasl, IrcUtils/Hostnames, IrcUtils/Sanitize: ircutils/sasl.go with the part of
--   `encoding/base64` that it uses, ircutils/hostnames.go and ircutils/unicode.go. The fuel of the
--   loops is the length of the text, which each round shortens.
-- IrcFmt/Split, IrcFmt/Escape: ircfmt/ircfmt.go, with its regular expressions, replacer and maps
--   written out. The loop of `Escape` works on runes, so that `escape` takes and gives code points, and
--   `unescape` works on bytes; `encode_all` of IrcFmt/Encoding makes the one the other. Split/Codes has
--   the meaning of each code apart from `Split`. Each round of a loop shortens the text, whose length
--   is the fuel; `none` is a panic of `Escape`.
-- IrcEvent/Registry: the callbacks of ircevent/irc_callback.go, with values for the functions.
-- IrcEvent/Labels, IrcEvent/Batches: the labels and batches of the same file. Batches are shared by
--   pointers, which are indices of a heap; an int64 label is kept as its two's complement; what a callback of the client does is an action. The
--   fuel of `flatten` bounds the depth of the recursion; IrcEvent/Batches/Reachable has the states
--   that the messages of a server lead to, in which the length of the heap is enough. Labels/Waiting
--   has the callbacks that wait as a multiset, Batches/History all that happens to them, Batches/Between
--   the checks of `readLoop` that let old labels and batches expire, and Batches/Collect a labeled response from its request to its callback.
-- IrcEvent/Caps: capabilities, from ircevent/irc_callback.go, ircevent/irc_struct.go and
--   ircevent/irc.go. A channel is a list with a capacity.
-- IrcEvent/Connection: ircevent/irc.go. `Connection` has the fields that the mutex guards; the
--   channel `end` is a flag, `pwrite` a list with a capacity, and durations are natural numbers.
--   Connection/Lifecycle has the steps of a connection as a relation. Connection/Sending is what the
--   client sends, where a call waits while the queue is full; Connection/Connect is `Connect` with
--   `negotiateCaps`, for which the events that it waits for and what other goroutines do to the
--   connection in the meantime (`other`) are arguments. `Sending` calls `line_bytes_strict` of
--   IrcMsg/Line and `register_label` of IrcEvent/Labels, `Connect` the loop of IrcEvent/Caps.
--   The goroutines are functions of what they receive: Connection/Writer is `writeLoop`, which moves the
--   queue to the wire, Connection/ReadLoop is `readLoop`, whose callbacks are parameters, and
--   Sending/PingLoop is `pingLoop`, with what the others do between its ticks as a parameter. Connection/Delivery relates all that may happen on the way of a
--   message from `SendIRCMessage` to the wire, and ReadLoop/Dispatch joins it to the reader and the
--   loop of a peer. Connection/Loop is `Loop` with `waitForStop`, on passes that say what the clock,
--   the signal and `Connect` do; Connection/Dial is `dial`, with `DialContext`,
--   `net.SplitHostPort` and the handshake as parameters.
-- IrcEvent/Numerics: the constants of ircevent/numerics.go.
-- IrcEvent/Session, IrcEvent/Ctcp, IrcEvent/SaslClient: the callbacks of ircevent/irc_callback.go,
--   ircevent/irc_ctcp.go and ircevent/irc_sasl.go, and `GetReplyTarget` of ircevent/irc_struct.go.
--   What a callback passes to `Send` or `SendRaw` is part of its result. The fuel of
--   `unescape_value_loop` is the length of the value. IrcEvent/Setup adds the callbacks of the
--   library to a registry of IrcEvent/Registry, and is `HandleMessage`.
-- Tests: runs on small inputs, and instances of the theorems.
--
-- Not modelled: sockets, goroutines, timers and the choices of `select`, which are arguments; the
-- recovery from panics in callbacks; the formatting of texts with fmt, and the log; the examples;
-- negative limits and durations; `strings.ToUpper`, `strings.ToLower`, `strings.TrimSpace` and
-- `strings.Fields` beyond ASCII; parameters that share their memory with those of another message.
pub mod Prelude
pub mod IrcMsg
pub mod IrcReader
pub mod IrcFmt
pub mod IrcUtils
pub mod IrcEvent
pub mod Tests
