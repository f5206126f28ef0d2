-- ===== src/IrcMsg.antt =====
-- Package ircmsg: messages, tags, sources and UTF-8-safe truncation.
pub mod Utf8
pub mod Tags
pub mod Message
pub mod Parse
pub mod Line
pub mod RoundTrip
pub mod Userhost
