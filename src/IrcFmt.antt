-- ===== src/IrcFmt.antt =====
-- Package ircfmt, ircfmt/ircfmt.go: formatting codes, and the escapes for them.
pub mod Split
pub mod Encoding
pub mod Escape
