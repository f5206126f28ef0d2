-- ===== src/IrcUtils.antt =====
-- Package ircutils: the parts that do not only pass on other code.
pub mod Sasl
pub mod Hostnames
pub mod Sanitize
