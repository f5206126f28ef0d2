-- ===== src/IrcMsg/RoundTrip.antt =====
-- What `line` writes, `parseLine` reads back: the statement and its proof, from the parts below.
mod Params
pub mod Escaped
mod TagText
mod TagMaps
mod Serialized
pub mod ReadBack
