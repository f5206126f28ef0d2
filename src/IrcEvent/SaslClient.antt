-- ===== src/IrcEvent/SaslClient.antt =====
-- ircevent/irc_sasl.go: the callbacks that authenticate. What they pass to `Send` and `SendRaw` is
-- part of the result.
pub mod Response
use irc_go.Prelude.{
  ℕ, Bool, true, false, ◌||◌, List, [], ◌∷◌, ◌++◌, map, Option, none, some, codes, Bytes, bytes_eq,
  if◌then◌else◌,
}
use irc_go.IrcMsg.Message.{Message}
use irc_go.IrcUtils.Sasl.{encode_sasl_response}
use irc_go.IrcEvent.Connection.{ClientError, sasl_error, Config}

-- A final outcome carries an error where `Failed` is set.
abbrev pub SaslResult : Type 0
SaslResult = Option ClientError

-- The channel has room for one result.
unfoldable pub submit_sasl_result : SaslResult → Option SaslResult → Option SaslResult
submit_sasl_result r none = some r
submit_sasl_result r (some full) = some full

unfoldable pub compose_sasl_plain_response : Config → Bytes
compose_sasl_plain_response config =
    config.sasl_login ++ 0 ∷ (config.sasl_login ++ 0 ∷ config.sasl_password)

-- The parameters of the AUTHENTICATE commands that answer one.
unfoldable pub authenticate : Config → List Bytes
authenticate config =
    if bytes_eq config.sasl_mech (codes "PLAIN")
    then encode_sasl_response (compose_sasl_plain_response config)
    else if bytes_eq config.sasl_mech (codes "EXTERNAL")
    then codes "+" ∷ []
    else []

-- What a callback does: its calls of `Send` with AUTHENTICATE, its calls of `SendRaw`, the channel
-- of the results, and whether it panics in the end.
pub record SaslStep : Type 0 where
  pub authenticates : List Bytes
  pub raw : List Bytes
  pub sasl_chan : Option SaslResult
  pub panicked : Bool

-- The callbacks for a failure: the text of the error is the second parameter, and a message without
-- one panics behind the calls of `SendRaw`.
abbrev pub sasl_failure : Option SaslResult → List Bytes → SaslStep
sasl_failure chan (_ ∷ text ∷ _) = record {
  authenticates = [];
  raw = codes "CAP END" ∷ codes "QUIT" ∷ [];
  sasl_chan = submit_sasl_result (some (sasl_error text)) chan;
  panicked = false;
}
sasl_failure chan _ = record {
  authenticates = [];
  raw = codes "CAP END" ∷ codes "QUIT" ∷ [];
  sasl_chan = chan;
  panicked = true;
}

abbrev pub sasl_success : Option SaslResult → SaslStep
sasl_success chan = record {
  authenticates = [];
  raw = [];
  sasl_chan = submit_sasl_result none chan;
  panicked = false;
}

abbrev pub is_one_of : List Bytes → Bytes → Bool
is_one_of [] s = false
is_one_of (c ∷ cs) s = bytes_eq s c || is_one_of cs s

-- RPL_LOGGEDOUT, ERR_NICKLOCKED and ERR_SASLFAIL; RPL_SASLSUCCESS and ERR_SASLALREADY.
abbrev pub failure_numerics : List Bytes
failure_numerics = codes "901" ∷ codes "902" ∷ codes "904" ∷ []

abbrev pub success_numerics : List Bytes
success_numerics = codes "903" ∷ codes "907" ∷ []

unfoldable pub sasl_callback : Config → Option SaslResult → Message → SaslStep
unfolding submit_sasl_result authenticate
sasl_callback config chan e =
    if bytes_eq e.command (codes "AUTHENTICATE")
    then record {
      authenticates = authenticate config;
      raw = [];
      sasl_chan = chan;
      panicked = false;
    }
    else if is_one_of failure_numerics e.command
    then sasl_failure chan e.params
    else if is_one_of success_numerics e.command
    then sasl_success chan
    else record { authenticates = []; raw = []; sasl_chan = chan; panicked = false }
