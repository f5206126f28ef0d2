-- ===== src/IrcEvent/SaslClient/Response.antt =====
-- What a server makes of the answers to AUTHENTICATE.
use irc_go.Prelude.{
  ℕ, ◌+◌, ◌≤◌, true, [], ◌∷◌, ◌++◌, none, some, codes, Bytes, bytes_eq, bytes_eq_iff, length,
  length-append, ◌≡◌, ◌⊎◌, refl, ap, ◌∙◌, arith,
}
use irc_go.IrcUtils.Sasl.{new_sasl_buffer, encode_sasl_response}
use irc_go.IrcUtils.Sasl.Base64.{AllBytes}
use irc_go.IrcUtils.Sasl.Chunks.{add_chunks, add_chunks-encode_sasl_response}
use irc_go.IrcEvent.Connection.{Config}
use irc_go.IrcEvent.SaslClient.{compose_sasl_plain_response, authenticate}

AllBytes-append : (s t : Bytes) → AllBytes s → AllBytes t → AllBytes (s ++ t)
unfolding AllBytes
AllBytes-append [] t h k = k
AllBytes-append (c ∷ s) t (h, hs) k = (h, AllBytes-append s t hs k)

AllBytes-compose_sasl_plain_response :
    (config : Config)
    → AllBytes config.sasl_login
    → AllBytes config.sasl_password
    → AllBytes (compose_sasl_plain_response config)
unfolding compose_sasl_plain_response AllBytes
AllBytes-compose_sasl_plain_response config h k =
    AllBytes-append config.sasl_login (0 ∷ (config.sasl_login ++ 0 ∷ config.sasl_password)) h
      (omega arith, AllBytes-append config.sasl_login (0 ∷ config.sasl_password) h (omega arith, k))

length-compose_sasl_plain_response :
    (config : Config)
    → length (compose_sasl_plain_response config)
      ≡ length config.sasl_login + length config.sasl_login + length config.sasl_password + 2
unfolding compose_sasl_plain_response
length-compose_sasl_plain_response config =
    let inner = length-append config.sasl_login (0 ∷ config.sasl_password) in
    let outer =
      length-append config.sasl_login (0 ∷ (config.sasl_login ++ 0 ∷ config.sasl_password)) in
    omega arith

-- With the mechanism PLAIN, a server that puts the parameters of the client's AUTHENTICATE commands
-- into a `SASLBuffer`, without limit or with one that leaves room for them, reads with the last of
-- them, and not before, the login, a NUL, the login, a NUL and the password.
pub authenticate-add_chunks :
    (config : Config) (m : ℕ)
    → config.sasl_mech ≡ codes "PLAIN"
    → AllBytes config.sasl_login
    → AllBytes config.sasl_password
    → (m ≡ 0)
      ⊎ (length config.sasl_login + length config.sasl_login + length config.sasl_password + 4 ≤ m)
    → add_chunks (new_sasl_buffer m) (authenticate config)
      ≡ some (
        (
          record {
            done = true;
            output = config.sasl_login ++ 0 ∷ (config.sasl_login ++ 0 ∷ config.sasl_password);
            err = none;
          },
          [],
        ),
        new_sasl_buffer m,
      )
unfolding authenticate compose_sasl_plain_response
authenticate-add_chunks config m mech h k room =
    let plain : bytes_eq config.sasl_mech (codes "PLAIN") ≡ true = (bytes_eq_iff _ _).1 mech in
    let raw = compose_sasl_plain_response config in
    let len = length-compose_sasl_plain_response config in
    let fits : (m ≡ 0) ⊎ (length raw + 2 ≤ m) = ground arith in
    let sent : authenticate config ≡ encode_sasl_response raw = rw plain refl in
    ap (add_chunks (new_sasl_buffer m)) sent
    ∙ add_chunks-encode_sasl_response m raw (AllBytes-compose_sasl_plain_response config h k) fits
