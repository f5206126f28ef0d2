-- ===== src/Tests/Session.antt =====
-- Package ircevent: the callbacks of a session, of CTCP and of SASL on small inputs.
use irc_go.Prelude.{
  ℕ, string_eq, lookup, cut, true, false, [], ◌∷◌, ◌++◌, none, some, ◌≡◌, ◌≢◌, refl, inr, arith,
  codes, bytes_eq, contains,
}
use irc_go.IrcMsg.Message.{TagMap, Message, no_message}
use irc_go.IrcUtils.Sasl.{new_sasl_buffer}
use irc_go.IrcUtils.Sasl.Base64.{AllBytes}
use irc_go.IrcUtils.Sasl.Chunks.{add_chunks}
use irc_go.IrcEvent.Connection.{Config}
use irc_go.IrcEvent.Registry.{Registry}
use irc_go.IrcEvent.Setup.{Callback, library, client, setup_callbacks}
use irc_go.IrcEvent.Setup.Order.{callbacks_of, setup_callbacks_first}
use irc_go.IrcEvent.Session.{
  Session, unescape_isupport_value, parse_octet, octet_of, unescape_value_loop,
}
use irc_go.IrcEvent.Session.Isupport.{
  escape_value, run_base_callbacks, unescape_isupport_value-escape_value,
  handle_registration-isupport,
}
use irc_go.IrcEvent.Session.Tokens.{token_value, last_value, tokens_sent, still_registering}
use irc_go.IrcEvent.Session.Kept.{ends_registration}
use irc_go.IrcEvent.SaslClient.{authenticate, sasl_callback}
use irc_go.IrcEvent.SaslClient.Response.{authenticate-add_chunks}

abbrev config : Config
config = record {
  server = codes "localhost:6667";
  nick = codes "dan";
  user = codes "dan";
  real_name = [];
  web_irc = [];
  password = [];
  request_caps = [];
  sasl_login = codes "dan";
  sasl_password = codes "secret";
  sasl_mech = codes "PLAIN";
  sasl_optional = true;
  quit_message = [];
  version = [];
  timeout = 1;
  keep_alive = 4;
  reconnect_freq = 1;
  max_line_len = 512;
  use_sasl = true;
  allow_truncation = false;
}

abbrev session : Session
session = record {
  conn = record {
    config = config;
    running = true;
    end_closed = false;
    last_error = none;
    quit = false;
    quit_at = 0;
    ping_sent = false;
    current_nick = [];
    pwrite = [];
  };
  nick_counter = 3;
  registered = false;
  isupport = none;
  isupport_partial = some [];
  welcome_chan = false;
}

abbrev isupport : Message
isupport = record no_message {
  command = codes "005";
  params = codes "dan" ∷ codes "CHANTYPES=+" ∷ codes "are supported" ∷ [];
}

unescape_isupport_value-escape_value_example :
    unescape_isupport_value (escape_value (codes "a b=c")) ≡ codes "a b=c"
unescape_isupport_value-escape_value_example = unescape_isupport_value-escape_value (codes "a b=c")

-- A sign and a digit pass for two hexadecimal digits.
signed_octet : unescape_isupport_value (codes "\\x-1") ≡ 255 ∷ []
unfolding unescape_isupport_value unescape_value_loop octet_of parse_octet contains
signed_octet = refl

abbrev end_of_motd : Message
end_of_motd = record no_message { command = codes "376"; params = codes "dan" ∷ [] }

-- A later token for the same key.
abbrev more_types : Message
more_types = record no_message {
  command = codes "005";
  params = codes "dan" ∷ codes "CHANTYPES=#" ∷ codes "SAFELIST" ∷ codes "are supported" ∷ [];
}

registering : still_registering (isupport ∷ more_types ∷ []) ≡ true
unfolding still_registering bytes_eq
registering = refl

motd_ends : ends_registration end_of_motd ≡ true
unfolding bytes_eq
motd_ends = refl

last_types :
    last_value (codes "CHANTYPES") (tokens_sent (isupport ∷ more_types ∷ [])) ≡ some (codes "#")
unfolding last_value token_value tokens_sent unescape_isupport_value cut bytes_eq contains
last_types = refl

handle_registration-isupport_example :
    (m : TagMap) × ((run_base_callbacks session
        ((isupport ∷ more_types ∷ []) ++ end_of_motd ∷ isupport ∷ [])).isupport
      ≡ some m)
    × (lookup (codes "CHANTYPES") m
        ≡ last_value (codes "CHANTYPES") (tokens_sent (isupport ∷ more_types ∷ [])))
handle_registration-isupport_example =
    handle_registration-isupport session (isupport ∷ more_types ∷ []) end_of_motd (isupport ∷ [])
      (codes "CHANTYPES") refl refl registering motd_ends

abbrev one : ℕ
one = 1

one_two : one ≢ 2
one_two e = omega arith

login_bytes : AllBytes (codes "dan")
unfolding AllBytes
login_bytes = (omega arith, (omega arith, (omega arith, tt)))

password_bytes : AllBytes (codes "secret")
unfolding AllBytes
password_bytes =
    (omega arith, (omega arith, (omega arith, (omega arith, (omega arith, (omega arith, tt))))))

authenticate-add_chunks_example :
    add_chunks (new_sasl_buffer 64) (authenticate config)
    ≡ some (
      (
        record {
          done = true;
          output = codes "dan" ++ 0 ∷ (codes "dan" ++ 0 ∷ codes "secret");
          err = none;
        },
        [],
      ),
      new_sasl_buffer 64,
    )
authenticate-add_chunks_example =
    authenticate-add_chunks config 64 refl login_bytes password_bytes (inr (omega arith))

abbrev refused : Message
refused = record no_message {
  command = codes "904";
  params = codes "dan" ∷ codes "SASL authentication failed" ∷ [];
}

-- A failure makes the client quit, also where SASL is optional.
optional_failure_quits :
    (sasl_callback config none refused).raw ≡ codes "CAP END" ∷ codes "QUIT" ∷ []
unfolding sasl_callback bytes_eq
optional_failure_quits = refl

-- A client that has a callback for NICK; it is a number here.
abbrev own_callbacks : Registry (Callback ℕ) ℕ
own_callbacks = record {
  events = (codes "NICK", (0, client 7) ∷ []) ∷ [];
  callback_counter = 1;
  batch_callbacks = [];
}

setup_callbacks_first_example :
    let r' = setup_callbacks false true true own_callbacks in
    (callbacks_of r' (codes "NICK")
      ≡ library (codes "NICK") ∷ callbacks_of own_callbacks (codes "NICK"))
    × (callbacks_of r' (codes "376")
        ≡ library (codes "376") ∷ callbacks_of own_callbacks (codes "376"))
    × (callbacks_of r' (codes "422")
        ≡ library (codes "422") ∷ callbacks_of own_callbacks (codes "422"))
setup_callbacks_first_example = setup_callbacks_first own_callbacks true true
