-- ===== src/Tests/Connect.antt =====
-- Package ircevent: connections on small inputs.
use irc_go.Prelude.{
  ℕ, ◌+◌, ◌/◌, ◌≤◌, ◌==◌, true, false, List, [], ◌∷◌, ◌++◌, Option, none, some, ◌≡◌, ◌⊎◌, refl, inl,
  arith, codes, Bytes, length, bytes_eq, contains, insert, nat_eq, lookup, if◌then◌else◌,
}
use irc_go.IrcMsg.Message.{Message, make_message, update_tags, set_tag}
use irc_go.IrcMsg.Line.{
  line_bytes_strict, line, write_head, write_params, write_source, param_requires_trailing,
  truncate_line, finish,
}
use irc_go.IrcEvent.Labels.{Labels}
use irc_go.IrcEvent.Caps.{CapEvent, cap_result, timed_out, wait_for_caps, slice_contains}
use irc_go.IrcEvent.Connection.{
  ClientError, server_disconnected, sasl_failed, Config, Connection, TickAction, close_end,
  set_error, tick_state, send_internal, check_config, prepare, open_socket, early_defaults,
  sasl_defaults, late_defaults,
}
use irc_go.IrcEvent.Connection.Lifecycle.{
  Reachable, at_start, after_open, after_tick, first_error, set_error_stops,
}
use irc_go.IrcEvent.Connection.Sending.{
  ping, Run, done, waits, crashes, send, send_with_tags, send_irc_message, send_with_label,
  process_tick, failed,
}
use irc_go.IrcEvent.Connection.Connect.{
  sasl_result, welcomed, connect, greet, introduce, negotiate_caps,
}
use irc_go.IrcEvent.Connection.Connect.Outcome.{connect_fails_stopped}
use irc_go.IrcEvent.Connection.Connect.Required.{connect_authenticates}
use irc_go.IrcEvent.Connection.Sending.Labeled.{send_with_label-lookup}
use irc_go.IrcEvent.Connection.Sending.PingLoop.{
  ping_loop, IsEnded, IsAsBefore, IsSilent, ping_loop_detects,
}

abbrev config : Config
config = record {
  server = codes "localhost:6667";
  nick = codes "dan";
  user = [];
  real_name = [];
  web_irc = [];
  password = [];
  request_caps = [];
  sasl_login = codes "dan";
  sasl_password = codes "secret";
  sasl_mech = [];
  sasl_optional = false;
  quit_message = [];
  version = [];
  timeout = 0;
  keep_alive = 0;
  reconnect_freq = 0;
  max_line_len = 0;
  use_sasl = false;
  allow_truncation = false;
}

abbrev new_connection : Connection
new_connection = record {
  config = config;
  running = false;
  end_closed = true;
  last_error = none;
  quit = false;
  quit_at = 0;
  ping_sent = false;
  current_nick = [];
  pwrite = [];
}

abbrev checked : Config
checked = (prepare new_connection).1.config

abbrev opened : Connection
opened = open_socket (prepare new_connection).1

prepared_well : (prepare new_connection).0 ≡ none
unfolding prepare check_config early_defaults sasl_defaults late_defaults slice_contains bytes_eq
prepared_well = refl

opened-Reachable : Reachable opened
opened-Reachable = after_open new_connection (at_start new_connection refl) prepared_well

set_error_stops_example :
    ((c' : Connection) × (close_end opened ≡ some c') × (c'.running ≡ false))
    × ((c' : Connection) × (set_error opened sasl_failed ≡ some c')
        × (c'.running ≡ false)
        × (c'.last_error ≡ first_error opened.last_error sasl_failed))
set_error_stops_example = set_error_stops opened sasl_failed opened-Reachable

abbrev pinging : TickAction
pinging = record { fatal = none; should_ping = true; should_renick = true }

abbrev pinged : Connection
pinged = record opened { ping_sent = true }

due : tick_state opened 1000 4 ≡ some (pinging, pinged)
unfolding tick_state prepare check_config early_defaults sasl_defaults late_defaults slice_contains
    bytes_eq open_socket
due = refl

no_quit : opened.quit ≡ false
unfolding prepare open_socket
no_quit = refl

pinged-Reachable : Reachable pinged
pinged-Reachable = after_tick opened pinged 1000 4 pinging opened-Reachable due

is_running : pinged.running ≡ true
unfolding open_socket
is_running = refl

abbrev five_ticks : List (ℕ × Bytes)
five_ticks = (1, codes "1") ∷ (2, codes "2") ∷ (3, codes "3") ∷ (4, codes "4") ∷ (5, codes "5") ∷ []

abbrev last_state : Run → Connection
last_state (done _ c) = c
last_state waits = new_connection
last_state crashes = new_connection

opened_running : opened.running ≡ true
unfolding open_socket
opened_running = refl

enough_ticks : opened.config.keep_alive / opened.config.timeout + 1 ≤ length five_ticks
unfolding prepare check_config early_defaults sasl_defaults late_defaults slice_contains bytes_eq
    open_socket
enough_ticks = omega arith

-- The writer empties the queue between two ticks.
abbrev drains : ℕ → Connection → Connection
drains n c = record c { pwrite = [] }

abbrev OthersFail : ClientError → Type 0
OthersFail e = e ≡ server_disconnected

drains-IsSilent : IsSilent OthersFail drains
unfolding IsAsBefore
drains-IsSilent = record {
  same_config = λ n c. refl;
  no_quit = λ n c. refl;
  no_pong = λ n c h. h;
  goes_on = λ n c h. inl (refl, refl, refl);
  stays = λ n c h. (refl, refl, refl);
}

five_ticks_pass :
    ping_loop drains 0 five_ticks opened
    ≡ done none (last_state (ping_loop drains 0 five_ticks opened))
unfolding ping_loop process_tick tick_state ping set_error close_end prepare check_config
    early_defaults sasl_defaults late_defaults slice_contains bytes_eq open_socket send
    send_with_tags send_irc_message send_internal line_bytes_strict line write_head write_params
    write_source param_requires_trailing truncate_line finish contains make_message update_tags
    set_tag insert
five_ticks_pass = refl

ping_loop_detects_example : IsEnded OthersFail (last_state (ping_loop drains 0 five_ticks opened))
ping_loop_detects_example =
    ping_loop_detects OthersFail drains opened (last_state (ping_loop drains 0 five_ticks opened))
      five_ticks none drains-IsSilent opened-Reachable opened_running no_quit enough_ticks
      five_ticks_pass

abbrev small_config : Config
small_config = record config { max_line_len = 512; timeout = 1; keep_alive = 4 }

abbrev ready : Connection
ready = record new_connection { config = small_config; running = true; end_closed = false }

abbrev hello : Message
hello = make_message [] [] (codes "PRIVMSG") (codes "#go" ∷ codes "hello" ∷ [])

abbrev no_error : Option ClientError
no_error = none

abbrev hello_line : Bytes
hello_line = codes "PRIVMSG #go hello" ++ b'\r' ∷ b'\n' ∷ []

abbrev no_labels : Labels ℕ
no_labels = record { label_callbacks = []; label_counter = 41 }

no_label : lookup 42 no_labels.label_callbacks ≡ none
unfolding lookup
no_label = refl

send_with_label-lookup_example :
    let (out, labels') =
      send_with_label ready no_labels true 5 8 [] (codes "WHOIS") (codes "dan" ∷ []) in
    lookup 42 labels'.label_callbacks ≡ (
      if failed out
      then lookup 42 no_labels.label_callbacks
      else if no_labels.label_counter + 1 == 42
      then some (record { created_at = 5; callback = 8 })
      else lookup 42 no_labels.label_callbacks)
send_with_label-lookup_example =
    send_with_label-lookup ready no_labels true 5 42 8 [] (codes "WHOIS") (codes "dan" ∷ [])
      (omega arith) no_label

abbrev alone : Connection → Connection
alone c = c

abbrev sasl_acknowledged : List CapEvent
sasl_acknowledged = cap_result (record { cap_name = codes "sasl"; ack = true }) ∷ []

abbrev refused : Run
refused =
    connect alone none sasl_acknowledged (sasl_result (some sasl_failed)) welcomed new_connection

refused_fails : refused ≡ done (some sasl_failed) (last_state refused)
unfolding connect prepare check_config early_defaults sasl_defaults late_defaults slice_contains
    bytes_eq open_socket greet negotiate_caps wait_for_caps introduce close_end send send_with_tags
    send_irc_message send_internal line_bytes_strict line write_head write_params write_source
    param_requires_trailing truncate_line finish contains make_message update_tags set_tag insert
refused_fails = refl

connect_fails_stopped_example : (last_state refused).running ≡ false
connect_fails_stopped_example =
    connect_fails_stopped alone none sasl_acknowledged (sasl_result (some sasl_failed)) welcomed
      new_connection (last_state refused) sasl_failed refl refused_fails

abbrev accepted : Run
accepted = connect alone none sasl_acknowledged (sasl_result none) welcomed new_connection

accepted_succeeds : accepted ≡ done none (last_state accepted)
unfolding connect prepare check_config early_defaults sasl_defaults late_defaults slice_contains
    bytes_eq open_socket greet negotiate_caps wait_for_caps introduce close_end send send_with_tags
    send_irc_message send_internal line_bytes_strict line write_head write_params write_source
    param_requires_trailing truncate_line finish contains make_message update_tags set_tag insert
accepted_succeeds = refl

uses_sasl : (prepare new_connection).1.config.use_sasl ≡ true
unfolding prepare check_config early_defaults sasl_defaults late_defaults slice_contains bytes_eq
uses_sasl = refl

sasl_required : (prepare new_connection).1.config.sasl_optional ≡ false
unfolding prepare check_config early_defaults sasl_defaults late_defaults slice_contains bytes_eq
sasl_required = refl

connect_authenticates_example :
    let waited =
      wait_for_caps (length (prepare new_connection).1.config.request_caps) [] sasl_acknowledged in
    (welcomed ≡ welcomed)
    × ((waited.0 ≡ timed_out)
        ⊎ ((slice_contains (codes "sasl") waited.1 ≡ true) × (sasl_result none ≡ sasl_result none)))
connect_authenticates_example =
    connect_authenticates alone none sasl_acknowledged (sasl_result none) welcomed new_connection
      (last_state accepted) uses_sasl sasl_required accepted_succeeds
