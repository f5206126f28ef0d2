-- ===== src/IrcEvent/Connection.antt =====
-- ircevent/irc.go: the connection. The channel `end` is a flag, and `pwrite` a list with a capacity;
-- the socket, the goroutines and the clock are the caller's: what they do is a call of one of the
-- operations below, each of which runs under `stateMutex` or holds it where it changes the state.
pub mod Checked
pub mod Lifecycle
pub mod Tick
pub mod Sending
pub mod Connect
pub mod Writer
pub mod Delivery
pub mod ReadLoop
pub mod Loop
pub mod Dial
use irc_go.Prelude.{
  ℕ, ◌+◌, ◌-◌, ◌*◌, ◌/◌, ◌%◌, Bool, true, false, ◌&&◌, ◌||◌, not, ◌==◌, ltb, leb, within, List, [],
  ◌∷◌, ◌++◌, Option, none, some, codes, Bytes, bytes_eq, has_prefix, length, drop, if◌then◌else◌,
}
use irc_go.IrcMsg.Message.{MsgError}
use irc_go.IrcEvent.Caps.{slice_contains}

pub data ClientError : Type 0 where
  client_disconnected server_timed_out server_disconnected sasl_failed : ClientError
  capability_not_negotiated no_labeled_response server_did_not_quit client_has_quit : ClientError
  no_server keep_alive_too_short unsupported_sasl_mech : ClientError
  network_error : ℕ → ClientError
  sasl_error : Bytes → ClientError
  message_error : MsgError → ClientError

-- The configuration. Durations are numbers of nanoseconds.
pub record Config : Type 0 where
  pub server : Bytes
  pub nick : Bytes
  pub user : Bytes
  pub real_name : Bytes
  pub web_irc : List Bytes
  pub password : Bytes
  pub request_caps : List Bytes
  pub sasl_login : Bytes
  pub sasl_password : Bytes
  pub sasl_mech : Bytes
  pub sasl_optional : Bool
  pub quit_message : Bytes
  pub version : Bytes
  pub timeout : ℕ
  pub keep_alive : ℕ
  pub reconnect_freq : ℕ
  pub max_line_len : ℕ
  pub use_sasl : Bool
  pub allow_truncation : Bool

-- The fields under `stateMutex` that change while a connection lives.
pub record Connection : Type 0 where
  pub config : Config
  pub running : Bool
  pub end_closed : Bool
  pub last_error : Option ClientError
  pub quit : Bool
  pub quit_at : ℕ
  pub ping_sent : Bool
  pub current_nick : Bytes
  pub pwrite : List Bytes

-- `closeEndNoMutex`; `none` is the panic of closing a closed channel.
unfoldable pub close_end : Connection → Option Connection
close_end c =
    if c.running
    then (if c.end_closed then none else some (record c { running = false; end_closed = true }))
    else some c

unfoldable pub set_error : Connection → ClientError → Option Connection
unfolding close_end
set_error c err = elim c.last_error [
  | some _ ↦ some c
  | none ↦ close_end (record c { last_error = some err })
]

abbrev pub keepalive_prefix : Bytes
keepalive_prefix = codes "KeepAlive-"

-- The digits of an int64 behind the sign, and the test of `strconv.ParseInt(ts, 10, 64)`.
abbrev pub decimal : ℕ → Bytes → Option ℕ
decimal acc [] = some acc
decimal acc (c ∷ s) =
    let rest = decimal (acc * 10 + (c - b'0')) s in if within b'0' b'9' c then rest else none

abbrev pub below : ℕ → Option ℕ → Bool
below limit none = false
below limit (some n) = ltb n limit

abbrev pub unsigned : Bytes → Option ℕ
unsigned [] = none
unsigned (c ∷ s) = decimal 0 (c ∷ s)

abbrev pub is_int64 : Bytes → Bool
is_int64 [] = false
is_int64 (c ∷ s) =
    if c == b'-'
    then below 9223372036854775809 (unsigned s)
    else if c == b'+'
    then below 9223372036854775808 (unsigned s)
    else below 9223372036854775808 (unsigned (c ∷ s))

unfoldable pub record_pong : Connection → Bytes → Connection
record_pong c param =
    if has_prefix param keepalive_prefix && is_int64 (drop (length keepalive_prefix) param)
    then record c { ping_sent = false }
    else c

-- What a tick makes the client do once it has left the mutex.
pub record TickAction : Type 0 where
  pub fatal : Option ClientError
  pub should_ping : Bool
  pub should_renick : Bool

abbrev pub no_action : TickAction
no_action = record { fatal = none; should_ping = false; should_renick = false }

-- `processTick` up to the deferred calls, at a time; `none` is a division by zero.
unfoldable pub tick_state : Connection → ℕ → ℕ → Option (TickAction × Connection)
tick_state c now tick =
    if c.quit && leb c.config.timeout (now - c.quit_at)
    then some (record no_action { fatal = some server_did_not_quit }, c)
    else if c.ping_sent
    then some (record no_action { fatal = some server_timed_out }, c)
    else if c.config.timeout == 0 || c.config.keep_alive / c.config.timeout == 0
    then none
    else if tick % (c.config.keep_alive / c.config.timeout) == 0
    then some (
      record {
        fatal = none;
        should_ping = true;
        should_renick = not (bytes_eq c.current_nick c.config.nick);
      },
      record c { ping_sent = true },
    )
    else some (no_action, c)

-- `sendInternal`; `none` while the queue is full, where the caller waits.
unfoldable pub send_internal : Connection → Bytes → Option (Option ClientError × Connection)
send_internal c b =
    if not c.running
    then some (some client_disconnected, c)
    else if ltb (length c.pwrite) 10
    then some (none, record c { pwrite = c.pwrite ++ b ∷ [] })
    else none

abbrev pub popped : Connection → List Bytes → Option (Bytes × Connection)
popped c [] = none
popped c (b ∷ rest) = some (b, record c { pwrite = rest })

-- `<-irc.pwrite`; `none` while the queue is empty.
unfoldable pub pop_write : Connection → Option (Bytes × Connection)
pop_write c = popped c c.pwrite

unfoldable pub send_raw : Connection → Bytes → Option (Option ClientError × Connection)
unfolding send_internal
send_raw c message = send_internal c (message ++ b'\r' ∷ b'\n' ∷ [])

abbrev pub default_to : Bytes → Bytes → Bytes
default_to fallback [] = fallback
default_to fallback (c ∷ s) = c ∷ s

abbrev pub default_number : ℕ → ℕ → ℕ
default_number fallback n = if n == 0 then fallback else n

abbrev pub nanoseconds : ℕ → ℕ
nanoseconds seconds = seconds * 1000000000

abbrev pub is_empty : Bytes → Bool
is_empty [] = true
is_empty (_ ∷ _) = false

-- The defaults up to the test of KeepAlive.
unfoldable pub early_defaults : Config → Config
early_defaults c =
    let nick = default_to (codes "ircevent") c.nick in
    record c {
      nick = nick;
      user = default_to nick c.user;
      keep_alive = default_number (nanoseconds 240) c.keep_alive;
      timeout = default_number (nanoseconds 60) c.timeout;
    }

-- The defaults from there to the test of the SASL mechanism.
unfoldable pub sasl_defaults : Config → Config
sasl_defaults c =
    let use_sasl = c.use_sasl || (not (is_empty c.sasl_login) && not (is_empty c.sasl_password)) in
    record c {
      reconnect_freq = default_number (nanoseconds 120) c.reconnect_freq;
      use_sasl = use_sasl;
      request_caps =
          if use_sasl && not (slice_contains (codes "sasl") c.request_caps)
          then c.request_caps ++ codes "sasl" ∷ []
          else c.request_caps;
      sasl_mech = default_to (codes "PLAIN") c.sasl_mech;
    }

unfoldable pub late_defaults : Config → Config
late_defaults c = record c {
  max_line_len = default_number 512 c.max_line_len;
  version = default_to (codes "ergochat/irc-go") c.version;
}

-- The tests of the configuration in `Connect`; what was set before a failing test stays set.
unfoldable pub check_config : Config → Option ClientError × Config
check_config c =
    if is_empty c.server
    then (some no_server, c)
    else let c1 = early_defaults c in
      elim (ltb c1.keep_alive c1.timeout) [
        | true ↦ (some keep_alive_too_short, c1)
        | false ↦
            let c2 = sasl_defaults c1 in
            elim (bytes_eq c2.sasl_mech (codes "PLAIN")
              || bytes_eq c2.sasl_mech (codes "EXTERNAL")) [
                | false ↦ (some unsupported_sasl_mech, c2)
                | true ↦ (none, late_defaults c2)
              ]
      ]

-- The first part of `Connect`.
unfoldable pub prepare : Connection → Option ClientError × Connection
prepare c =
    if c.quit
    then (some client_has_quit, c)
    else let checked = check_config c.config in
      (
        checked.0,
        record c {
          config = checked.1;
          running = false;
          current_nick = [];
          last_error = none;
          ping_sent = false;
        },
      )

-- The reset of the state once the socket is open.
unfoldable pub open_socket : Connection → Connection
open_socket c = record c { running = true; end_closed = false; pwrite = [] }

unfoldable pub start_quit : Connection → ℕ → Connection
start_quit c now = record c { quit = true; quit_at = now }

unfoldable pub set_nick : Connection → Bytes → Connection
set_nick c n = record c { config = record c.config { nick = n } }

unfoldable pub set_current_nick : Connection → Bytes → Connection
set_current_nick c nick = record c { current_nick = nick }
