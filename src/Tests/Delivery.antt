-- ===== src/Tests/Delivery.antt =====
-- Packages ircevent and ircreader: the loops of a connection on small inputs.
use mathlib.Core.List.{Perm}
use irc_go.Prelude.{
  length, trim_suffix, ◌<◌, ℕ, ◌*◌, true, false, List, [], ◌∷◌, ◌++◌, none, some, ◌≡◌, ◌⊎◌, refl,
  arith, codes, Bytes, map, take, contains, insert, bytes_eq, to_upper, upper_byte,
}
use irc_go.IrcReader.{read_q, Chunk, conn_error, conn_eof, initialize}
use irc_go.IrcReader.Invariant.{pending, initialize-IsReader}
use irc_go.IrcReader.Lines.{stream}
use irc_go.IrcReader.Clean.{IsClean}
use irc_go.IrcReader.Stream.{
  read_msg_loop, read_connection, lines_of, newlines, read_msg_loop-lines_of,
}
use irc_go.IrcMsg.Message.{Message, returns, make_message, update_tags, set_tag}
use irc_go.IrcMsg.Line.{
  line_bytes_strict, line, write_head, write_params, write_source, param_requires_trailing,
  truncate_line, finish,
}
use irc_go.IrcMsg.Parse.{is_ascii, parse_line}
use irc_go.IrcEvent.Labels.{register_label}
use irc_go.IrcEvent.Labels.Waiting.{waiting}
use irc_go.IrcEvent.Caps.{batch_negotiated, label_negotiated}
use irc_go.IrcEvent.Batches.{Batches, Action, expire_batches, reset_batches}
use irc_go.IrcEvent.Batches.History.{History, at_start, after_register, History-once}
use irc_go.IrcEvent.Connection.{
  network_error, Config, Connection, send_internal, pop_write, prepare, check_config,
  early_defaults, sasl_defaults, late_defaults, open_socket,
}
use irc_go.IrcEvent.Connection.Lifecycle.{
  Reachable, at_start as at_rest, after_open, after_send as sent, first_error,
}
use irc_go.IrcEvent.Connection.Sending.{
  done, send_irc_message, send_with_tags, send, privmsg, action,
}
use irc_go.IrcEvent.Ctcp.{event_rewrite_ctcp}
use irc_go.IrcEvent.Ctcp.RoundTrip.{event_rewrite_ctcp-action}
use irc_go.IrcEvent.Connection.Writer.{
  goes_on, returned, write_round, write_round_fails, blocked, joined, write_rounds,
  write_rounds_drain,
}
use irc_go.IrcEvent.Connection.Delivery.{Transfer, nothing_sent, after_send, after_round}
use irc_go.IrcEvent.Connection.Delivery.Account.{AllCanonical, read_lines, as_read}
use irc_go.IrcEvent.Connection.ReadLoop.{Client, goes_on as continues, read_loop, arrivals}
use irc_go.IrcEvent.Connection.ReadLoop.Dispatch.{plain, handle_all, read_loop-Transfer}
use irc_go.IrcEvent.Connection.Loop.{Pass, loop, AreSpaced, loop-IsOrderly}

abbrev two_pieces : List Chunk
two_pieces =
    record { bytes = codes "PING a\r"; err = none }
    ∷ record { bytes = codes "\nPING b\r\n"; err = none }
    ∷ []

two_pieces-IsClean : IsClean two_pieces
unfolding IsClean
two_pieces-IsClean = (refl, (refl, tt))

starts_open : (initialize 1024 8704).eof ≡ false
unfolding initialize
starts_open = refl

two_newlines : newlines (pending (initialize 1024 8704) ++ stream two_pieces) < 3
unfolding initialize stream newlines
two_newlines = omega arith

read_msg_loop-lines_of_example :
    read_msg_loop 3 (initialize 1024 8704) two_pieces
    ≡ some (
        lines_of
          (initialize 1024 8704).max_size
          []
          (pending (initialize 1024 8704) ++ stream two_pieces))
read_msg_loop-lines_of_example =
    read_msg_loop-lines_of 3 (initialize 1024 8704) two_pieces
      (initialize-IsReader 1024 8704 (omega arith) (omega arith)) starts_open two_pieces-IsClean
      two_newlines

two_lines_taken :
    lines_of 8704 [] (stream two_pieces)
    ≡ (codes "PING a" ∷ codes "PING b" ∷ [], conn_error conn_eof)
unfolding lines_of stream trim_suffix
two_lines_taken = refl

-- The second line is too long.
too_long_stops : lines_of 6 [] (codes "PING\r\nPING b\r\n") ≡ (codes "PING" ∷ [], read_q)
unfolding lines_of trim_suffix
too_long_stops = refl

abbrev config : Config
config = record {
  server = codes "localhost:6667";
  nick = codes "dan";
  user = codes "dan";
  real_name = [];
  web_irc = [];
  password = [];
  request_caps = [];
  sasl_login = [];
  sasl_password = [];
  sasl_mech = codes "PLAIN";
  sasl_optional = false;
  quit_message = [];
  version = codes "test";
  timeout = 60;
  keep_alive = 240;
  reconnect_freq = 120;
  max_line_len = 512;
  use_sasl = false;
  allow_truncation = false;
}

abbrev idle : Connection
idle = record {
  config = config;
  running = true;
  end_closed = false;
  last_error = none;
  quit = false;
  quit_at = 0;
  ping_sent = false;
  current_nick = [];
  pwrite = [];
}

abbrev hello : Message
hello = make_message [] [] (codes "PRIVMSG") (codes "#go" ∷ codes "hello world" ∷ [])

abbrev hello_line : Bytes
hello_line = codes "PRIVMSG #go :hello world\r\n"

abbrev loaded : Connection
loaded = record idle { pwrite = hello_line ∷ [] }

hello_sent : send_irc_message idle hello ≡ done none loaded
unfolding send_irc_message send_internal line_bytes_strict line write_head write_params write_source
    param_requires_trailing truncate_line finish contains make_message update_tags set_tag insert
hello_sent = refl

abbrev waved : Connection
waved = record idle {
  pwrite = (codes "PRIVMSG #go :\u{1}ACTION waves\u{1}" ++ b'\r' ∷ b'\n' ∷ []) ∷ [];
}

waves_sent : action idle (codes "#go") (codes "waves") ≡ done none waved
unfolding action privmsg send send_with_tags send_irc_message send_internal line_bytes_strict line
    write_head write_params write_source param_requires_trailing truncate_line finish contains
    make_message update_tags set_tag insert
waves_sent = refl

event_rewrite_ctcp-action_example :
    (body : Bytes) × (event : Message) × (waved
      ≡ record idle { pwrite = [] ++ (body ++ b'\r' ∷ b'\n' ∷ []) ∷ [] })
    × (parse_line body 0 0 ≡ returns event none)
    × (event_rewrite_ctcp (record event { source = codes "ann!a@h" }) ≡ record event {
      source = codes "ann!a@h";
      command = codes "CTCP_ACTION";
      params = codes "#go" ∷ codes "waves" ∷ [];
    })
event_rewrite_ctcp-action_example =
    event_rewrite_ctcp-action idle waved (codes "#go") (codes "waves") (codes "ann!a@h")
      (omega arith) refl waves_sent

hello_written : write_round true none loaded [] ≡ goes_on idle hello_line
unfolding write_round pop_write
hello_written = refl

hello-AllCanonical : AllCanonical (hello ∷ [])
unfolding AllCanonical to_upper upper_byte is_ascii contains make_message update_tags
hello-AllCanonical = (
  record {
    upper = refl;
    ascii = refl;
    word = refl;
    plain = refl;
    source_word = refl;
    regular = tt;
    client = tt;
  },
  tt,
)

abbrev hello_pieces : List Chunk
hello_pieces =
    record { bytes = codes "PRIVMSG #go :hel"; err = none }
    ∷ record { bytes = codes "lo world\r\n"; err = none }
    ∷ []

hello_pieces-IsClean : IsClean hello_pieces
unfolding IsClean
hello_pieces-IsClean = (refl, (refl, tt))

hello_pieces_written : stream hello_pieces ≡ hello_line
unfolding stream
hello_pieces_written = refl

abbrev hello_transfer : Transfer idle (hello ∷ []) idle hello_line
hello_transfer =
    after_round true idle hello_line (after_send hello loaded nothing_sent hello_sent) hello_written

-- A peer whose handlers do nothing.
abbrev ignore : Action ℕ → Client ℕ → Client ℕ
ignore _ st = st

abbrev ignore_callback : ℕ → Client ℕ → Client ℕ
ignore_callback callback st = st

abbrev no_batches : Batches ℕ
no_batches = record {
  heap = [];
  batches = [];
  labels = record { label_callbacks = []; label_counter = 0 };
}

abbrev peer : Client ℕ
peer = record {
  connection = idle;
  caps = record {
    request_caps = [];
    caps_advertised = [];
    caps_acked = [];
    registered = true;
    caps_chan = [];
    caps_room = 0;
    cap_flags = 0;
  };
  batches = no_batches;
  last_check = 0;
}

no_batch_flag : batch_negotiated peer.caps ≡ false
unfolding batch_negotiated
no_batch_flag = refl

no_label_flag : label_negotiated peer.caps ≡ false
unfolding label_negotiated
no_label_flag = refl

abbrev seconds : ℕ → ℕ
seconds i = i * 1000000000

read_loop-Transfer_example :
    (lines : List Bytes) × (read_connection 2 512 hello_pieces ≡ some (lines, conn_error conn_eof))
    × (read_lines lines ≡ map as_read (hello ∷ []))
    × (read_loop ignore ignore_callback (arrivals seconds 0 lines) peer
        ≡ continues (handle_all ignore ignore_callback (map plain (hello ∷ [])) peer))
read_loop-Transfer_example =
    read_loop-Transfer ignore ignore_callback idle idle (hello ∷ []) hello_line 512 hello_pieces
      seconds peer refl (omega arith) refl hello-AllCanonical hello_transfer refl (omega arith)
      hello_pieces-IsClean hello_pieces_written (λ a x. refl) no_batch_flag no_label_flag

abbrev before_connect : Connection
before_connect = record idle { running = false; end_closed = true }

prepared_well : (prepare before_connect).0 ≡ none
unfolding prepare check_config early_defaults sasl_defaults late_defaults bytes_eq
prepared_well = refl

idle-Reachable : Reachable idle
unfolding open_socket prepare check_config early_defaults sasl_defaults late_defaults bytes_eq
idle-Reachable = after_open before_connect (at_rest before_connect refl) prepared_well

hello_queued : send_internal idle hello_line ≡ some (none, loaded)
unfolding send_internal
hello_queued = refl

loaded-Reachable : Reachable loaded
loaded-Reachable = sent idle loaded hello_line none idle-Reachable hello_queued

write_round_fails_example :
    (c' : Connection) × (write_round false (some (7, network_error 32)) loaded []
      ≡ returned c' ([] ++ take 7 hello_line))
    × (c'.running ≡ false)
    × (c'.last_error ≡ first_error none (network_error 32))
write_round_fails_example =
    write_round_fails loaded [] b'P' (codes "RIVMSG #go :hello world\r\n") [] 7 (network_error 32)
      loaded-Reachable refl

write_rounds_drain_example :
    (write_rounds (length loaded.pwrite) loaded []
      ≡ goes_on (record loaded { pwrite = [] }) ([] ++ joined loaded.pwrite))
    × (write_round false none (record loaded { pwrite = [] }) ([] ++ joined loaded.pwrite)
        ≡ blocked)
write_rounds_drain_example = write_rounds_drain loaded []

abbrev registered_once : Batches ℕ
registered_once = record no_batches { labels = (register_label no_batches.labels 5 8).1 }

registered_History : History registered_once (8 ∷ []) [] []
unfolding reset_batches
registered_History = after_register 5 8 (omega arith) (at_start no_batches)

History-once_example :
    Perm (8 ∷ []) ([] ++ ([] ++ waiting registered_once.labels))
    × Perm (8 ∷ []) (((expire_batches registered_once true 6 240).0 ++ []) ++ [])
History-once_example = History-once registered_once (8 ∷ []) [] [] 6 240 registered_History

abbrev fails_to_connect : Connection × Batches ℕ → Connection × Batches ℕ
fails_to_connect st = st

abbrev two_passes : List (Pass ℕ)
two_passes =
    record { now = 10; signalled = false; extra = 1; connected = fails_to_connect }
    ∷ record { now = 11; signalled = false; extra = 0; connected = fails_to_connect }
    ∷ []

loop-IsOrderly_example :
    let run = loop none two_passes idle registered_once in
    AreSpaced none run.attempts
    × ((run.has_returned ≡ false)
        ⊎ ((run.connection.quit ≡ true) × (waiting run.batches.labels ≡ [])))
loop-IsOrderly_example = loop-IsOrderly none two_passes idle registered_once
