-- ===== src/IrcEvent/Session.antt =====
-- ircevent/irc_callback.go and ircevent/irc_struct.go: the callbacks that keep the state of a
-- session, and the target of a reply. What a callback passes to `Send` is part of its result.
pub mod Kept
pub mod Tokens
pub mod Isupport
pub mod Attempts
pub mod Target
use irc_go.Prelude.{
  ℕ, zero, suc, ◌+◌, ◌-◌, ◌*◌, ◌/◌, ◌%◌, Bool, true, false, ◌&&◌, ◌||◌, not, ◌==◌, ltb, within,
  List, [], ◌∷◌, ◌++◌, Option, none, some, codes, Bytes, length, bytes_eq, contains, cut, string_eq,
  lookup, insert, if◌then◌else◌,
}
use irc_go.IrcMsg.Message.{TagMap, Message}
use irc_go.IrcMsg.Userhost.{Nuh, parse_nuh, nick}
use irc_go.IrcEvent.Connection.{Connection, is_empty, record_pong, set_current_nick}

-- The fields of `Connection` that the callbacks use. A nil map is `none`, and `welcome_chan` says
-- whether the channel is full, which has room for one.
pub record Session : Type 0 where
  pub conn : Connection
  pub nick_counter : ℕ
  pub registered : Bool
  pub isupport : Option TagMap
  pub isupport_partial : Option TagMap
  pub welcome_chan : Bool

-- A call of `Send`: the command and its parameters.
abbrev pub Sent : Type 0
Sent = Bytes × List Bytes

unfoldable pub last_param : List Bytes → Bytes
last_param [] = []
last_param (p ∷ []) = p
last_param (p ∷ q ∷ ps) = last_param (q ∷ ps)

unfoldable pub handle_ping : Session → Message → List Sent × Session
unfolding last_param
handle_ping st e = ((codes "PONG", last_param e.params ∷ []) ∷ [], st)

unfoldable pub handle_pong : Session → Message → List Sent × Session
unfolding last_param
handle_pong st e = ([], record st { conn = record_pong st.conn (last_param e.params) })

abbrev pub first_nick : Session → List Bytes → Session
first_nick st [] = st
first_nick st (p ∷ _) = record st { conn = record st.conn { current_nick = p } }

unfoldable pub handle_rpl_welcome : Session → Message → List Sent × Session
handle_rpl_welcome st e = ([], first_nick st e.params)

unfoldable pub handle_registration : Session → Message → List Sent × Session
handle_registration st e = if st.registered then ([], record st { welcome_chan = true }) else (
  [],
  record st {
    registered = true;
    isupport = st.isupport_partial;
    isupport_partial = none;
    welcome_chan = true;
  },
)

-- `%d`; each round divides the number, which bounds the fuel.
unfoldable pub decimal_loop : ℕ → ℕ → Bytes
decimal_loop zero n = []
decimal_loop (suc f) n =
    let front = decimal_loop f (n / 10) in
    if ltb n 10 then (n + b'0') ∷ [] else front ++ (n % 10 + b'0') ∷ []

unfoldable pub format_decimal : ℕ → Bytes
format_decimal n = decimal_loop (suc n) n

unfoldable pub nick_to_try : Bytes → ℕ → Bytes
unfolding format_decimal
nick_to_try n counter = n ++ b'_' ∷ format_decimal counter

-- The nick that is tried is never empty, so the test of it is the one of `current_nick`.
unfoldable pub handle_unavailable_nick : Session → Message → List Sent × Session
unfolding nick_to_try
handle_unavailable_nick st e =
    if is_empty st.conn.current_nick
    then (
      (codes "NICK", nick_to_try st.conn.config.nick st.nick_counter ∷ []) ∷ [],
      record st { nick_counter = st.nick_counter + 1 },
    )
    else ([], st)

-- The value of a hexadecimal digit.
abbrev pub hex_value : ℕ → Option ℕ
hex_value c =
    if within b'0' b'9' c
    then some (c - b'0')
    else if within b'a' b'f' c
    then some (c - b'a' + 10)
    else if within b'A' b'F' c
    then some (c - b'A' + 10)
    else none

-- `byte(octet)` for `strconv.ParseInt` in base 16 with 8 bits: of two digits a number up to 127, or
-- of a sign and a digit the number, modulo 256.
unfoldable pub parse_octet : ℕ → ℕ → Option ℕ
parse_octet c d = elim (hex_value d) [
  | none ↦ none
  | some low ↦
      if c == b'+'
      then some low
      else if c == b'-'
      then some ((256 - low) % 256)
      else elim (hex_value c) [
        | none ↦ none
        | some high ↦ if ltb (16 * high + low) 128 then some (16 * high + low) else none
      ]
]

-- The octet of an escape behind its backslash.
unfoldable pub octet_of : Bytes → Option ℕ
unfolding parse_octet
octet_of (x ∷ c ∷ d ∷ _) = if x == b'x' then parse_octet c d else none
octet_of _ = none

abbrev pub behind_octet : Bytes → Bytes
behind_octet (x ∷ c ∷ d ∷ s) = s
behind_octet _ = []

-- The loop of `unescapeISupportValue`; each round takes a byte at least, which bounds the fuel.
unfoldable pub unescape_value_loop : ℕ → Bytes → Bytes
unfolding octet_of
unescape_value_loop zero s = []
unescape_value_loop (suc f) [] = []
unescape_value_loop (suc f) (c ∷ s) = elim (if c == b'\\' then octet_of s else none) [
  | some octet ↦ octet ∷ unescape_value_loop f (behind_octet s)
  | none ↦ c ∷ unescape_value_loop f s
]

unfoldable pub unescape_isupport_value : Bytes → Bytes
unfolding unescape_value_loop
unescape_isupport_value s = if contains b'\\' s then unescape_value_loop (length s) s else s

unfoldable pub add_token : TagMap → Bytes → TagMap
unfolding unescape_isupport_value
add_token m token = elim (cut b'=' token) [
  | none ↦ insert token [] m
  | some (name, value) ↦ insert name (unescape_isupport_value value) m
]

unfoldable pub add_tokens : TagMap → List Bytes → TagMap
unfolding add_token
add_tokens m [] = m
add_tokens m (token ∷ tokens) = add_tokens (add_token m token) tokens

abbrev pub without_last : List Bytes → List Bytes
without_last [] = []
without_last (p ∷ []) = []
without_last (p ∷ q ∷ ps) = p ∷ without_last (q ∷ ps)

-- The tokens: nothing where there are fewer than three parameters.
abbrev pub isupport_tokens : List Bytes → List Bytes
isupport_tokens [] = []
isupport_tokens (p ∷ ps) = without_last ps

unfoldable pub handle_isupport : Session → Message → List Sent × Session
unfolding add_tokens
handle_isupport st e = elim st.isupport_partial [
  | none ↦ ([], st)
  | some m ↦ ([], record st { isupport_partial = some (add_tokens m (isupport_tokens e.params)) })
]

abbrev pub changed_nick : Session → List Bytes → Session
changed_nick st [] = st
changed_nick st (p ∷ _) = record st { conn = set_current_nick st.conn p }

unfoldable pub handle_nick : Session → Message → List Sent × Session
unfolding set_current_nick
handle_nick st e =
    ([], if bytes_eq (nick e) st.conn.current_nick then changed_nick st e.params else st)

-- The callbacks that `setupCallbacks` adds for these commands.
unfoldable pub base_callback : Session → Message → List Sent × Session
unfolding handle_ping handle_pong handle_rpl_welcome handle_registration handle_unavailable_nick
    handle_isupport handle_nick
base_callback st e =
    if bytes_eq e.command (codes "PING")
    then handle_ping st e
    else if bytes_eq e.command (codes "PONG")
    then handle_pong st e
    else if bytes_eq e.command (codes "433") || bytes_eq e.command (codes "437")
    then handle_unavailable_nick st e
    else if bytes_eq e.command (codes "001")
    then handle_rpl_welcome st e
    else if bytes_eq e.command (codes "005")
    then handle_isupport st e
    else if bytes_eq e.command (codes "NICK")
    then handle_nick st e
    else if bytes_eq e.command (codes "376") || bytes_eq e.command (codes "422")
    then handle_registration st e
    else ([], st)

-- The value of a key; a missing key and a nil map give the empty text.
abbrev pub value_of : Bytes → Option TagMap → Bytes
value_of key none = []
value_of key (some m) = elim (lookup key m) [ none ↦ [] | some value ↦ value ]

abbrev pub chan_types : Option TagMap → Bytes
chan_types isupport =
    let types = value_of (codes "CHANTYPES") isupport in if is_empty types then b'#' ∷ [] else types

-- The loop over the channel types.
abbrev pub is_channel : Bytes → Bytes → Bool
is_channel types [] = false
is_channel types (c ∷ _) = contains c types

-- The nick of a source that is not a server.
abbrev pub source_target : Option Nuh → Bytes
source_target none = []
source_target (some nuh) = if contains b'.' nuh.name then [] else nuh.name

abbrev pub target_of : Option TagMap → Bytes → List Bytes → Bytes
target_of isupport source [] = []
target_of isupport source (target ∷ _) =
    if is_channel (chan_types isupport) target then target else source_target (parse_nuh source)

unfoldable pub get_reply_target : Option TagMap → Message → Bytes
get_reply_target isupport msg =
    if bytes_eq msg.command (codes "PRIVMSG")
      || (bytes_eq msg.command (codes "NOTICE") || bytes_eq msg.command (codes "TAGMSG"))
    then target_of isupport msg.source msg.params
    else []

-- `ExtractNick`.
unfoldable pub extract_nick : Bytes → Bytes
extract_nick source = elim (parse_nuh source) [ none ↦ [] | some nuh ↦ nuh.name ]

-- `SplitNUH`.
unfoldable pub split_nuh : Bytes → Bytes × (Bytes × Bytes)
split_nuh source = elim (parse_nuh source) [
  | none ↦ ([], ([], []))
  | some nuh ↦ (nuh.name, (nuh.user, nuh.host))
]
