-- ===== src/IrcEvent/Connection/Dial.antt =====
-- ircevent/irc.go: `dial`. `DialContext`, `net.SplitHostPort` and the handshake of TLS are parameters.
use irc_go.Prelude.{Bool, true, false, [], ◌&&◌, not, Option, none, some, Bytes, if◌then◌else◌}
use irc_go.IrcEvent.Connection.{ClientError, is_empty}

-- The fields of `tls.Config` that the code looks at.
pub record TlsConfig : Type 0 where
  pub server_name : Bytes
  pub insecure_skip_verify : Bool

pub data Dialed : Type 0 where
  plain_socket : Dialed
  tls_socket : TlsConfig → Dialed
  not_dialed : ClientError → Dialed
  -- The handshake failed, and the socket was closed.
  closed_again : ClientError → Dialed

abbrev pub config_or_new : Option TlsConfig → TlsConfig
config_or_new none = record { server_name = []; insecure_skip_verify = false }
config_or_new (some config) = config

-- `host`, or the whole address if it does not split.
abbrev pub host_or_all : Bytes → Option Bytes → Bytes
host_or_all server none = server
host_or_all server (some host) = host

-- The name that the certificate is to be for, unless one is set or none is asked for.
unfoldable pub named : (Bytes → Option Bytes) → Bytes → TlsConfig → TlsConfig
named split_host server config =
    if is_empty config.server_name && not config.insecure_skip_verify
    then record config { server_name = host_or_all server (split_host server) }
    else config

module _ (split_host : Bytes → Option Bytes) (dial_context : Bytes → Option ClientError)
    (handshake : TlsConfig → Option ClientError) where
  -- What is dialed, and `TLSConfig` behind it.
  unfoldable pub dial : Bytes → Bool → Option TlsConfig → Dialed × Option TlsConfig
  unfolding named
  dial server use_tls tls_config = elim (dial_context server) [
    | some err ↦ (not_dialed err, tls_config)
    | none ↦ elim use_tls [
      | false ↦ (plain_socket, tls_config)
      | true ↦
          let config = named split_host server (config_or_new tls_config) in
          elim (handshake config) [
            | some err ↦ (closed_again err, some config)
            | none ↦ (tls_socket config, some config)
          ]
    ]
  ]
