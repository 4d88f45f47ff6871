-- ===== src/Edge.antt =====
-- client/edge.go: the connection to the broker, and when the feature is connected. The MQTT library,
-- TLS and the file system are arguments.
pub mod Alternation
mod Tests
use file_upload.Prelude.{
  ℕ, Bool, true, false, not, ◌&&◌, ◌||◌, if◌then◌else◌, Option, none, some, List, [], ◌∷◌, ◌++◌,
  ◌==◌,
}
use file_upload.Prelude.Text.{Text, bytes, is_empty, text_beq, text_eq}
use file_upload.Prelude.Result.{Result, ok, err, ◌>>=◌, ◌>>◌, guard}

pub record BrokerConfig : Type 0 where
  pub broker : Text
  pub username : Text
  pub password : Text
  pub ca_cert : Text
  pub cert : Text
  pub key : Text

pub record EdgeConfiguration : Type 0 where
  pub device_id : Text
  pub tenant_id : Text
  pub policy_id : Text

-- `*localCfg == *p.cfg`
unfoldable pub same_configuration : EdgeConfiguration → EdgeConfiguration → Bool
unfolding text_beq
same_configuration a b =
    a.device_id == b.device_id && a.tenant_id == b.tenant_id && a.policy_id == b.policy_id

-- The calls of the `EdgeClient`.
pub data Call : Type 0 where
  connect : EdgeConfiguration → Call
  disconnect : Call

-- `EdgeConnector`, with the calls of its `EdgeClient` so far.
pub record EdgeConnector : Type 0 where
  pub cfg : Option EdgeConfiguration
  pub calls : List Call

unfoldable pub is_current : Option EdgeConfiguration → EdgeConfiguration → Bool
unfolding same_configuration
is_current none c = false
is_current (some old) c = same_configuration c old

unfoldable pub disconnect_old : Option EdgeConfiguration → List Call
disconnect_old none = []
disconnect_old (some old) = disconnect ∷ []

-- The handler of a message on the topic: none is a payload that is no configuration.
unfoldable pub receive : Option EdgeConfiguration → EdgeConnector → EdgeConnector
unfolding is_current disconnect_old
receive none p = p
receive (some c) p =
    if is_current p.cfg c
    then p
    else record { cfg = some c; calls = p.calls ++ (disconnect_old p.cfg ++ (connect c ∷ [])) }

unfoldable pub receive_all : List (Option EdgeConfiguration) → EdgeConnector → EdgeConnector
unfolding receive
receive_all [] p = p
receive_all (m ∷ ms) p = receive_all ms (receive m p)

-- `Close`
unfoldable pub close : EdgeConnector → EdgeConnector
unfolding disconnect_old
close p = record p { calls = p.calls ++ disconnect_old p.cfg }

-- The errors of `NewEdgeConnector`.
pub data ConnectorError : Type 0 where
  bad_key_pair : Text → ConnectorError
  unreadable_ca : Text → ConnectorError
  unusable_ca : ConnectorError
  mqtt_error : Text → ConnectorError

-- What a TLS configuration trusts and shows: none for the system's certificates.
pub record TlsConfig : Type 0 where
  pub root_ca : Option Text
  pub certificate : Text × Text

-- What the operating system and the broker answer.
pub record Environment : Type 0 where
  pub load_key_pair : Text → Text → Result Text (Unit {0})
  pub read_file : Text → Result Text Text
  pub append_certs : Text → Bool
  pub connect : Option TlsConfig → Option (Text × Text) → Text → Result Text (Unit {0})
  pub subscribe : Result Text (Unit {0})
  pub publish : Result Text (Unit {0})

module _ (io : Environment) where
  read_ca : Text → Result ConnectorError (Option Text)
  read_ca path = if is_empty path then ok none else (elim (io.read_file path) [
    | err e ↦ err (unreadable_ca e)
    | ok pem ↦ if io.append_certs pem then ok (some path) else err unusable_ca
  ])

  -- The TLS configuration: only with a certificate or a key.
  unfoldable pub tls_config : BrokerConfig → Result ConnectorError (Option TlsConfig)
  unfolding read_ca
  tls_config cfg =
      if is_empty cfg.cert && is_empty cfg.key
      then ok none
      else (elim (io.load_key_pair cfg.cert cfg.key) [
        | err e ↦ err (bad_key_pair e)
        | ok _ ↦ (do
          ca ← read_ca cfg.ca_cert
          ok (some (record { root_ca = ca; certificate = (cfg.cert, cfg.key) })))
      ])

  unfoldable pub credentials : BrokerConfig → Option (Text × Text)
  credentials cfg = if is_empty cfg.username then none else some (cfg.username, cfg.password)

  mqtt : Result Text (Unit {0}) → Result ConnectorError (Unit {0})
  mqtt (ok d) = ok d
  mqtt (err e) = err (mqtt_error e)

  -- `NewEdgeConnector`
  unfoldable pub new_edge_connector : BrokerConfig → Result ConnectorError EdgeConnector
  unfolding tls_config credentials mqtt
  new_edge_connector cfg = do
    tls ← tls_config cfg
    mqtt (io.connect tls (credentials cfg) cfg.broker)
    mqtt io.subscribe
    mqtt io.publish
    ok (record { cfg = none; calls = [] })
