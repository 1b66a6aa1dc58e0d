-- ===== src/Configuration.antt =====
-- The configuration (pkg/config/config.go and pkg/config/peers.go), and the limits that the event consumer
-- takes of it (`NewEventConsumer` of pkg/eventconsumer/event.go). Reading the file is viper's.
pub mod Laws
use mpc_go.Common.{
  ℕ, ◌∷◌, ◌==◌, [], List, Option, none, some, Text, Bool, true, false, codes, ℤ, pos, eqb_ℤ,
  contains, same, length, drop, if◌then◌else◌, not,
}

-- The sections on Consul and NATS are only passed on.
pub record Config : Type 0 where
  pub environment : Text
  pub badger_password : Text
  pub db_path : Text
  pub backup_dir : Text
  pub backup_enabled : Bool
  pub backup_period_seconds : ℤ
  pub event_initiator_algorithm : Text
  pub event_initiator_pub_key : Text
  pub threshold : ℤ
  pub max_concurrent_keygen : ℤ
  pub max_concurrent_signing : ℤ
  pub max_concurrent_resharing : ℤ
  pub session_warm_up_delay_millis : ℤ

-- A default in place of the zero value.
abbrev pub or_text : Text → Text → Text
or_text [] default = default
or_text (c ∷ s) default = c ∷ s

abbrev pub or_int : ℤ → ℤ → ℤ
or_int n default = if eqb_ℤ n (pos 0) then default else n

unfoldable pub apply_defaults : Config → Config
apply_defaults cfg = record cfg {
  environment = or_text cfg.environment (codes "development");
  db_path = or_text cfg.db_path (codes ".");
  backup_dir = or_text cfg.backup_dir (codes "backups");
  backup_period_seconds = or_int cfg.backup_period_seconds (pos 300);
  max_concurrent_keygen = or_int cfg.max_concurrent_keygen (pos 2);
  max_concurrent_signing = or_int cfg.max_concurrent_signing (pos 10);
  max_concurrent_resharing = or_int cfg.max_concurrent_resharing (pos 5);
  session_warm_up_delay_millis = or_int cfg.session_warm_up_delay_millis (pos 100);
  threshold = or_int cfg.threshold (pos 1);
  event_initiator_algorithm = or_text cfg.event_initiator_algorithm (codes "ed25519");
}

-- Whether the environment is a valid one.
unfoldable pub validate_environment : Text → Bool
validate_environment environment =
    contains (codes "production" ∷ codes "development" ∷ []) environment

-- The variable `app`; `none` is nil.
abbrev pub App : Type 0
App = Option Config

-- The configuration that is returned and the new `app`; the argument is what is decoded, `none` an error.
unfoldable pub load_config : Option Config → App → Option Config × App
load_config none app = (none, app)
load_config (some decoded) app =
    let cfg = apply_defaults decoded in
    if validate_environment cfg.environment then (some cfg, some cfg) else (none, app)

-- `none` is `logger.Fatal`, or the panic of `Update`.
unfoldable pub get_config : App → Option Config
get_config app = app

unfoldable pub set_badger_password : Text → App → Option App
set_badger_password password none = none
set_badger_password password (some cfg) = some (some (record cfg { badger_password = password }))

-- The limits of an event consumer.
pub record Limits : Type 0 where
  pub threshold : ℤ
  pub max_concurrent_keygen : ℤ
  pub max_concurrent_signing : ℤ
  pub max_concurrent_resharing : ℤ
  pub session_warm_up_delay_ms : ℤ

-- The constructor's own defaults for what is 0.
unfoldable pub new_event_consumer : Config → Limits
new_event_consumer cfg = record {
  threshold = cfg.threshold;
  max_concurrent_keygen = or_int cfg.max_concurrent_keygen (pos 2);
  max_concurrent_signing = or_int cfg.max_concurrent_signing (pos 20);
  max_concurrent_resharing = or_int cfg.max_concurrent_resharing (pos 5);
  session_warm_up_delay_ms = or_int cfg.session_warm_up_delay_millis (pos 200);
}

pub record Peer : Type 0 where
  pub id : Text
  pub name : Text

-- The listed pairs of keys and values; a key that is shorter than the prefix, which Consul does not list, is
-- cut to nothing here where the code panics.
unfoldable pub load_peers_from_consul : Option (List (Text × Text)) → Text → Option (List Peer)
load_peers_from_consul none prefix = none
load_peers_from_consul (some []) prefix = some []
load_peers_from_consul (some ((key, value) ∷ pairs)) prefix =
    elim (load_peers_from_consul (some pairs) prefix) [
      | none ↦ none
      | some peers ↦ some (record { id = value; name = drop (length prefix) key } ∷ peers)
    ]

unfoldable pub get_node_id : Text → List Peer → Text
get_node_id node_name [] = []
get_node_id node_name (peer ∷ peers) =
    let rest = get_node_id node_name peers in if same peer.name node_name then peer.id else rest
