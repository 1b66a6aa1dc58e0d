-- ===== src/Configuration/Laws.antt =====
-- What a loaded configuration guarantees, what the event consumer makes of it, and the names of peers.
use mpc_go.Common.{
  ◌≡◌, ◌≢◌, ◌⊎◌, ◌∷◌, ◌++◌, [], List, Option, none, some, Text, true, arith, refl, ℤ, pos,
  eqb_ℤ_iff, drop-append, lookup, codes, inl, inr, Bool-cases,
}
use mpc_go.Configuration.{
  Config, or_text, or_int, apply_defaults, validate_environment, App, load_config, Limits,
  new_event_consumer, Peer, load_peers_from_consul, get_node_id,
}

or_text-twice : (s d : Text) → or_text (or_text s d) d ≡ or_text s d
or_text-twice [] [] = refl
or_text-twice [] (c ∷ d) = refl
or_text-twice (c ∷ s) d = refl

or_int-nonzero : (n d : ℤ) → d ≢ pos 0 → or_int n d ≢ pos 0
or_int-nonzero n d h = ground (arith, eqb_ℤ_iff n (pos 0))

or_int-kept : (n d : ℤ) → n ≢ pos 0 → or_int n d ≡ n
or_int-kept n d h = ground (arith, eqb_ℤ_iff n (pos 0))

-- What a loaded configuration has.
abbrev pub IsLoaded : Config → Type 0
IsLoaded cfg =
    (validate_environment cfg.environment ≡ true)
    × (cfg.backup_period_seconds ≢ pos 0)
    × (cfg.threshold ≢ pos 0)
    × (cfg.max_concurrent_keygen ≢ pos 0)
    × (cfg.max_concurrent_signing ≢ pos 0)
    × (cfg.max_concurrent_resharing ≢ pos 0)
    × (cfg.session_warm_up_delay_millis ≢ pos 0)
    × (apply_defaults cfg ≡ cfg)

apply_defaults-twice : (cfg : Config) → apply_defaults (apply_defaults cfg) ≡ apply_defaults cfg
unfolding apply_defaults
apply_defaults-twice cfg = ground (
  arith,
  or_text-twice cfg.environment (codes "development"),
  or_text-twice cfg.db_path (codes "."),
  or_text-twice cfg.backup_dir (codes "backups"),
  or_text-twice cfg.event_initiator_algorithm (codes "ed25519"),
)

defaults-IsLoaded :
    (cfg : Config)
    → validate_environment (apply_defaults cfg).environment ≡ true
    → IsLoaded (apply_defaults cfg)
unfolding apply_defaults
defaults-IsLoaded cfg v = (
  v,
  or_int-nonzero cfg.backup_period_seconds (pos 300) (ground arith),
  or_int-nonzero cfg.threshold (pos 1) (ground arith),
  or_int-nonzero cfg.max_concurrent_keygen (pos 2) (ground arith),
  or_int-nonzero cfg.max_concurrent_signing (pos 10) (ground arith),
  or_int-nonzero cfg.max_concurrent_resharing (pos 5) (ground arith),
  or_int-nonzero cfg.session_warm_up_delay_millis (pos 100) (ground arith),
  apply_defaults-twice cfg,
)

-- The limits of a configuration as they stand.
abbrev pub limits_of : Config → Limits
limits_of cfg = record {
  threshold = cfg.threshold;
  max_concurrent_keygen = cfg.max_concurrent_keygen;
  max_concurrent_signing = cfg.max_concurrent_signing;
  max_concurrent_resharing = cfg.max_concurrent_resharing;
  session_warm_up_delay_ms = cfg.session_warm_up_delay_millis;
}

limits_kept : (cfg : Config) → IsLoaded cfg → new_event_consumer cfg ≡ limits_of cfg
unfolding new_event_consumer
limits_kept cfg h = ground (
  arith,
  or_int-kept cfg.max_concurrent_keygen (pos 2),
  or_int-kept cfg.max_concurrent_signing (pos 20),
  or_int-kept cfg.max_concurrent_resharing (pos 5),
  or_int-kept cfg.session_warm_up_delay_millis (pos 200),
)

-- A configuration that loads becomes the current one; its environment is valid, none of its numbers is 0,
-- and defaults change nothing in it any more; the event consumer's limits are its own, so that the
-- consumer's own defaults are never used. If loading fails, the current configuration stays.
pub load_config-IsLoaded :
    (decoded : Option Config) (app : App)
    → ((load_config decoded app ≡ (none, app)))
      ⊎ ((cfg : Config) × (load_config decoded app ≡ (some cfg, some cfg))
          × IsLoaded cfg
          × (new_event_consumer cfg ≡ limits_of cfg))
unfolding load_config
load_config-IsLoaded none app = inl refl
load_config-IsLoaded (some decoded) app =
    elim (Bool-cases (validate_environment (apply_defaults decoded).environment)) [
      | inl v ↦ inr (
        apply_defaults decoded,
        rw v refl,
        defaults-IsLoaded decoded v,
        limits_kept (apply_defaults decoded) (defaults-IsLoaded decoded v),
      )
      | inr v ↦ inl (rw v refl)
    ]

-- The pairs of a listing under a prefix.
abbrev pub pairs_under : Text → List (Text × Text) → List (Text × Text)
pairs_under prefix [] = []
pairs_under prefix ((name, id) ∷ rest) = (prefix ++ name, id) ∷ pairs_under prefix rest

-- The peers that these pairs of names and IDs stand for.
abbrev peers_of : List (Text × Text) → List Peer
peers_of [] = []
peers_of ((name, id) ∷ rest) = record { id = id; name = name } ∷ peers_of rest

abbrev pub id_or_empty : Option Text → Text
id_or_empty none = []
id_or_empty (some id) = id

load_peers-pairs_under :
    (prefix : Text) (named : List (Text × Text))
    → load_peers_from_consul (some (pairs_under prefix named)) prefix ≡ some (peers_of named)
unfolding load_peers_from_consul
load_peers-pairs_under prefix [] = refl
load_peers-pairs_under prefix ((name, id) ∷ rest) =
    ground (arith, load_peers-pairs_under prefix rest, drop-append prefix name)

get_node_id-lookup :
    (node_name : Text) (named : List (Text × Text))
    → get_node_id node_name (peers_of named) ≡ id_or_empty (lookup node_name named)
unfolding get_node_id lookup
get_node_id-lookup node_name [] = refl
get_node_id-lookup node_name ((name, id) ∷ rest) = ground (arith, get_node_id-lookup node_name rest)

-- Of the peers that are stored under a prefix, a node's ID is the one that was stored for its name, and the
-- empty ID if there is none.
pub get_node_id-load_peers :
    (prefix node_name : Text) (named : List (Text × Text))
    → (peers : List Peer) × (load_peers_from_consul (some (pairs_under prefix named)) prefix
        ≡ some peers)
      × (get_node_id node_name peers ≡ id_or_empty (lookup node_name named))
get_node_id-load_peers prefix node_name named =
    (peers_of named, load_peers-pairs_under prefix named, get_node_id-lookup node_name named)
