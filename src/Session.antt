-- ===== src/Session.antt =====
-- The session manager (pkg/session/manager.go), which remembers the signing sessions of the event
-- consumer. A clock reading is its number of nanoseconds.
pub mod Laws
pub mod Meanwhile
use mpc_go.Common.{
  ℕ, ◌≡◌, ◌++◌, ◌-◌, ◌^◌, ◌∷◌, [], List, Option, none, some, Text, Bool, true, false, codes,
  if◌then◌else◌, lookup, insert, delete, length, ℤ, pos, negsuc, sub_ℕ, ltb_ℤ,
}

unfoldable pub get_session_id : Text → Text → Text
get_session_id wallet_id tx_id = wallet_id ++ codes "-" ++ tx_id

pub record Manager : Type 0 where
  pub active_sessions : List (Text × ℕ)  -- creation times
  pub cleanup_interval : ℤ
  pub session_timeout : ℤ
  pub stopped : Bool  -- whether `stopChan` is closed

unfoldable pub new_manager : ℤ → ℤ → Manager
new_manager cleanup_interval session_timeout = record {
  active_sessions = [];
  cleanup_interval = cleanup_interval;
  session_timeout = session_timeout;
  stopped = false;
}

unfoldable pub add_session : ℕ → Text → Text → Manager → Manager
add_session now wallet_id tx_id m = record m {
  active_sessions = insert (get_session_id wallet_id tx_id) now m.active_sessions;
}

abbrev is_some {ℓ} : {A : Type ℓ} → Option A → Bool
is_some none = false
is_some (some _) = true

unfoldable pub has_session : Text → Text → Manager → Bool
has_session wallet_id tx_id m = is_some (lookup (get_session_id wallet_id tx_id) m.active_sessions)

-- `now.Sub(creationTime)`, a duration of 64 bits that saturates.
unfoldable pub sub_time : ℕ → ℕ → ℤ
sub_time now created =
    let d = sub_ℕ now created in
    if ltb_ℤ (pos (2 ^ 63 - 1)) d
    then pos (2 ^ 63 - 1)
    else if ltb_ℤ d (negsuc (2 ^ 63 - 1))
    then negsuc (2 ^ 63 - 1)
    else d

unfoldable pub is_stale : ℕ → ℤ → ℕ → Bool
is_stale now timeout created = ltb_ℤ timeout (sub_time now created)

-- The loop over the map: the first list is what it still has to visit.
unfoldable pub clean_entries : ℕ → ℤ → List (Text × ℕ) → List (Text × ℕ) → List (Text × ℕ)
clean_entries now timeout [] m = m
clean_entries now timeout ((id, created) ∷ rest) m =
    clean_entries now timeout rest (if is_stale now timeout created then delete id m else m)

unfoldable pub cleanup_stale_sessions : ℕ → Manager → Manager
cleanup_stale_sessions now m = record m {
  active_sessions = clean_entries now m.session_timeout m.active_sessions m.active_sessions;
}

unfoldable pub get_active_session_count : Manager → ℕ
get_active_session_count m = length m.active_sessions

unfoldable pub get_active_sessions : Manager → List (Text × ℕ)
get_active_sessions m = m.active_sessions

-- `none` is the panic of closing a closed channel.
unfoldable pub stop : Manager → Option Manager
stop m = if m.stopped then none else some (record m { stopped = true })

-- One round of `StartCleanup`'s select; `none` when the routine has returned. A round waits for
-- one of the two, so a tick is the clock's reading when it is taken.
pub data Wakeup : Type 0 where
  ticker : ℕ → Wakeup
  stop_chan : Wakeup

unfoldable pub cleanup_round : Wakeup → Manager → Option Manager
cleanup_round (ticker now) m = some (cleanup_stale_sessions now m)
cleanup_round stop_chan m = none

-- What happens to a manager, in the order in which its lock is taken.
pub data Step : Manager → Manager → Type 0 where
  adds :
      {m : Manager} (now : ℕ) (wallet_id tx_id : Text) → Step m (add_session now wallet_id tx_id m)
  cleans : {m n : Manager} (w : Wakeup) → cleanup_round w m ≡ some n → Step m n
  stops : {m n : Manager} → stop m ≡ some n → Step m n

pub data Reachable : Manager → Type 0 where
  starts : (interval timeout : ℤ) → Reachable (new_manager interval timeout)
  steps : {m n : Manager} → Reachable m → Step m n → Reachable n
