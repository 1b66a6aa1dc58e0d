-- ===== src/Tests/Managers.antt =====
-- The session manager and the error codes on concrete sessions and errors.
use mpc_go.Common.{
  ℕ, ◌<◌, ◌^◌, ◌+ℤ◌, some, arith, ◌≡◌, ◌∷◌, [], none, false, Text, refl, codes, same, lookup, pos,
  has_infix, has_prefix, to_lower,
}
use mpc_go.Session.{Manager, new_manager, add_session, get_session_id, cleanup_stale_sessions}
use mpc_go.Session.Laws.{lookup-cleanup_stale_sessions, kept}
use mpc_go.ErrorCode.{contains_any, classify, insufficient_participants}

abbrev two_sessions : Manager
two_sessions = record {
  active_sessions = (codes "w-t", 10) ∷ (codes "w-u", 95) ∷ [];
  cleanup_interval = pos 5;
  session_timeout = pos 30;
  stopped = false;
}

old_time :
    (created : ℕ)
    → lookup (codes "w-t") two_sessions.active_sessions ≡ some created
    → created < 2 ^ 63
unfolding lookup same
old_time created h = ground arith

lookup-cleanup_stale_sessions_example :
    lookup (codes "w-t") (cleanup_stale_sessions 100 two_sessions).active_sessions
    ≡ kept 100 (pos 30) (lookup (codes "w-t") two_sessions.active_sessions)
lookup-cleanup_stale_sessions_example =
    lookup-cleanup_stale_sessions 100 (codes "w-t") two_sessions
      (unfold lookup same in (refl, (refl, tt))) (omega arith) old_time

old_session_goes : kept 100 (pos 30) (lookup (codes "w-t") two_sessions.active_sessions) ≡ none
unfolding lookup same ◌+ℤ◌
old_session_goes = refl

-- Wallets whose IDs differ in length may share a session ID.
shared_session_id :
    get_session_id (codes "w-1") (codes "t") ≡ get_session_id (codes "w") (codes "1-t")
unfolding get_session_id
shared_session_id = refl

abbrev one_added : Manager
one_added = add_session 3 (codes "w") (codes "t") (new_manager (pos 5) (pos 30))

abbrev duplicate : Text
duplicate = codes "session already exists for walletID=w txID=t"

shortage_code : classify (codes "Not enough participants to sign") ≡ insufficient_participants
unfolding classify contains_any to_lower has_infix has_prefix
shortage_code = refl
