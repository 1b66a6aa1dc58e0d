-- ===== src/Session/Laws.antt =====
-- The session manager: what a cleanup removes, which sessions it finds, and its map's keys.
use mpc_go.Common.{
  ℕ, ◌<◌, ◌^◌, ◌≡◌, leb_ℤ, pos, negsuc, ◌+ℤ◌, refl, ◌++◌, ◌∷◌, [], List, Option, none, some, Text,
  Bool, false, codes, ◌||◌, ◌&&◌, if◌then◌else◌, lookup, delete, length, length-append, ℤ, same,
  same_iff, lookup-insert, lookup-delete, Distinct, insert-Distinct, delete-Distinct, arith, subst,
}
use mathlib.Core.Option.{some-injective}
use mpc_go.Session.{
  Manager, get_session_id, new_manager, add_session, has_session, is_stale, sub_time, clean_entries,
  cleanup_stale_sessions, stop, ticker, stop_chan, cleanup_round, Step, adds, cleans, stops,
  Reachable, starts, steps,
}

-- A stale entry of this key is still to be visited.
abbrev visits_stale : ℕ → ℤ → Text → List (Text × ℕ) → Bool
visits_stale now timeout id [] = false
visits_stale now timeout id ((j, created) ∷ rest) =
    (same j id && is_stale now timeout created) || visits_stale now timeout id rest

lookup-clean_entries :
    (now : ℕ) (timeout : ℤ) (id : Text) (entries m : List (Text × ℕ))
    → lookup id (clean_entries now timeout entries m)
      ≡ (if visits_stale now timeout id entries then none else lookup id m)
unfolding clean_entries
lookup-clean_entries now timeout id [] m = refl
lookup-clean_entries now timeout id ((j, created) ∷ rest) m = ground (
  arith,
  lookup-delete j id m,
  lookup-clean_entries now timeout id rest (if is_stale now timeout created then delete j m else m),
)

-- What a cleanup at this time leaves of an entry: it goes if it was made longer ago than the timeout.
abbrev pub kept : ℕ → ℤ → Option ℕ → Option ℕ
kept now timeout none = none
kept now timeout (some created) =
    if leb_ℤ (pos now) (pos created +ℤ timeout) then some created else none

abbrev unless_stale : ℕ → ℤ → Option ℕ → Option ℕ
unless_stale now timeout none = none
unless_stale now timeout (some created) =
    if is_stale now timeout created then none else some created

unless_stale-kept :
    (now : ℕ) (timeout : ℤ) (entry : Option ℕ)
    → now < 2 ^ 63
    → ((created : ℕ) → entry ≡ some created → created < 2 ^ 63)
    → unless_stale now timeout entry ≡ kept now timeout entry
unfolding is_stale sub_time ◌+ℤ◌
unless_stale-kept now timeout none h k = refl
unless_stale-kept now (pos t) (some created) h k =
    let l : created < 2 ^ 63 = k created refl in ground arith
unless_stale-kept now (negsuc t) (some created) h k =
    let l : created < 2 ^ 63 = k created refl in ground arith

visits_stale-none :
    (now : ℕ) (timeout : ℤ) (id : Text) (m : List (Text × ℕ))
    → lookup id m ≡ none
    → visits_stale now timeout id m ≡ false
unfolding lookup
visits_stale-none now timeout id [] h = refl
visits_stale-none now timeout id ((j, created) ∷ m) h =
    ground (arith, visits_stale-none now timeout id m)

unless_stale-lookup :
    (now : ℕ) (timeout : ℤ) (id : Text) (m : List (Text × ℕ))
    → Distinct m
    → (if visits_stale now timeout id m then none else lookup id m)
      ≡ unless_stale now timeout (lookup id m)
unfolding lookup
unless_stale-lookup now timeout id [] h = refl
unless_stale-lookup now timeout id ((j, created) ∷ m) h = ground (
  arith,
  same_iff j id,
  visits_stale-none now timeout id m,
  unless_stale-lookup now timeout id m h.1,
)

-- After a cleanup, a session's entry is there with its time exactly when it was there and the cleanup comes
-- at most the timeout after its time, on a map without duplicate keys and for clock readings of at most
-- 63 bits.
pub lookup-cleanup_stale_sessions :
    (now : ℕ) (id : Text) (m : Manager)
    → Distinct m.active_sessions
    → now < 2 ^ 63
    → ((created : ℕ) → lookup id m.active_sessions ≡ some created → created < 2 ^ 63)
    → lookup id (cleanup_stale_sessions now m).active_sessions
      ≡ kept now m.session_timeout (lookup id m.active_sessions)
unfolding cleanup_stale_sessions
lookup-cleanup_stale_sessions now id m h l k = ground (
  arith,
  lookup-clean_entries now m.session_timeout id m.active_sessions m.active_sessions,
  unless_stale-lookup now m.session_timeout id m.active_sessions h,
  unless_stale-kept now m.session_timeout (lookup id m.active_sessions) l k,
)

-- Adding a session makes it present and leaves the presence of a session with another ID as it
-- was.
pub has_session-add_session :
    (now : ℕ) (w t v u : Text) (m : Manager)
    → has_session v u (add_session now w t m)
      ≡ (same (get_session_id w t) (get_session_id v u) || has_session v u m)
unfolding has_session add_session
has_session-add_session now w t v u m =
    ground (arith, lookup-insert (get_session_id w t) (get_session_id v u) now m.active_sessions)

pub clean_entries-Distinct :
    (now : ℕ) (timeout : ℤ) (entries m : List (Text × ℕ))
    → Distinct m
    → Distinct (clean_entries now timeout entries m)
unfolding clean_entries
clean_entries-Distinct now timeout [] m h = h
clean_entries-Distinct now timeout ((j, created) ∷ rest) m h =
    clean_entries-Distinct now timeout rest (if is_stale now timeout created then delete j m else m)
      (ground (arith, delete-Distinct j m h))

Step-Distinct : (m n : Manager) → Step m n → Distinct m.active_sessions → Distinct n.active_sessions
unfolding add_session cleanup_round cleanup_stale_sessions stop
Step-Distinct m n (adds now w t) h = insert-Distinct (get_session_id w t) now m.active_sessions h
Step-Distinct m n (cleans (ticker now) e) h =
    subst (λ k. Distinct k.active_sessions) (some-injective (cleanup_stale_sessions now m) n e)
      (clean_entries-Distinct now m.session_timeout m.active_sessions m.active_sessions h)
Step-Distinct m n (cleans stop_chan e) h = ground arith
Step-Distinct m n (stops e) h = ground arith

-- Every session manager that adding, cleaning up and stopping reach from a new one has each session ID
-- once.
pub Reachable-Distinct : (m : Manager) → Reachable m → Distinct m.active_sessions
unfolding new_manager
Reachable-Distinct m (starts interval timeout) = tt
Reachable-Distinct n (steps {m = m} r s) = Step-Distinct m n s (Reachable-Distinct m r)

append-injective : (a b s t : Text) → length a ≡ length b → a ++ s ≡ b ++ t → (a ≡ b) × (s ≡ t)
append-injective [] [] s t l e = (refl, e)
append-injective [] (y ∷ b) s t l e = absurd (omega (arith, l))
append-injective (x ∷ a) [] s t l e = absurd (omega (arith, l))
append-injective (x ∷ a) (y ∷ b) s t l e = ground (arith, append-injective a b s t)

-- Two sessions with the same ID are those of the same wallet and transaction, if their wallets' IDs
-- have the same length.
pub get_session_id-injective :
    (w t v u : Text)
    → length w ≡ length v
    → get_session_id w t ≡ get_session_id v u
    → (w ≡ v) × (t ≡ u)
unfolding get_session_id
get_session_id-injective w t v u l e = ground (
  arith,
  e,
  append-injective (w ++ codes "-") (v ++ codes "-") t u,
  append-injective w v (codes "-") (codes "-") l,
  length-append w (codes "-"),
  length-append v (codes "-"),
)
