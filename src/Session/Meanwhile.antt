-- ===== src/Session/Meanwhile.antt =====
-- What keeps a session in the manager (pkg/session/manager.go) while other handlers add sessions and the
-- routine of `StartCleanup` removes stale ones.
use mpc_go.Common.{
  ℕ, ◌<◌, ◌≤◌, ◌^◌, ◌≡◌, some, Text, true, ℤ, pos, ◌+ℤ◌, ◌≤ℤ◌, lookup, lookup-insert, leb_ℤ,
  +ℤ_parts, same, Bool-cases, inl, inr, Distinct, insert-Distinct, same_iff, arith, refl, ap, ◌∙◌,
}
use mpc_go.Session.{Manager, get_session_id, add_session, has_session, cleanup_stale_sessions, stop}
use mpc_go.Session.Laws.{lookup-cleanup_stale_sessions, clean_entries-Distinct}

-- Any number of steps of a manager in which no clock reading of an added session lies before `since`
-- and none of a cleanup after `limit`.
pub data Meanwhile (since limit : ℕ) : Manager → Manager → Type 0 where
  nothing : {m : Manager} → Meanwhile since limit m m
  adds :
      {m n : Manager} (now : ℕ) (wallet_id tx_id : Text)
      → since ≤ now
      → now < 2 ^ 63
      → Meanwhile since limit (add_session now wallet_id tx_id m) n
      → Meanwhile since limit m n
  cleans :
      {m n : Manager} (now : ℕ)
      → now ≤ limit
      → Meanwhile since limit (cleanup_stale_sessions now m) n
      → Meanwhile since limit m n
  stops :
      {m n p : Manager} → stop m ≡ some n → Meanwhile since limit n p → Meanwhile since limit m p

module _ (since limit : ℕ) (timeout : ℤ) (id : Text) where
  -- The session is there, no older than `since`.
  abbrev pub IsKept : Manager → Type 0
  IsKept m =
      Distinct m.active_sessions
      × (m.session_timeout ≡ timeout)
      × ((created : ℕ) × (lookup id m.active_sessions ≡ some created)
          × (since ≤ created)
          × (created < 2 ^ 63))

  in_time :
      (now created : ℕ)
      → now ≤ limit
      → since ≤ created
      → pos limit ≤ℤ pos since +ℤ timeout
      → leb_ℤ (pos now) (pos created +ℤ timeout) ≡ true
  in_time now created n g x =
      ground (arith, +ℤ_parts (pos since) timeout, +ℤ_parts (pos created) timeout)

  add_session-IsKept :
      (now : ℕ) (wallet_id tx_id : Text) (m : Manager)
      → since ≤ now
      → now < 2 ^ 63
      → IsKept m
      → IsKept (add_session now wallet_id tx_id m)
  unfolding add_session
  add_session-IsKept now w t m s l (d, e, (created, f, g, h)) =
      let d' = insert-Distinct (get_session_id w t) now m.active_sessions d in
      let i = lookup-insert (get_session_id w t) id now m.active_sessions in
      elim (Bool-cases (same (get_session_id w t) id)) [
        | inl b ↦ (d', e, (now, ground arith, s, l))
        | inr b ↦ (d', e, (created, ground arith, g, h))
      ]

  cleanup-IsKept :
      (now : ℕ) (m : Manager)
      → now ≤ limit
      → limit < 2 ^ 63
      → pos limit ≤ℤ pos since +ℤ timeout
      → IsKept m
      → IsKept (cleanup_stale_sessions now m)
  unfolding cleanup_stale_sessions
  cleanup-IsKept now m n l x (d, e, (created, f, g, h)) =
      let c = lookup-cleanup_stale_sessions now id m d (omega arith) (λ t i. ground arith) in
      let y : leb_ℤ (pos now) (pos created +ℤ m.session_timeout) ≡ true =
        ap (λ t. leb_ℤ (pos now) (pos created +ℤ t)) e ∙ in_time now created n g x in
      (
        clean_entries-Distinct now m.session_timeout m.active_sessions m.active_sessions d,
        e,
        (created, ground arith, g, h),
      )

  Meanwhile-IsKept :
      (m n : Manager)
      → limit < 2 ^ 63
      → pos limit ≤ℤ pos since +ℤ timeout
      → Meanwhile since limit m n
      → IsKept m
      → IsKept n
  unfolding stop
  Meanwhile-IsKept m n l x nothing k = k
  Meanwhile-IsKept m n l x (adds now w t s z r) k =
      Meanwhile-IsKept _ n l x r (add_session-IsKept now w t m s z k)
  Meanwhile-IsKept m n l x (cleans now b r) k =
      Meanwhile-IsKept _ n l x r (cleanup-IsKept now m b l x k)
  Meanwhile-IsKept m p l x (stops {n = n} e r) k = Meanwhile-IsKept n p l x r (ground arith)

-- A session that a manager without duplicate keys has just added is known after any such steps, if the
-- cleanups come at most the timeout after it was added.
pub has_session-Meanwhile :
    (since limit : ℕ) (wallet_id tx_id : Text) (m n : Manager)
    → Distinct m.active_sessions
    → since < 2 ^ 63
    → limit < 2 ^ 63
    → pos limit ≤ℤ pos since +ℤ m.session_timeout
    → Meanwhile since limit (add_session since wallet_id tx_id m) n
    → has_session wallet_id tx_id n ≡ true
unfolding has_session add_session
has_session-Meanwhile since limit w t m n d s l x r =
    let i = lookup-insert (get_session_id w t) (get_session_id w t) since m.active_sessions in
    let j = same_iff (get_session_id w t) (get_session_id w t) in
    let (_, _, (created, f, _, _)) =
      Meanwhile-IsKept since limit m.session_timeout (get_session_id w t) _ n l x r (
        insert-Distinct (get_session_id w t) since m.active_sessions d,
        refl,
        (since, ground arith, omega arith, s),
      ) in
    ground arith
