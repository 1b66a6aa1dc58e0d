-- ===== src/PartySession/Shares.antt =====
-- The versions of a wallet's share in the key-value store (`LoadOldShareDataGeneric` and
-- `WalletIDWithVersion` of pkg/mpc/core/session.go).
use mpc_go.Common.{
  ℕ, zero, suc, ◌<◌, ◌==◌, ◌≡◌, ◌∷◌, ◌++◌, ◌∙◌, [], refl, ap, sym, List, Option, none, some, Text,
  same, same_iff, length, length-append, lookup, insert, lookup-insert, decimal, decimal-injective,
  codes, if◌then◌else◌, arith, Bool-cases, ==_iff, inl, inr,
}
use mpc_go.Topic.{Curve, ecdsa, eddsa, compose_key, wallet_id_with_version}
use mpc_go.PartySession.{Loaded, loaded, get_failed, decode_failed, load_old_share_data_generic}

cancel : (a s t : Text) → a ++ s ≡ a ++ t → s ≡ t
cancel [] s t e = e
cancel (x ∷ a) s t e = cancel a s t (ground arith)

versioned :
    (w : Text) (v : ℕ) → wallet_id_with_version w (suc v) ≡ w ++ codes "_v" ++ decimal (suc v)
unfolding wallet_id_with_version
versioned w v = ground arith

longer : (w : Text) (v : ℕ) → length w < length (wallet_id_with_version w (suc v))
longer w v =
    rw (versioned w v) (
      omega
        (arith, length-append (w ++ codes "_v") (decimal (suc v)), length-append w (codes "_v")))

unversioned : (w : Text) → wallet_id_with_version w 0 ≡ w
unfolding wallet_id_with_version
unversioned w = refl

wallet_id_with_version-injective :
    (w : Text) (v u : ℕ) → wallet_id_with_version w v ≡ wallet_id_with_version w u → v ≡ u
wallet_id_with_version-injective w zero zero e = refl
wallet_id_with_version-injective w zero (suc u) e =
    absurd (omega (arith, longer w u, ap length (sym (unversioned w) ∙ e)))
wallet_id_with_version-injective w (suc v) zero e =
    absurd (omega (arith, longer w v, ap length (e ∙ unversioned w)))
wallet_id_with_version-injective w (suc v) (suc u) e = decimal-injective (suc v) (suc u) (
    cancel (w ++ codes "_v") (decimal (suc v)) (decimal (suc u))
      (sym (versioned w v) ∙ e ∙ versioned w u))

compose_key-injective : (c : Curve) (a b : Text) → compose_key c a ≡ compose_key c b → a ≡ b
unfolding compose_key
compose_key-injective ecdsa a b e = cancel (codes "ecdsa:") a b e
compose_key-injective eddsa a b e = cancel (codes "eddsa:") a b e

module _ {ℓ} {D : Type ℓ} (decode : Text → Option D) (c : Curve) (w : Text) where
  -- What a fetched entry becomes.
  abbrev pub decoded_share : Option Text → Loaded D
  decoded_share none = get_failed
  decoded_share (some key_data) = elim (decode key_data) [
    | none ↦ decode_failed
    | some d ↦ loaded d
  ]

  load_versioned :
      (get : Text → Option Text) (v : ℕ)
      → load_old_share_data_generic (compose_key c) get decode w v
        ≡ decoded_share (get (compose_key c (wallet_id_with_version w v)))
  unfolding load_old_share_data_generic
  load_versioned get zero = rw (unversioned w) refl
  load_versioned get (suc v) = ground arith

  -- The key of a version's share.
  abbrev pub share_key : ℕ → Text
  share_key v = compose_key c (wallet_id_with_version w v)

  pub share_key-same : (v u : ℕ) → same (share_key v) (share_key u) ≡ (v == u)
  share_key-same v u = elim (Bool-cases (v == u)) [
    | inl e ↦ rw (e, (==_iff v u).0 e) ((same_iff (share_key u) (share_key u)).1 refl)
    | inr e ↦ elim (Bool-cases (same (share_key v) (share_key u))) [
      | inl h ↦ ground (
        arith,
        wallet_id_with_version-injective w v u (
            compose_key-injective c (wallet_id_with_version w v) (wallet_id_with_version w u)
              ((same_iff (share_key v) (share_key u)).0 h)),
      )
      | inr h ↦ rw (e, h) refl
    ]
  ]

  -- After a share is stored under the key of a version, loading that version gives what the stored bytes
  -- decode to, and loading any other version gives what it gave before.
  pub load_old_share_data-insert :
      (kv : List (Text × Text)) (v u : ℕ) (share : Text)
      → load_old_share_data_generic
          (compose_key c)
          (λ k. lookup k (insert (compose_key c (wallet_id_with_version w v)) share kv))
          decode
          w
          u
        ≡ (if v == u
            then decoded_share (some share)
            else load_old_share_data_generic (compose_key c) (λ k. lookup k kv) decode w u)
  load_old_share_data-insert kv v u share = ground (
    arith,
    load_versioned (λ k. lookup k (insert (share_key v) share kv)) u,
    load_versioned (λ k. lookup k kv) u,
    lookup-insert (share_key v) (share_key u) share kv,
    share_key-same v u,
  )
