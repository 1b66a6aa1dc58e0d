-- ===== src/Node/Saving/Laws.antt =====
-- What a later signing session finds after a key generation or a resharing has ended, or failed half-way.
use mpc_go.Common.{
  ℕ, ◌≡◌, ◌≢◌, ◌∙◌, List, none, some, Text, Bool, true, arith, ap, sym, length, pos, ◌≤ℤ◌, ◌+ℤ◌,
  lookup, lookup-insert, same_iff, Option-cases, inl, inr,
}
use mpc_go.Topic.{Curve, compose_key, wallet_id_with_version}
use mpc_go.KeyInfo.{KeyInfo, Store, get, save, compose_store_key, found}
use mpc_go.PartySession.Shares.{share_key-same}
use mpc_go.Node.{Node, Session, ResharingSession}
use mpc_go.Node.Resharing.{saved_key_info}
use mpc_go.Node.Initialise.{Shares, init_with_key_info, init_signing_session}
use mpc_go.Node.Saving.{
  Stores, SaveData, SaveError, finished, failed, save_share, generated_key_info, generate_key,
  reshare,
}

-- A node whose stores are these, and what it reads of them when it initialises a session.
abbrev pub with_stores : Stores → Node → Node
with_stores st n = record n { keyinfo_store = st.keyinfo_store }

abbrev pub shares_of : (List Text → List Text → List Text) → (Text → Bool) → Stores → Shares
shares_of intersect is_share st = record {
  intersect = intersect;
  get_share = λ k. lookup k st.kvstore;
  is_share = is_share;
}

module _ (intersect : List Text → List Text → List Text) (is_share : Text → Bool) where
  -- What a share that was saved leaves in the two stores.
  save_share_finished :
      (c : Curve) (w key pub_key : Text) (info : KeyInfo) (d : SaveData) (st st' : Stores)
      → d.key_bytes ≡ some key
      → st.keyinfo_store.available ≡ true
      → save_share c w info d st ≡ (st', finished pub_key)
      → (get st'.keyinfo_store (compose_key c w) ≡ found info)
        × (lookup (compose_key c (wallet_id_with_version w info.version)) st'.kvstore ≡ some key)
        × (pub_key ≡ d.pub_key_bytes)
  unfolding save_share save get
  save_share_finished c w key pub_key info d st st' k v h = ground (
    arith,
    lookup-insert (compose_store_key (compose_key c w)) (compose_store_key (compose_key c w)) info
        st.keyinfo_store.entries,
    lookup-insert (compose_key c (wallet_id_with_version w info.version))
        (compose_key c (wallet_id_with_version w info.version)) key st.kvstore,
    same_iff (compose_store_key (compose_key c w)) (compose_store_key (compose_key c w)),
    same_iff (compose_key c (wallet_id_with_version w info.version))
        (compose_key c (wallet_id_with_version w info.version)),
  )

  init_found :
      (sh : Shares) (n : Node) (t : Session) (info : KeyInfo)
      → get n.keyinfo_store (compose_key t.curve t.wallet_id) ≡ found info
      → init_signing_session sh n t ≡ init_with_key_info sh t info
  unfolding init_signing_session
  init_found sh n t info g = ground arith

  init_shares_found :
      (t : Session) (key : Text) (info : KeyInfo) (st : Stores)
      → lookup (compose_key t.curve (wallet_id_with_version t.wallet_id info.version)) st.kvstore
        ≡ some key
      → is_share key ≡ true
      → info.threshold +ℤ pos 1 ≤ℤ pos (length t.participant_peer_ids)
      → info.threshold +ℤ pos 1
        ≤ℤ pos (length (intersect t.participant_peer_ids info.participant_peer_ids))
      → init_with_key_info (shares_of intersect is_share st) t info ≡ none
  unfolding init_with_key_info
  init_shares_found t key info st l s p q = ground arith

  -- A signing session of the wallet with enough participants initialises.
  saved_initialises :
      (n : Node) (t : Session) (key : Text) (info : KeyInfo) (st : Stores)
      → get st.keyinfo_store (compose_key t.curve t.wallet_id) ≡ found info
      → lookup (compose_key t.curve (wallet_id_with_version t.wallet_id info.version)) st.kvstore
        ≡ some key
      → is_share key ≡ true
      → info.threshold +ℤ pos 1 ≤ℤ pos (length t.participant_peer_ids)
      → info.threshold +ℤ pos 1
        ≤ℤ pos (length (intersect t.participant_peer_ids info.participant_peer_ids))
      → init_signing_session (shares_of intersect is_share st) (with_stores st n) t ≡ none
  saved_initialises n t key info st g l s p q =
      init_found (shares_of intersect is_share st) (with_stores st n) t info g
      ∙ init_shares_found t key info st l s p q

  -- A key generation that ends well: every later signing session of the wallet and curve, at a node with these
  -- stores, initialises if enough of its participants took part in the key generation, the stored share
  -- decodes and the key info store answers.
  pub init-generate_key :
      (n : Node) (s t : Session) (key pub_key : Text) (d : SaveData) (st st' : Stores)
      → d.key_bytes ≡ some key
      → is_share key ≡ true
      → st.keyinfo_store.available ≡ true
      → generate_key s d st ≡ (st', finished pub_key)
      → t.curve ≡ s.curve
      → t.wallet_id ≡ s.wallet_id
      → s.threshold +ℤ pos 1 ≤ℤ pos (length t.participant_peer_ids)
      → s.threshold +ℤ pos 1
        ≤ℤ pos (length (intersect t.participant_peer_ids s.participant_peer_ids))
      → init_signing_session (shares_of intersect is_share st') (with_stores st' n) t ≡ none
  unfolding generate_key
  init-generate_key n s t key pub_key d st st' k i v h c w p q =
      let (g, l, _) =
        save_share_finished s.curve s.wallet_id key pub_key (generated_key_info s) d st st' k v h in
      saved_initialises n t key (generated_key_info s) st' (rw (c, w) g) (rw (c, w) l) i p q

  -- The same for a resharing, with the new committee and the new threshold.
  pub init-reshare :
      (n : Node) (s : ResharingSession) (t : Session) (key pub_key : Text) (d : SaveData)
      (st st' : Stores)
      → d.key_bytes ≡ some key
      → is_share key ≡ true
      → st.keyinfo_store.available ≡ true
      → reshare s (some d) st ≡ (st', finished pub_key)
      → t.curve ≡ s.session.curve
      → t.wallet_id ≡ s.session.wallet_id
      → s.new_threshold +ℤ pos 1 ≤ℤ pos (length t.participant_peer_ids)
      → s.new_threshold +ℤ pos 1 ≤ℤ pos (length (intersect t.participant_peer_ids s.new_peer_ids))
      → init_signing_session (shares_of intersect is_share st') (with_stores st' n) t ≡ none
  unfolding reshare saved_key_info
  init-reshare n s t key pub_key d st st' k i v h c w p q =
      let (g, l, _) =
        save_share_finished s.session.curve s.session.wallet_id key pub_key (saved_key_info s) d st
          st' k v h in
      saved_initialises n t key (saved_key_info s) st' (rw (c, w) g) (rw (c, w) l) i p q

  save_share-failed :
      (c : Curve) (w : Text) (info : KeyInfo) (d : SaveData) (e : SaveError) (st st' : Stores)
      → save_share c w info d st ≡ (st', failed e)
      → (st'.keyinfo_store ≡ st.keyinfo_store)
        × ((u : ℕ)
            → u ≢ info.version
            → lookup (compose_key c (wallet_id_with_version w u)) st'.kvstore
              ≡ lookup (compose_key c (wallet_id_with_version w u)) st.kvstore)
  unfolding save_share save
  save_share-failed c w info d e st st' h = (
    ground arith,
    λ u n. elim (Option-cases d.key_bytes) [
      | inl k ↦ ground arith
      | inr (key, k) ↦ ground (
        arith,
        lookup-insert (compose_key c (wallet_id_with_version w info.version))
            (compose_key c (wallet_id_with_version w u)) key st.kvstore,
        share_key-same {D = Text} some c w info.version u,
      )
    ],
  )

  init_shares_same :
      (t : Session) (info : KeyInfo) (st st' : Stores)
      → lookup (compose_key t.curve (wallet_id_with_version t.wallet_id info.version)) st'.kvstore
        ≡ lookup (compose_key t.curve (wallet_id_with_version t.wallet_id info.version)) st.kvstore
      → init_with_key_info (shares_of intersect is_share st') t info
        ≡ init_with_key_info (shares_of intersect is_share st) t info
  unfolding init_with_key_info
  init_shares_same t info st st' l = ground arith

  init_same :
      (n : Node) (t : Session) (info : KeyInfo) (st st' : Stores)
      → get st.keyinfo_store (compose_key t.curve t.wallet_id) ≡ found info
      → st'.keyinfo_store ≡ st.keyinfo_store
      → lookup (compose_key t.curve (wallet_id_with_version t.wallet_id info.version)) st'.kvstore
        ≡ lookup (compose_key t.curve (wallet_id_with_version t.wallet_id info.version)) st.kvstore
      → init_signing_session (shares_of intersect is_share st') (with_stores st' n) t
        ≡ init_signing_session (shares_of intersect is_share st) (with_stores st n) t
  init_same n t info st st' g k l =
      init_found (shares_of intersect is_share st') (with_stores st' n) t info
        (ap (λ (z : Store). get z (compose_key t.curve t.wallet_id)) k ∙ g)
      ∙ init_shares_same t info st st' l
      ∙ sym (init_found (shares_of intersect is_share st) (with_stores st n) t info g)

  -- A resharing that fails on the way, even after it has stored the new share, changes nothing for the
  -- signing sessions of the wallet: each initialises, or fails to, as it did before.
  pub init-reshare-failed :
      (n : Node) (s : ResharingSession) (t : Session) (info : KeyInfo) (d : SaveData)
      (e : SaveError) (st st' : Stores)
      → reshare s (some d) st ≡ (st', failed e)
      → t.curve ≡ s.session.curve
      → t.wallet_id ≡ s.session.wallet_id
      → get st.keyinfo_store (compose_key t.curve t.wallet_id) ≡ found info
      → info.version ≡ s.session.version
      → init_signing_session (shares_of intersect is_share st') (with_stores st' n) t
        ≡ init_signing_session (shares_of intersect is_share st) (with_stores st n) t
  unfolding reshare saved_key_info
  init-reshare-failed n s t info d e st st' h c w g v =
      let (k, l) =
        save_share-failed s.session.curve s.session.wallet_id (saved_key_info s) d e st st' h in
      init_same n t info st st' g k (rw (c, w) (l info.version (omega arith)))
