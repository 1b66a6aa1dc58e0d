-- ===== src/PartySession.antt =====
-- How a session of the protocol sends and receives (pkg/mpc/core/session.go). A method's effects are
-- the list of `Event`s in the order in which they happen.
pub mod Delivery
pub mod Trust
pub mod Shares
use mpc_go.Common.{
  ℕ, suc, ◌∷◌, ◌++◌, ◌==◌, [], List, Option, none, some, Text, Bool, true, false, not, ◌&&◌, ◌||◌,
  same, if◌then◌else◌, length, codes, ltb,
}
use mpc_go.Party.{PartyId, party_id_to_node_id, party_ids_to_node_ids, compare_party_ids}
use mpc_go.Topic.{extract_sender_id_from_direct_topic, wallet_id_with_version}
use mpc_go.Encryption.{Aead}
use mpc_go.Messages.{TssMessage, TssJson, new_tss_message}
use mpc_go.Identity.Store.{
  Signatures, FileStore, Result, good, bad, panicked, sign_message, verify_message, encrypt_message,
  decrypt_message,
}

pub data SessionError : Type 0 where
  no_wire_bytes sign_failed marshal_failed publish_failed : SessionError
  encrypt_failed bad_topic decrypt_failed unmarshal_failed verify_failed : SessionError
  broken_share : SessionError
  send_failed subscribe_failed : Text → SessionError

pub data Event : Type 0 where
  published sent_to_self sent_to_other : Text → Text → Event  -- topic, bytes
  listened : Text → Event
  reported : SessionError → Event  -- on `ErrCh`
  updated : Text → Option PartyId → Bool → Event  -- the call of `Party.UpdateFromBytes`
  crashed : Event  -- a nil pointer is followed

-- `tss.MessageRouting`.
pub record Routing : Type 0 where
  pub from : PartyId
  pub to : List PartyId
  pub is_broadcast : Bool

pub record RoundInfo : Type 0 where
  pub index : ℕ
  pub round_msg : Text
  pub msg_identifier : Text

pub record PartySession : Type 0 where
  pub wallet_id : Text
  pub self_party_id : PartyId
  pub party_ids : List PartyId
  -- `TopicComposer` and `GetRoundFunc`; `none` is the error of the latter
  pub broadcast_topic : Text
  pub compose_direct_topic : Text → Text → Text
  pub get_round : Text → PartyId → Bool → Option RoundInfo

-- Whether the message system takes what is published, sent or subscribed to.
pub record Network : Type 0 where
  pub publish : Text → Text → Bool
  pub send_to_self : Text → Text → Bool
  pub send_to_other : Text → Text → Bool
  pub listen : Text → Bool

abbrev pub report_unless : Bool → SessionError → List Event
report_unless true e = []
report_unless false e = reported e ∷ []

abbrev pub self_id : PartySession → Text
self_id ps = party_id_to_node_id (some ps.self_party_id)

-- The loop that finds the session's party among the addressees.
abbrev pub is_to_self : PartyId → List PartyId → Bool
is_to_self self [] = false
is_to_self self (to ∷ rest) = compare_party_ids to self || is_to_self self rest

module _ (j : TssJson) (c : Signatures) (a : Aead) (s : FileStore) (net : Network) where
  unfoldable pub send_broadcast : PartySession → TssMessage → List Event
  send_broadcast ps m = elim (sign_message j c s m) [
    | bad _ ↦ reported sign_failed ∷ []
    | panicked ↦ crashed ∷ []
    | good signature ↦ elim (j.marshal_tss_message (record m { signature = some signature })) [
      | none ↦ reported marshal_failed ∷ []
      | some msg ↦
          published ps.broadcast_topic msg
          ∷ report_unless (net.publish ps.broadcast_topic msg) publish_failed
    ]
  ]

  -- What is sent to another node: after a failed encryption the nil cipher is.
  abbrev pub send_cipher : Text → Result Text → List Event
  send_cipher topic (good cipher) =
      sent_to_other topic cipher
      ∷ report_unless (net.send_to_other topic cipher) (send_failed topic)
  send_cipher topic (bad _) =
      reported encrypt_failed
      ∷ sent_to_other topic []
      ∷ report_unless (net.send_to_other topic []) (send_failed topic)
  send_cipher topic panicked = crashed ∷ []

  -- One round of the loop over `routing.To`.
  unfoldable pub send_direct : PartySession → Text → Option Text → PartyId → List Event
  send_direct ps msg nonce to =
      let to_node_id = party_id_to_node_id (some to) in
      let topic = ps.compose_direct_topic (self_id ps) to_node_id in
      if same (self_id ps) to_node_id
      then sent_to_self topic msg ∷ report_unless (net.send_to_self topic msg) (send_failed topic)
      else send_cipher topic (encrypt_message a s nonce msg to_node_id)

  -- The loop; the nonces are drawn from the `i`-th on.
  unfoldable pub send_all : PartySession → Text → (ℕ → Option Text) → ℕ → List PartyId → List Event
  send_all ps msg nonce i [] = []
  send_all ps msg nonce i (to ∷ rest) =
      send_direct ps msg (nonce i) to ++ send_all ps msg nonce (suc i) rest

  unfoldable pub send_p2p : PartySession → TssMessage → (ℕ → Option Text) → List Event
  send_p2p ps m nonce = elim (j.marshal_tss_message m) [
    | none ↦ reported marshal_failed ∷ []
    | some msg ↦ send_all ps msg nonce 0 m.to
  ]

  -- The second argument is what `keyshare.WireBytes` returns.
  unfoldable pub handle_tss_message :
      PartySession → Option (Text × Routing) → (ℕ → Option Text) → List Event
  handle_tss_message ps none nonce = reported no_wire_bytes ∷ []
  handle_tss_message ps (some (msg_bytes, r)) nonce =
      let m = new_tss_message ps.wallet_id msg_bytes r.is_broadcast r.from r.to in
      if r.is_broadcast && (length r.to == 0) then send_broadcast ps m else send_p2p ps m nonce

  -- The log entry that follows the round's check reads the sender.
  unfoldable pub receive_tss_message : PartySession → TssMessage → List Event
  receive_tss_message ps m = elim (ps.get_round m.msg_bytes ps.self_party_id m.is_broadcast) [
    | none ↦ reported broken_share ∷ []
    | some _ ↦ elim m.from [
      | none ↦ crashed ∷ []
      | some from ↦
          if (m.is_broadcast && (length m.to == 0)) || is_to_self ps.self_party_id m.to
          then updated m.msg_bytes (some from) m.is_broadcast ∷ []
          else []
    ]
  ]

  abbrev pub receive_plaintext : PartySession → Text → List Event
  receive_plaintext ps plaintext = elim (j.unmarshal_tss_message plaintext) [
    | none ↦ reported unmarshal_failed ∷ []
    | some m ↦ receive_tss_message ps m
  ]

  -- From the sender's node ID on, which the topic gives.
  unfoldable pub receive_from : PartySession → Text → Text → List Event
  receive_from ps sender_id cipher =
      if length sender_id == 0
      then reported bad_topic ∷ []
      else if same sender_id (self_id ps)
      then receive_plaintext ps cipher
      else elim (decrypt_message a s cipher sender_id) [
        | good plaintext ↦ receive_plaintext ps plaintext
        | bad _ ↦ reported decrypt_failed ∷ []
        | panicked ↦ crashed ∷ []
      ]

  unfoldable pub receive_p2p_tss_message : PartySession → Text → Text → List Event
  receive_p2p_tss_message ps topic cipher =
      receive_from ps (extract_sender_id_from_direct_topic topic) cipher

  unfoldable pub receive_broadcast_tss_message : PartySession → Text → List Event
  receive_broadcast_tss_message ps raw_msg = elim (j.unmarshal_tss_message raw_msg) [
    | none ↦ reported unmarshal_failed ∷ []
    | some m ↦ elim (verify_message j c s m) [
      | good _ ↦ receive_tss_message ps m
      | bad _ ↦ reported verify_failed ∷ []
      | panicked ↦ crashed ∷ []
    ]
  ]

  unfoldable pub subscribe_from_peers_async : PartySession → List Text → List Event
  subscribe_from_peers_async ps [] = []
  subscribe_from_peers_async ps (from_id ∷ rest) =
      let topic = ps.compose_direct_topic from_id (self_id ps) in
      (if net.listen topic then listened topic ∷ [] else reported (subscribe_failed topic) ∷ [])
      ++ subscribe_from_peers_async ps rest

  -- The broadcast's goroutine is taken to run first.
  unfoldable pub listen_to_incoming_message_async : PartySession → List Event
  listen_to_incoming_message_async ps =
      (if net.listen ps.broadcast_topic
        then listened ps.broadcast_topic ∷ []
        else reported (subscribe_failed ps.broadcast_topic) ∷ [])
      ++ subscribe_from_peers_async ps (party_ids_to_node_ids ps.party_ids)

-- What a key-value store's `Get` and the decoding of a share give.
pub data Loaded {ℓ} (D : Type ℓ) : Type ℓ where
  loaded : D → Loaded D
  get_failed decode_failed : Loaded D

-- `LoadOldShareDataGeneric`: the key that a version above 0 has, or the wallet's own for version 0.
unfoldable pub load_old_share_data_generic {ℓ} :
    {D : Type ℓ} → (Text → Text) → (Text → Option Text) → (Text → Option D) → Text → ℕ → Loaded D
load_old_share_data_generic compose_key get decode wallet_id version =
    let fetched =
      if ltb 0 version
      then get (compose_key (wallet_id_with_version wallet_id version))
      else get (compose_key wallet_id) in
    elim fetched [
      | none ↦ get_failed
      | some key_data ↦ elim (decode key_data) [ none ↦ decode_failed | some d ↦ loaded d ]
    ]
