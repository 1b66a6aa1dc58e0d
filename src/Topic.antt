-- ===== src/Topic.antt =====
-- Topics and storage keys of a session: the composers that pkg/mpc/ecdsa and pkg/mpc/eddsa give their
-- sessions, and what pkg/mpc/core/session.go reads out of a topic.
pub mod Laws
use mpc_go.Common.{
  ℕ, zero, ◌<◌, ◌++◌, ◌∷◌, [], List, Text, codes, split_n, decimal, ltb, if◌then◌else◌,
}

-- The two packages, and the three kinds of session that each has.
pub data Curve : Type 0 where
  ecdsa eddsa : Curve

pub data Protocol : Type 0 where
  keygen signing resharing : Protocol

abbrev pub curve_name : Curve → Text
curve_name ecdsa = codes "ecdsa"
curve_name eddsa = codes "eddsa"

-- `a:b`, as the format strings put it.
infixr 64 ◌⊕◌
abbrev pub ◌⊕◌ : Text → Text → Text
a ⊕ b = a ++ b':' ∷ b

-- `TopicComposer.ComposeDirectTopic` of each session; the last argument is the wallet ID, or the
-- transaction ID when signing.
unfoldable pub compose_direct_topic : Protocol → Curve → Text → Text → Text → Text
compose_direct_topic keygen c from to wallet_id =
    codes "keygen" ⊕ codes "direct" ⊕ curve_name c ⊕ from ⊕ to ⊕ wallet_id
compose_direct_topic signing c from to tx_id =
    codes "sign" ⊕ curve_name c ⊕ codes "direct" ⊕ from ⊕ to ⊕ tx_id
compose_direct_topic resharing c from to wallet_id =
    codes "resharing" ⊕ codes "direct" ⊕ curve_name c ⊕ from ⊕ to ⊕ wallet_id

-- `TopicComposer.ComposeBroadcastTopic`; only a signing topic has the transaction ID.
unfoldable pub compose_broadcast_topic : Protocol → Curve → Text → Text → Text
compose_broadcast_topic keygen c wallet_id tx_id =
    codes "keygen" ⊕ codes "broadcast" ⊕ curve_name c ⊕ wallet_id
compose_broadcast_topic signing c wallet_id tx_id =
    codes "sign" ⊕ curve_name c ⊕ codes "broadcast" ⊕ wallet_id ⊕ tx_id
compose_broadcast_topic resharing c wallet_id tx_id =
    codes "resharing" ⊕ codes "broadcast" ⊕ curve_name c ⊕ wallet_id

-- `parts[3]`, if there are four parts.
abbrev pub fourth : List Text → Text
fourth (_ ∷ _ ∷ _ ∷ from ∷ _) = from
fourth _ = []

unfoldable pub extract_sender_id_from_direct_topic : Text → Text
extract_sender_id_from_direct_topic topic = fourth (split_n b':' 5 topic)

-- `PartySession.ComposeKey`, the name of a wallet in the key info store.
unfoldable pub compose_key : Curve → Text → Text
compose_key c wallet_id = curve_name c ⊕ wallet_id

-- The name under which a share is stored. A version is never negative.
unfoldable pub wallet_id_with_version : Text → ℕ → Text
wallet_id_with_version wallet_id version =
    if ltb 0 version then wallet_id ++ codes "_v" ++ decimal version else wallet_id
