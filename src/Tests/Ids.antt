-- ===== src/Tests/Ids.antt =====
-- Party IDs and topics on concrete node IDs.
use mpc_go.Common.{◌≡◌, refl, Text, codes, set_bytes, bytes, digits, value, decimal, []}
use mpc_go.Party.{create_party_id, party_key}
use mpc_go.Topic.{ecdsa, signing, compose_direct_topic, wallet_id_with_version}

abbrev node0 : Text
node0 = codes "node0"

abbrev node1 : Text
node1 = codes "node1"

key_of_version_two : bytes (create_party_id [] node0 [] 2).key ≡ codes "node0:2"
unfolding bytes create_party_id set_bytes digits value decimal party_key
key_of_version_two = refl

old_share_name : wallet_id_with_version (codes "w") 0 ≡ codes "w"
unfolding wallet_id_with_version
old_share_name = refl

signing_topic :
    compose_direct_topic signing ecdsa node0 node1 (codes "tx")
    ≡ codes "sign:ecdsa:direct:node0:node1:tx"
unfolding compose_direct_topic
signing_topic = refl
