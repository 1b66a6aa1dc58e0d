-- ===== src/Topic/Laws.antt =====
-- Topics are read back as they were composed, and do not run into one another.
use mpc_go.Common.{
  ℕ, suc, ◌≡◌, ap, ◌++◌, ◌∷◌, [], List, Text, codes, split_n, split_n-append, Lacks, arith,
}
use mpc_go.Topic.{
  Curve, ecdsa, eddsa, Protocol, keygen, signing, resharing, curve_name, ◌⊕◌, compose_direct_topic,
  extract_sender_id_from_direct_topic,
}

-- The three words that a direct topic begins with.
abbrev words : Protocol → Curve → List Text
words keygen c = codes "keygen" ∷ codes "direct" ∷ curve_name c ∷ []
words signing c = codes "sign" ∷ curve_name c ∷ codes "direct" ∷ []
words resharing c = codes "resharing" ∷ codes "direct" ∷ curve_name c ∷ []

name-Lacks : (c : Curve) → Lacks b':' (curve_name c)
name-Lacks ecdsa = omega arith
name-Lacks eddsa = omega arith

split_four :
    (n : ℕ) (a b c d rest : Text)
    → Lacks b':' a
    → Lacks b':' b
    → Lacks b':' c
    → Lacks b':' d
    → split_n b':' (suc (suc (suc (suc (suc n))))) (a ⊕ b ⊕ c ⊕ d ⊕ rest)
      ≡ a ∷ b ∷ c ∷ d ∷ split_n b':' (suc n) rest
split_four n a b c d rest ha hb hc hd = rw (
  split_n-append b':' (suc (suc (suc n))) a (b ⊕ c ⊕ d ⊕ rest) ha,
  split_n-append b':' (suc (suc n)) b (c ⊕ d ⊕ rest) hb,
  split_n-append b':' (suc n) c (d ⊕ rest) hc,
  split_n-append b':' n d rest hd,
)

split_direct :
    (n : ℕ) (p : Protocol) (c : Curve) (from to id : Text)
    → Lacks b':' from
    → split_n b':' (suc (suc (suc (suc (suc n))))) (compose_direct_topic p c from to id)
      ≡ words p c ++ from ∷ split_n b':' (suc n) (to ⊕ id)
unfolding compose_direct_topic
split_direct n keygen c from to id h =
    split_four n (codes "keygen") (codes "direct") (curve_name c) from (to ⊕ id) (omega arith)
      (omega arith) (name-Lacks c) h
split_direct n signing c from to id h =
    split_four n (codes "sign") (curve_name c) (codes "direct") from (to ⊕ id) (omega arith)
      (name-Lacks c) (omega arith) h
split_direct n resharing c from to id h =
    split_four n (codes "resharing") (codes "direct") (curve_name c) from (to ⊕ id) (omega arith)
      (omega arith) (name-Lacks c) h

-- The receiver reads the sender's node ID out of the topic, whatever the receiver's ID and the last
-- part are.
pub extract_sender-compose_direct_topic :
    (p : Protocol) (c : Curve) (from to id : Text)
    → Lacks b':' from
    → extract_sender_id_from_direct_topic (compose_direct_topic p c from to id) ≡ from
unfolding extract_sender_id_from_direct_topic
extract_sender-compose_direct_topic keygen c from to id h =
    rw (split_direct 0 keygen c from to id h)
extract_sender-compose_direct_topic signing c from to id h =
    rw (split_direct 0 signing c from to id h)
extract_sender-compose_direct_topic resharing c from to id h =
    rw (split_direct 0 resharing c from to id h)

split_last : (to id : Text) → Lacks b':' to → split_n b':' 2 (to ⊕ id) ≡ to ∷ id ∷ []
unfolding split_n
split_last to id h = split_n-append b':' 0 to id h

-- Two sessions that differ in kind, curve, sender, receiver or ID never share a direct topic.
pub compose_direct_topic-injective :
    (p : Protocol) (c : Curve) (from to id : Text) (q : Protocol) (d : Curve) (from' to' id' : Text)
    → Lacks b':' from
    → Lacks b':' to
    → Lacks b':' from'
    → Lacks b':' to'
    → compose_direct_topic p c from to id ≡ compose_direct_topic q d from' to' id'
    → (p ≡ q) × (c ≡ d) × (from ≡ from') × (to ≡ to') × (id ≡ id')
compose_direct_topic-injective p c from to id q d from' to' id' hf ht hf' ht' e = ground (
  arith,
  split_direct 1 p c from to id hf,
  split_direct 1 q d from' to' id' hf',
  split_last to id ht,
  split_last to' id' ht',
  ap (split_n b':' 6) e,
)
