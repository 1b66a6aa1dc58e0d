-- ===== src/Party/Laws.antt =====
-- What a party identifier tells of its node.
use mpc_go.Common.{
  ℕ, ◌<◌, ◌==◌, ◌≡◌, ◌↔◌, ap, inl, inr, ◌++◌, ◌∷◌, [], some, true, false, Text, All, All-map,
  All-append, Bool-cases, same_iff, cut, cut-append, cut-Lacks, Lacks, NoSpace, trim_space-NoSpace,
  set_bytes, bytes, bytes-set_bytes, decimal, decimal-All, decimal-injective, arith, if◌then◌else◌,
}
use mpc_go.Party.{
  party_key, create_party_id, party_id_to_node_id, compare_party_ids, signer_node_id,
}

-- What the code takes for granted of a node ID: bytes, the first not zero, no colon and no space.
abbrev pub IsNodeId : Text → Type 0
IsNodeId [] = ⊥
IsNodeId (c ∷ s) = (0 < c) × All (λ d. d < 256) (c ∷ s) × Lacks b':' (c ∷ s) × NoSpace (c ∷ s)

bytes-party_key :
    (a : Text) (v : ℕ) → IsNodeId a → bytes (set_bytes (party_key a v)) ≡ party_key a v
unfolding party_key
bytes-party_key [] v h = absurd h
bytes-party_key (c ∷ s) v h = elim (Bool-cases (v == 0)) [
  | inl z ↦ rw z (bytes-set_bytes c s h.0 h.1)
  | inr p ↦ rw p (
      bytes-set_bytes c (s ++ b':' ∷ decimal v) h.0 (
        All-append (λ d. d < 256) (c ∷ s) (b':' ∷ decimal v) h.1
          (omega arith, All-map (λ d k. omega arith) (decimal v) (decimal-All v))))
]

cut_key : (a : Text) (v : ℕ) → Lacks b':' a → (cut b':' (party_key a v)).0 ≡ a
unfolding party_key
cut_key a v h = ground (arith, cut-append b':' a (decimal v) h, cut-Lacks b':' a h)

Lacks-colon : (a : Text) → IsNodeId a → Lacks b':' a
Lacks-colon [] h = absurd h
Lacks-colon (c ∷ s) h = h.2

no_space : (a : Text) → IsNodeId a → NoSpace a
no_space [] h = absurd h
no_space (c ∷ s) h = h.3

-- From a party ID that was created for a node, both translations give the node's ID back.
pub node_id-create_party_id :
    (uuid node_id label : Text) (version : ℕ)
    → IsNodeId node_id
    → (party_id_to_node_id (some (create_party_id uuid node_id label version)) ≡ node_id)
      × (signer_node_id (create_party_id uuid node_id label version) ≡ node_id)
unfolding party_id_to_node_id signer_node_id create_party_id
node_id-create_party_id uuid a label v h =
    (rw (key_cut) (trim_space-NoSpace a (no_space a h)), key_cut)
  where
    key_cut : (cut b':' (bytes (set_bytes (party_key a v)))).0 ≡ a
    key_cut = rw (bytes-party_key a v h) (cut_key a v (Lacks-colon a h))

key_version :
    (a : Text) (v : ℕ)
    → Lacks b':' a
    → cut b':' (party_key a v) ≡ (if v == 0 then (a, [], false) else (a, decimal v, true))
unfolding party_key
key_version a v h = ground (arith, cut-append b':' a (decimal v) h, cut-Lacks b':' a h)

party_key-injective :
    (a b : Text) (v w : ℕ)
    → Lacks b':' a
    → Lacks b':' b
    → party_key a v ≡ party_key b w
    → (a ≡ b) × (v ≡ w)
party_key-injective a b v w ha hb e =
    ground (arith, key_version a v ha, key_version b w hb, ap (cut b':') e, decimal-injective v w)

-- Two party IDs compare equal exactly if they were created for one node and one version; the UUID
-- and the label play no part.
pub compare-create_party_id :
    (u a l : Text) (v : ℕ) (u' b l' : Text) (w : ℕ)
    → IsNodeId a
    → IsNodeId b
    → (compare_party_ids (create_party_id u a l v) (create_party_id u' b l' w) ≡ true)
      ↔ ((a ≡ b) × (v ≡ w))
unfolding compare_party_ids create_party_id
compare-create_party_id u a l v u' b l' w ha hb =
    rw (bytes-party_key a v ha, bytes-party_key b w hb)
      (
        λ e. party_key-injective a b v w (Lacks-colon a ha) (Lacks-colon b hb) ((same_iff _ _).0 e),
        λ e. (same_iff _ _).1 (cc (e.0, e.1)),
      )
