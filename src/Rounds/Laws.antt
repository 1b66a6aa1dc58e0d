-- ===== src/Rounds/Laws.antt =====
-- The table of rounds: a message of a known type has a round, the round's number stays below the number
-- of rounds of its protocol, and the name of the round tells the type.
use mpc_go.Common.{ℕ, ◌<◌, ◌≡◌, Option, none, some, Bool, true, false, arith, refl, same}
use mpc_go.PartySession.{RoundInfo}
use mpc_go.Rounds.{Protocol, keygen, signing, resharing}
use mpc_go.Rounds.Ecdsa.{
  Content, unknown, kg_round1_message, kg_round2_message1, kg_round2_message2, kg_round3_message,
  sign_round1_message1, sign_round1_message2, sign_round2_message, sign_round3_message,
  sign_round4_message, sign_round5_message, sign_round6_message, sign_round7_message,
  sign_round8_message, sign_round9_message, dg_round1_message, dg_round2_message1,
  dg_round2_message2, dg_round3_message1, dg_round3_message2, dg_round4_message1,
  dg_round4_message2, content_round, get_msg_round, protocol_of, is_resharing_round,
  tss_keygen_rounds, tss_keysign_rounds,
}

-- The numbers of rounds; for a resharing the source names none for ECDSA, and it has seven messages.
abbrev pub rounds_of : Protocol → ℕ
rounds_of keygen = tss_keygen_rounds
rounds_of signing = tss_keysign_rounds
rounds_of resharing = 7

abbrev pub is_resharing : Protocol → Bool
is_resharing keygen = false
is_resharing signing = false
is_resharing resharing = true

-- What the round of a message should be, from the protocol that the message belongs to.
abbrev pub IsRoundOf : Option Protocol → Option RoundInfo → Type 0
IsRoundOf none none = Unit
IsRoundOf none (some r) = ⊥
IsRoundOf (some p) none = ⊥
IsRoundOf (some p) (some r) =
    (r.index < rounds_of p) × (is_resharing_round r.round_msg ≡ is_resharing p)

-- An ECDSA message of a known type has a round, whose index is below the number of rounds of the
-- message's protocol and whose name is that of a resharing round exactly if the message is one of a
-- resharing; a message of a type that is not known has no round.
pub get_msg_round-IsRoundOf : (c : Content) → IsRoundOf (protocol_of c) (get_msg_round (some c))
unfolding get_msg_round content_round is_resharing_round same
get_msg_round-IsRoundOf kg_round1_message = (omega arith, refl)
get_msg_round-IsRoundOf kg_round2_message1 = (omega arith, refl)
get_msg_round-IsRoundOf kg_round2_message2 = (omega arith, refl)
get_msg_round-IsRoundOf kg_round3_message = (omega arith, refl)
get_msg_round-IsRoundOf sign_round1_message1 = (omega arith, refl)
get_msg_round-IsRoundOf sign_round1_message2 = (omega arith, refl)
get_msg_round-IsRoundOf sign_round2_message = (omega arith, refl)
get_msg_round-IsRoundOf sign_round3_message = (omega arith, refl)
get_msg_round-IsRoundOf sign_round4_message = (omega arith, refl)
get_msg_round-IsRoundOf sign_round5_message = (omega arith, refl)
get_msg_round-IsRoundOf sign_round6_message = (omega arith, refl)
get_msg_round-IsRoundOf sign_round7_message = (omega arith, refl)
get_msg_round-IsRoundOf sign_round8_message = (omega arith, refl)
get_msg_round-IsRoundOf sign_round9_message = (omega arith, refl)
get_msg_round-IsRoundOf dg_round1_message = (omega arith, refl)
get_msg_round-IsRoundOf dg_round2_message1 = (omega arith, refl)
get_msg_round-IsRoundOf dg_round2_message2 = (omega arith, refl)
get_msg_round-IsRoundOf dg_round3_message1 = (omega arith, refl)
get_msg_round-IsRoundOf dg_round3_message2 = (omega arith, refl)
get_msg_round-IsRoundOf dg_round4_message1 = (omega arith, refl)
get_msg_round-IsRoundOf dg_round4_message2 = (omega arith, refl)
get_msg_round-IsRoundOf unknown = tt
