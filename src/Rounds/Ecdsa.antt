-- ===== src/Rounds/Ecdsa.antt =====
-- The messages of the ECDSA protocols and their rounds (pkg/mpc/ecdsa/rounds.go). What
-- `tss.ParseWireMessage` makes of a message is an argument.
use mpc_go.Common.{ℕ, Option, none, some, Text, Bool, ◌||◌, codes, same, []}
use mpc_go.Rounds.{Protocol, keygen, signing, resharing}
use mpc_go.PartySession.{RoundInfo}

-- The types of the library that a message's content has; `unknown` is any other.
pub data Content : Type 0 where
  kg_round1_message kg_round2_message1 kg_round2_message2 kg_round3_message : Content
  sign_round1_message1 sign_round1_message2 sign_round2_message sign_round3_message
        sign_round4_message sign_round5_message sign_round6_message sign_round7_message
        sign_round8_message sign_round9_message :
      Content
  dg_round1_message dg_round2_message1 dg_round2_message2 dg_round3_message1 dg_round3_message2
        dg_round4_message1 dg_round4_message2 :
      Content
  unknown : Content

abbrev pub tss_keygen_rounds : ℕ
tss_keygen_rounds = 4

abbrev pub tss_keysign_rounds : ℕ
tss_keysign_rounds = 10

abbrev round_info : ℕ → Text → Option RoundInfo
round_info i m = some (record { index = i; round_msg = m; msg_identifier = [] })

-- The switch; `none` is its error.
unfoldable pub content_round : Content → Option RoundInfo
content_round kg_round1_message = round_info 0 (codes "KGRound1Message")
content_round kg_round2_message1 = round_info 1 (codes "KGRound2Message1")
content_round kg_round2_message2 = round_info 2 (codes "KGRound2Message2")
content_round kg_round3_message = round_info 3 (codes "KGRound3Message")
content_round sign_round1_message1 = round_info 0 (codes "SignRound1Message1")
content_round sign_round1_message2 = round_info 1 (codes "SignRound1Message2")
content_round sign_round2_message = round_info 2 (codes "SignRound2Message")
content_round sign_round3_message = round_info 3 (codes "SignRound3Message")
content_round sign_round4_message = round_info 4 (codes "SignRound4Message")
content_round sign_round5_message = round_info 5 (codes "SignRound5Message")
content_round sign_round6_message = round_info 6 (codes "SignRound6Message")
content_round sign_round7_message = round_info 7 (codes "SignRound7Message")
content_round sign_round8_message = round_info 8 (codes "SignRound8Message")
content_round sign_round9_message = round_info 9 (codes "SignRound9Message")
content_round dg_round1_message = round_info 0 (codes "DGRound1Message")
content_round dg_round2_message1 = round_info 1 (codes "DGRound2Message1")
content_round dg_round2_message2 = round_info 2 (codes "DGRound2Message2")
content_round dg_round3_message1 = round_info 3 (codes "DGRound3Message1")
content_round dg_round3_message2 = round_info 4 (codes "DGRound3Message2")
content_round dg_round4_message1 = round_info 5 (codes "DGRound4Message1")
content_round dg_round4_message2 = round_info 6 (codes "DGRound4Message2")
content_round unknown = none

unfoldable pub get_msg_round : Option Content → Option RoundInfo
get_msg_round none = none
get_msg_round (some content) = content_round content

-- The package of the library that declares the content.
abbrev pub protocol_of : Content → Option Protocol
protocol_of kg_round1_message = some keygen
protocol_of kg_round2_message1 = some keygen
protocol_of kg_round2_message2 = some keygen
protocol_of kg_round3_message = some keygen
protocol_of sign_round1_message1 = some signing
protocol_of sign_round1_message2 = some signing
protocol_of sign_round2_message = some signing
protocol_of sign_round3_message = some signing
protocol_of sign_round4_message = some signing
protocol_of sign_round5_message = some signing
protocol_of sign_round6_message = some signing
protocol_of sign_round7_message = some signing
protocol_of sign_round8_message = some signing
protocol_of sign_round9_message = some signing
protocol_of dg_round1_message = some resharing
protocol_of dg_round2_message1 = some resharing
protocol_of dg_round2_message2 = some resharing
protocol_of dg_round3_message1 = some resharing
protocol_of dg_round3_message2 = some resharing
protocol_of dg_round4_message1 = some resharing
protocol_of dg_round4_message2 = some resharing
protocol_of unknown = none

unfoldable pub is_resharing_round : Text → Bool
is_resharing_round round_msg =
    same round_msg (codes "DGRound1Message")
    || (same round_msg (codes "DGRound2Message1")
        || (same round_msg (codes "DGRound2Message2")
            || (same round_msg (codes "DGRound3Message1")
                || (same round_msg (codes "DGRound3Message2")
                    || (same round_msg (codes "DGRound4Message1")
                        || same round_msg (codes "DGRound4Message2"))))))
