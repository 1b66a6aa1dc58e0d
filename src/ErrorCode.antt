-- ===== src/ErrorCode.antt =====
-- Error codes (pkg/types/codes.go): how an error's text is sorted into one of them.
pub mod Laws
use mpc_go.Common.{
  ◌∷◌, [], List, Option, none, some, Text, Bool, false, ◌||◌, codes, if◌then◌else◌, has_infix,
  to_lower,
}

-- `no_code` is the empty string.
pub data ErrorCode : Type 0 where
  no_code : ErrorCode
  unknown : ErrorCode
  network_timeout network_connection network_subscription : ErrorCode
  message_routing direct_messaging : ErrorCode
  session_timeout session_creation session_initialization : ErrorCode
  session_cleanup session_duplicate session_stale : ErrorCode
  insufficient_participants incompatible_peer_ids peer_not_ready : ErrorCode
  peer_unavailable participant_not_found : ErrorCode
  key_not_found key_already_exists key_generation key_save key_load : ErrorCode
  key_info_save key_info_load key_encoding key_decoding msg_validation : ErrorCode
  signature_generation signature_verification : ErrorCode
  invalid_initiator_signature pre_params_generation tss_party_creation : ErrorCode
  marshal_failure unmarshal_failure data_corruption : ErrorCode
  storage_read storage_write storage_init : ErrorCode
  message_verification message_format message_delivery max_delivery_attempts : ErrorCode
  invalid_configuration invalid_threshold invalid_session_type : ErrorCode
  resource_exhausted memory_allocation concurrency_limit : ErrorCode
  keygen_failure signing_failure resharing_failure : ErrorCode
  context_cancelled operation_aborted not_majority cluster_not_ready : ErrorCode

-- The file's own `contains`, on a text that is in lower case already.
abbrev any_infix : Text → List Text → Bool
any_infix s [] = false
any_infix s (p ∷ ps) = has_infix s (to_lower p) || any_infix s ps

unfoldable pub contains_any : Text → List Text → Bool
contains_any s patterns = any_infix (to_lower s) patterns

-- The switch; the first case that holds gives the code.
unfoldable pub classify : Text → ErrorCode
classify s =
    if contains_any s (codes "validation" ∷ [])
    then msg_validation
    else if contains_any s (codes "timeout" ∷ codes "timed out" ∷ [])
    then network_timeout
    else if contains_any s (codes "connection" ∷ codes "connect" ∷ [])
    then network_connection
    else if contains_any s (codes "send" ∷ [])
    then peer_unavailable
    else if contains_any s (codes "not enough" ∷ codes "insufficient" ∷ [])
    then insufficient_participants
    else if contains_any s (codes "incompatible" ∷ [])
    then incompatible_peer_ids
    else if contains_any s (codes "not found" ∷ codes "no such key" ∷ [])
    then key_not_found
    else if contains_any s (codes "exists" ∷ [])
    then key_already_exists
    else if contains_any s (codes "marshal" ∷ [])
    then marshal_failure
    else if contains_any s (codes "unmarshal" ∷ [])
    then unmarshal_failure
    else if contains_any s (codes "storage" ∷ codes "kvstore" ∷ [])
    then storage_read
    else if contains_any s (codes "save" ∷ codes "put" ∷ [])
    then storage_write
    else if contains_any s (codes "session" ∷ [])
    then session_creation
    else if contains_any s (codes "verify" ∷ codes "verification" ∷ [])
    then message_verification
    else if contains_any s (codes "delivery" ∷ codes "deliver" ∷ [])
    then message_delivery
    else if contains_any s (codes "context" ∷ codes "cancelled" ∷ [])
    then context_cancelled
    else if contains_any s (codes "invalid signature from initiator" ∷ [])
    then invalid_initiator_signature
    else if contains_any s (codes "duplicate" ∷ [])
    then session_duplicate
    else unknown

-- The argument is the error's text; `none` is a nil error.
unfoldable pub get_error_code_from_error : Option Text → ErrorCode
get_error_code_from_error none = no_code
get_error_code_from_error (some s) = classify s
