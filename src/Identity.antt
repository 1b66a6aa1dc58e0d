-- ===== src/Identity.antt =====
-- The symmetric keys of pkg/identity/identity.go: one per peer, kept by the ECDH exchange.
pub mod Store
pub mod Loading
pub mod Laws
use mpc_go.Common.{ℕ, List, Option, Text, Bool, lookup, insert, delete, length, ℤ, pos, eqb_ℤ}

-- `fileStore.symmetricKeys`.
abbrev pub SymmetricKeys : Type 0
SymmetricKeys = List (Text × Text)

unfoldable pub set_symmetric_key : SymmetricKeys → Text → Text → SymmetricKeys
set_symmetric_key keys peer_id key = insert peer_id key keys

-- `none` is the error "SymmetricKey key not found".
unfoldable pub get_symmetric_key : SymmetricKeys → Text → Option Text
get_symmetric_key keys peer_id = lookup peer_id keys

unfoldable pub remove_symmetric_key : SymmetricKeys → Text → SymmetricKeys
remove_symmetric_key keys peer_id = delete peer_id keys

unfoldable pub get_symmetric_key_count : SymmetricKeys → ℕ
get_symmetric_key_count keys = length keys

unfoldable pub check_symmetric_key_complete : SymmetricKeys → ℤ → Bool
check_symmetric_key_complete keys desired = eqb_ℤ (pos (length keys)) desired
