-- ===== src/Rounds.antt =====
-- The rounds of the protocols (pkg/mpc/ecdsa/rounds.go and pkg/mpc/eddsa/rounds.go).
pub mod Ecdsa
pub mod Eddsa
pub mod Laws

-- The packages of the library that a message comes from.
pub data Protocol : Type 0 where
  keygen signing resharing : Protocol
