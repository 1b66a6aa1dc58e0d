-- ===== src/Lib.antt =====
-- A model of mpcium, a node of a cluster that makes and uses threshold keys, and what is proved of it.
--
-- How the parts work together: a node (pkg/mpc/node.go) opens sessions of the threshold protocol for
-- requests that reach it over NATS. A client (pkg/client/client.go) signs a request and publishes it. It
-- comes off JetStream through the consumer of its kind (pkg/eventconsumer/signing.go, keygen.go,
-- resharing.go), which asks the event consumer (pkg/eventconsumer/event.go) and polls for the reply; a
-- request that was delivered too often is answered by the timeout consumer (pkg/eventconsumer/timeout.go).
-- The event consumer checks the request's signature with the identity store (pkg/identity/identity.go),
-- has the node open the sessions, remembers those that sign in the session manager
-- (pkg/session/manager.go) and answers failures with an error code (pkg/types/codes.go). The node takes
-- the peers that are up from the peer registry (pkg/mpc/registry.go), which follows the keys
-- `ready/<node>` in Consul, and the participants of a wallet from the key info store
-- (pkg/keyinfo/keyinfo.go). Each pair of peers agrees on a symmetric key
-- (pkg/mpc/key_exchange_session.go), which the identity store keeps. Peers become parties
-- (pkg/mpc/core/party_id.go), whose messages travel on the topics of their session
-- (pkg/mpc/core/session.go, pkg/mpc/ecdsa, pkg/mpc/eddsa) over the messaging of pkg/messaging, encrypted
-- for one peer or signed for all by the identity store. A session that ends saves its share and its key
-- info, which the next session loads. The key-value store of the shares is backed up
-- (pkg/kvstore/badger_backup.go).
--
-- Files:
--   Common     lists, texts as lists of bytes, maps, digits, integers
--   Party      pkg/mpc/core/party_id.go; Party.Laws proves what a party ID tells of its node
--   Topic      the composers of topics and storage keys, and extractSenderIDFromDirectTopic
--   Identity   pkg/identity/identity.go: the symmetric keys; Identity.Store signs, checks, encrypts;
--              Identity.Loading builds the store from the files of keys (NewFileStore), with
--              pkg/encryption/ed25519.go
--   Registry   pkg/mpc/registry.go: a method is a function from the record to the new record and the
--              callbacks and exchanges that it sets off; Maps and Count carry the loops, Ready and
--              Health the statements
--   KeyInfo    pkg/keyinfo/keyinfo.go
--   Node       pkg/mpc/node.go: CreateKeyGenSession and CreateSigningSession; Node.Resharing has
--              CreateResharingSession and the key info that Reshare saves, Node.Initialise has Init of
--              a signing session, Node.Saving what GenerateKey, Reshare and Sign of pkg/mpc/ecdsa and
--              pkg/mpc/eddsa do with the data that their party ends with
--   Session    pkg/session/manager.go: the sessions that were begun, with a step relation;
--              Meanwhile says what keeps a session known while other steps happen
--   ErrorCode  pkg/types/codes.go: the code that an error's text is given
--   Encryption pkg/encryption/aes.go with the nonce embedded, and VerifyP256Signature; Encryption.Keys
--              has the keys of pkg/encryption/p256.go, and hex
--   Messages   pkg/types: requests, responses and what the parties send, and the bytes that are signed
--   Messaging  pkg/messaging: Direct has p2p.go and the subscriptions of pubsub.go, Queue has
--              message_queue.go, Broker has jetstream_broker.go; Names is about consumer names
--   EventConsumer  pkg/eventconsumer/event.go: what the handlers share, and the handler of a
--              signing request; Signing says when a session begins, Running follows its goroutines,
--              Keys is about idempotent keys
--   EventConsumer.Keygen, EventConsumer.Resharing  the handlers of the other two requests; in each,
--              Requests says what becomes of a request, Running orders the goroutines in a relation
--              and Laws proves how they answer; Keygen.Ending when the handler returns,
--              Keygen.Keys is about the keys of a success, Resharing.Committees about the two committees
--   EventConsumer.Workers  the workers, which start a handler for each message of a channel as long as
--              their semaphore has slots, and what Close does to them
--   RequestConsumer  the polling loop and the wait that the three consumers share; Settled is the
--              contract of a delivery
--   SigningConsumer, KeygenConsumer, ResharingConsumer  pkg/eventconsumer/signing.go, keygen.go and
--              resharing.go; the deadline of the polling loop is the end of the list of its rounds
--   TimeoutConsumer  pkg/eventconsumer/timeout.go
--   KeyExchange  pkg/mpc/key_exchange_session.go; Agreement follows the messages of two nodes
--   PartySession  pkg/mpc/core/session.go: HandleTssMessage and the receive paths; Delivery follows a
--              message from one session to the other, Trust says what is taken unchecked, Shares is about
--              the stored versions of a share
--   Rounds     pkg/mpc/ecdsa/rounds.go and pkg/mpc/eddsa/rounds.go
--   Client     pkg/client/client.go; Verified follows a request to the event consumer; Client.Signer has
--              pkg/client/signer/local.go, with what a node makes of such a signer's public key
--   Configuration  pkg/config/config.go and peers.go, and the limits of NewEventConsumer
--   Secrets    Memory has pkg/security/memory.go on a memory of cells, Passphrase the checks of
--              cmd/cli/utils/password.go
--   Backup     pkg/kvstore/badger_backup.go: Laws reads a file back, Runs is about one run of Execute,
--              Truncated about a run whose writes fail
--   Tests      runs on concrete inputs, and the theorems at such inputs
--
-- Conventions: an `int` that may be negative is a ℤ, and where a request's threshold is added to, `add_int`
-- wraps around at 64 bits as Go does; a stored threshold was compared with a number of peers, so its sum is
-- taken as it is. An int64 counter is its bit pattern. The handler of a signing request takes the session
-- manager twice, as HasSession reads it and as AddSession changes it, since handlers run concurrently and
-- others may act between the two calls; a version is a
-- ℕ, since versions start at 0 or 1 and only grow. `digits` recurs on fuel: a number is at most as long
-- as it is large, which value-digits and digits-value state. Texts are ASCII where the code trims or scans
-- them. Maps are association lists; Go's order of iteration is arbitrary, here it is the list's.
--
-- Not modelled: the cryptography of tss-lib, which sees only party lists and messages; Consul, NATS,
-- Badger, viper, age, ciphers, signatures, the elliptic curves of the key exchange, HKDF, JSON and base64,
-- which enter as arguments with their documented laws as hypotheses; locks, since a method that holds one
-- runs by itself; goroutines, except where a step relation orders them (Session.Step,
-- EventConsumer.Running, EventConsumer.Keygen.Running, EventConsumer.Resharing.Running,
-- EventConsumer.Workers); the retries of retry-go around a request to another node; the start of a node and the command line (cmd), which read flags, files and
-- a terminal; file paths; logging. `tss.SortPartyIDs`, `uuid.NewString` and `lo.Intersect` are arguments.
pub mod Common
pub mod Party
pub mod Session
pub mod Topic
pub mod Encryption
pub mod ErrorCode
pub mod Messages
pub mod Identity
pub mod Registry
pub mod KeyInfo
pub mod PartySession
pub mod Node
pub mod EventConsumer
pub mod Messaging
pub mod TimeoutConsumer
pub mod Client
pub mod Secrets
pub mod Configuration
pub mod Rounds
pub mod KeyExchange
pub mod RequestConsumer
pub mod SigningConsumer
pub mod KeygenConsumer
pub mod ResharingConsumer
pub mod Backup
mod Tests
