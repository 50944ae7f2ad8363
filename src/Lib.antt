-- ===== src/Lib.antt =====
-- jsync: a model of the file synchronisation program in Go, with theorems about it.
--
-- Two machines pair by a signed handshake (internal/handshake), agree on keys (internal/crypto/x3dh),
-- and then either send one directory as an archive in numbered chunks (internal/pipeline) or watch a
-- directory on both sides and exchange its changes as events (internal/syncfs). Payloads are
-- encrypted by one ratchet chain for each direction (internal/crypto/ratchet). Messages travel over
-- NATS, which the model sees only as the list of what arrives and as the answers to its calls.
--
-- Files:
--   Base, Base/*: shared names, tests of numbers and texts, lists, Go maps as association lists.
--   FilePath: Go's path/filepath on POSIX (Clean, Join, Rel, Dir) as the program uses it.
--     FilePath/Shape and FilePath/Inside say what a cleaned path is and when a path is inside one,
--     FilePath/Length how long it is.
--   Crypto/Primitives: HKDF, AES-GCM, X25519 and Ed25519, as a record of functions with their laws.
--   Crypto/Ratchet: internal/crypto/ratchet/ratchet.go; Crypto/Ratchet/Laws its chains in step.
--   Crypto/X3dh: internal/crypto/x3dh/prekeys.go, store.go and x3dh.go; below it the pool of
--     one-time prekeys (Pool), its use over time (Once), and the agreement (Agreement).
--   Pipeline/Chunk: internal/pipeline/chunk.go; below it the text forms in headers (Encoding), one
--     chunk (Transfer) and the whole loop (RoundTrip).
--   Pipeline/Extract: internal/pipeline/extract.go, over the file system of Extract/Storage; below it
--     the calls of an extraction (Confined) and the commit (Commit). Pipeline/Archive: archive.go,
--     with Archive/Estimate.
--   Watch: internal/watch/watcher.go (the index and the walk); Watch/Handlers its handlers, timers
--     and loop; below it the two maps (Index, Tracked), a removed directory (Removal) and the loop of
--     underSkippedDir (Skipped).
--   Daemon/Resume: internal/daemon/resume.go, with Resume/Claims. Daemon/Receiver: receiver.go, with
--     Receiver/Outcome.
--   Auditlog: internal/auditlog/auditlog.go over Auditlog/Files, with Auditlog/Size;
--     Auditlog/Query: read.go.
--   Progress: internal/progress/line.go, with Progress/Bounds. Yamledit: internal/yamledit, with
--     Yamledit/Edits. Identity/Authorized: internal/identity/authorized_clients.go, with
--     Authorized/Persisted.
--   Syncfs/Version: internal/syncfs/version.go; below it the causal order (Order), the merge (Merge)
--     and deliveries in any order (Delivery).
--   Syncfs/Echo: internal/syncfs/echo.go, with Echo/Laws.
--   Syncfs/Disk: package os over an abstract state. Syncfs/Event: internal/syncfs/event.go, with
--     Event/Confined on its reach.
--   Syncfs/Bridge: internal/syncfs/bridge.go (publishOne is `publish_one`, applyEvent `apply_event`,
--     one message of ReceiveChanges `handle_message`); below it Inbound, Outbound and Propagation.
--   Syncfs/Reconcile: internal/syncfs/reconcile.go and awaitControl of encrypt.go, with Diff, Drain.
--   Syncfs/Session: the loops of bridge.go, the bootstrap messages of encrypt.go, and ScanManifest and
--     Reconcile as a whole; Session/Draining: the loop of drainUntilReconcileDone,
--     Session/Scanning: the inventory.
--   Handshake: internal/handshake, with Replay, Policy, Sessions, Payload and Build below it.
--   Tests: instances of the outside interfaces that meet their laws, and runs on them.
--
-- Texts are lists of bytes. A method on shared state is a function from the state to the state and
-- its result; what holds a lock is one step. Time, random bytes, the order of a Go map, and the
-- answers of the server and of the disk are arguments. Sequence numbers wrap at 32 bits and version
-- counters at 64. The publishing loop runs on fuel, one round for each byte and one more, which is
-- enough as every round but the last reads a byte at least; the loop over the directories above a
-- path has more rounds than the path has bytes, and each directory is shorter; the scaling of a
-- count of bytes has six rounds, one for each power of 1024 that an int64 holds.
--
-- Not modelled: flags and output of the commands, configuration files, the NATS client, the calls of
-- the operating system's watcher, the formats of tar, gzip, JSON and YAML, floating point, and where
-- the file system goes when a path leads through a link.
pub mod Base
pub mod Crypto
pub mod Pipeline
pub mod FilePath
pub mod Syncfs
pub mod Identity
pub mod Handshake
pub mod Daemon
pub mod Watch
pub mod Progress
pub mod Yamledit
pub mod Auditlog
pub mod Tests
