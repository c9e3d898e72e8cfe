-- ===== src/Lib.antt =====
-- brdns is a DNS proxy: it takes queries over DoT and DoH, tells the account of a client by the host
-- that the client dials, decides each query by the rules of the account, and forwards it to an
-- upstream or answers it itself.
--
-- The parts, and the files that model them:
-- - Buffer: lib/buffer.rs. `BytePacketBuffer` is a record of the bytes and the position; a method is
--   a function from the buffer to a result and the buffer behind it. `read_qname` is `Buffer.Qname`.
-- - Protocol: lib/protocol. `Header`, `Question`, `Record` and `Packet` have a file each; `read`,
--   `write` and `from_buffer` are `read_header`, `write_header` and so on.
-- - Blocking: lib/blocking.rs, with the block policy of lib/config.rs. `synthesize` parses the query,
--   `respond` turns it into its answer, and `send` writes that.
-- - Identity: lib/identity.rs, `account_from_sni`.
-- - RuleEngine: lib/ruleengine.rs, `matches_target` and `evaluate`.
-- - Categories: lib/categories.rs, the index that category rules ask.
-- - Model: lib/model, with account numbers in `Input` and the texts of the enums in `Enums`.
-- - Quota: lib/quota.rs, the start of a window. The date library chrono is an interface.
-- - ControlPlane: lib/controlplane/mod.rs, the operations that serve queries as an interface; `InMem`
--   is lib/controlplane/storage/inmem.rs, and `Service` is that storage behind the interface.
-- - Http: lib/controlplane/http, the handlers of the management API over the storage in memory.
-- - Policy: lib/policy.rs, the cache of the rules that queries read.
-- - Upstream: lib/upstream.rs, the pool of transports. An `Arc` is told from others by a serial.
-- - Pipeline: lib/pipeline.rs, which puts the parts together for one query: the name is parsed, the
--   cached rules decide, the control plane counts, and the message is answered or sent. `Budget` is a
--   sequence of queries, each at its own time of the clock.
-- - Receiver: lib/receiver/dot.rs, the loop over the queries of one connection.
-- - Blocklist: lib/blocklist.rs, the parsing of feeds and their merge into the category index; the
--   white space of Unicode is an interface.
-- - ControlPlane.Postgres: lib/controlplane/storage/postgres.rs, each operation as the sequence of its
--   statements; `ControlPlane.Sql` is the database of migrations/0001_init.sql, the statements on each
--   table with its constraints, the faults that a statement can meet, and transactions.
-- - Receiver.Doh: lib/receiver/doh.rs, the query in a GET or a POST request and the status of the
--   reply; base64 is an interface.
-- - Http.Auth: lib/controlplane/http/auth.rs and router.rs, the token in front of the handlers.
-- - Config: lib/config.rs, the settings and their defaults.
-- - System: bin/s.rs, the start of the server and its poll loop, with lib/context.rs: what polls,
--   requests and queries share, a pool for each of the two receivers, and the events that change it,
--   in any order.
-- - Prelude: shared types and lemmas. Texts are lists of UTF-8 bytes; a hash map is a list of entries.
-- - Tests: the theorems at concrete inputs, and runs.
--
-- Code outside the repository is a parameter: `Unicode` is the lossy decoding and lowering of names by
-- the standard library, which on ASCII is the lowering of letters; `Chrono` is the date library; the
-- network is a function from a transport and a message to what comes back; random bytes are a list.
--
-- Numbers: identifiers are the 64-bit patterns of an `i64`; a budget is an integer; `as u8`, `as u16`
-- and shifts are written with their wrap-around. Positions in a buffer do not wrap.
--
-- Bounds: the loop of `read_qname` has 7 * (length of the buffer + 2) rounds, as each of the at most
-- six stretches between pointers moves through the buffer; the loop over the texts of a TXT record has
-- as many rounds as its length has bytes; the loop of a connection has the rounds that it is given.
--
-- A failed method drops the buffer, as each caller does. Locks make each operation of the control
-- plane one step; `replace_rules`, which takes its lock twice, is one step too.
--
-- Where SQL leaves an order open, rows come in the order of their insertion. Identifiers come from the
-- sequences only, so the primary keys are not checked.
--
-- The database answers one operation behind the other. Each statement meets a fault of a list: it is
-- answered, it never runs, or it runs and its answer is lost. Events of the server come in any order.
--
-- Not modelled: the opening of the database and its migrations, lib/transport and the start of the
-- servers in lib/receiver (network), lib/certs.rs (openssl), lib/observability but for the outcomes
-- (counters and spans), the reading of the settings, and the command lines bin/admin.rs and bin/g.rs.
-- The fetching of feeds and the reading of HTTP are calls of reqwest and pingora.
pub mod Blocking
pub mod Blocklist
pub mod Buffer
pub mod Categories
pub mod Config
pub mod ControlPlane
pub mod Http
pub mod Identity
pub mod Model
pub mod Pipeline
pub mod Policy
pub mod Prelude
pub mod Protocol
pub mod Quota
pub mod Receiver
pub mod RuleEngine
pub mod System
pub mod Tests
pub mod Upstream
