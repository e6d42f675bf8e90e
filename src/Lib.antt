-- ===== src/Lib.antt =====
-- Sovereign Config: the core of the configuration server.
--
-- The server keeps configuration values at paths. A value is plain or secret, has one stored
-- content and one or more paths; a caller reads and writes what its grants cover. A request
-- comes with a principal, is authorized on a parsed path, runs the statements of one
-- transaction, appends audit events in the same transaction, and commits. This development
-- models that core.
--
-- Parts, and the files that model them:
--   Core/Path        crates/sovereign-config-core/src/path.rs: `ConfigPath` with its parsers
--                    `parse`, `parse_operation`, `parse_selection`, the fold (`fold_key`), the subtree
--                    test and the order. Core/Path/Grammar and Core/Path/Scope hold the theorems.
--   Core/Connection  crates/sovereign-config-core/src/connection.rs: the connection URL over the crates
--                    `url` and `base64`.
--   Core/Managed     crates/sovereign-config-core/src/managed.rs: identifier, name, states and
--                    permissions of a managed connection; Core/Managed/Storage, what reads back.
--   Core/Value       crates/sovereign-config-core/src/value.rs: classified values.
--   Server/Rpc       crates/sovereign-config-server/src/rpc.rs: status, call context, timestamps.
--   Server/Auth      crates/sovereign-config-server/src/auth.rs: grants and `AuthenticatedPrincipal::allows`; theorems in
--                    Server/Auth/Grants.
--   Server/Auth/Routing  which requests that file's `AuthenticationService::call` passes on with no authentication.
--   Server/Auth/Token  the same file's checks of a bearer token, up to `authenticate`; Server/Auth/Token/Verified
--                    holds the theorem.
--   Server/Encryption  crates/sovereign-config-server/src/encryption.rs: the envelope of a secret.
--   Server/Audit     crates/sovereign-config-server/src/audit/mod.rs, narrative.rs and store.rs: events, wording and rows.
--   Server/Values    crates/sovereign-config-server/src/values: Paths, Content, Authz and Subtree are the files of those names;
--                    Store is store.rs, one function per statement; Service is service.rs, one file
--                    per operation (Put, Delete, Alias, Replace, Reads), with Common, Itemize and Writes
--                    for what they share. Exec is the database that both run on, and its child
--                    modules are the rules that proofs about blocks of statements use.
--   Server/Values/Service/Atomicity, Leaves, Removed, Sealed, Visible, Audited, Itemized and LockOrder,
--                    Server/Audit/Coalescing and Quoting, Server/Auth/Validation and
--                    Server/Values/Paths/Collision hold the other theorems; modules named Tests and their children hold runs at concrete values.
--   Server/Managed   crates/sovereign-config-server/src/managed: Identity, Store, Wire, Provisioning and Service are the files
--                    of those names. Provider is crates/sovereign-config-identity/src/lib.rs, and Provider/Contract what
--                    that file promises of a provider: `Contract`, and `Creation` for accounts that land late. Exec is what the operations run on; its child
--                    modules are Hoare triples and the rules for a phase of an operation. Lifecycle is
--                    the step relation on a connection's state. Store/Rows, Store/Tracking,
--                    Store/Holding, Store/Lifecycle, Provisioning/Orphans,
--                    Provisioning/Completion, Service/Lifecycle and Service/Marking are lemmas; Service/Transitions, Escalation, Orphans, Revocation
--                    and Settlement and Identity/Usernames hold the theorems.
--   Prelude          shared tests, results, lists and texts with their lemmas.
--
-- The model. Texts are lists of code points, numbers are natural numbers, a time is nanoseconds
-- since the epoch. `Exec` passes the world along: the committed tables, the working copy of the
-- open transaction, the advisory locks that it took, a schedule that says of each statement to
-- come whether it fails, and what the random source will give. `?` and early returns are errors
-- of `Exec`; an error drops the working copy. A statement is a function of the tables that a
-- constraint of the schema can refuse; the sequence of content ids stands outside them. A commit
-- that fails is not applied: the loss of a commit's acknowledgement is not modelled.
-- The time of a request is an argument of its operation.
-- Concurrent transactions are not interleaved: the locks are recorded as a trace, and the
-- statements of one operation are a block.
--
-- Managed connections keep an account at the identity provider beside their row, and call the
-- provider between their transactions. Their `Exec` passes the tables, the provider's state, a
-- clock, the schedule of faults, and what other operations do before each access of the database
-- and in each wait.
--
-- Fuel and bounds: the reconciliation of a creation has the code's three probes; the draws of an
-- identifier recur on what the random source will give. `ancestors_of` takes the length of the
-- path as fuel, which is enough since each ancestor is shorter; the cap of 1000 itemized events
-- is the code's; `to_timestamp` keeps the test of an `i32`.
--
-- Parameters: the AEAD, base64, UTF-8 and SHA-256 come from third-party crates and are arguments
-- (`Primitives`, `Hash`), as are JSON and floating-point times (`Json`, `Decoder`); `AreCorrect`
-- states what the first three promise. The crates `url` and `base64` are `UrlCrates`; an
-- identity provider is a `ManagedIdentityProvider` over a state of its own, and `Contract`
-- and `Creation` state what its trait documents; a creation may land at any time after its call. PostgreSQL is modelled by what the statements and the
-- migrations say of the tables.
--
-- Not modelled: `list_values`, the cache of key sets, the repair of
-- connections' names, audit queries, the encryption pass at start, and the clients. Metrics,
-- tracing and the transport are left out, since no answer depends on them.
pub mod Prelude
pub mod Core
pub mod Server
