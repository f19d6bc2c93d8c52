-- ===== src/Lib.antt =====
-- The load balancer between OpenAI-style clients and NVIDIA's hosted models: what its Rust crates keep and
-- decide, as functions by clauses, with the theorems that make them correct.
--
-- crates/core/src/lib.rs holds the encrypted vault of upstream keys and downstream bearers and the
-- round-robin selector. A request to the gateway (crates/gateway/src) is authenticated against a bearer of
-- the vault, its body is checked against the endpoint and the model, the selector picks an upstream key
-- from the vault's own list, the credential of that key is decrypted for the one request, the provider's
-- event stream is validated frame by frame, and the outcome is recorded on the key as a success or as a
-- failure with a cooldown.
--
-- The vault. Vault/State.antt has the rows, the summaries, the vault and the errors. Vault/Shapes.antt has
-- `valid_upstream_credential` and the label checks, Vault/Scopes.antt has `canonical_scopes`.
-- Vault/Custody.antt has the crates that the vault calls (as the record `Primitives`, with what they
-- document in `IsLawful`), the surroundings of one call (`Env`: clock, random bytes, failing steps), the
-- world of a call (the vault in memory and the file at its path) and `persist`. Vault/Keys.antt,
-- Vault/Downstream.antt and Vault/Opening.antt have one function for each method of `Vault`, each from a
-- world to a world and a result, with its guards in the order of the source. Vault/Calls.antt collects
-- the methods that change state into one step. Router.antt has `Router::select`.
--
-- The gateway. Readiness.antt has `Readiness` of health.rs, `eligible_key_count` and the branch without a
-- database of `select_failover_key` of main.rs, and `retry_after_for_keys` of proxy.rs. Json.antt is
-- `serde_json::Value` as the gateway reads it. Requests.antt has `validate_chat_request` of proxy.rs and
-- Requests/Bodies.antt `validate_modality_fields` and the JSON branch of `parse_multimodal_request`.
-- Responses.antt has `validate_chat_response` of provider.rs.
-- Media.antt has the byte checks of images, video and audio of streaming.rs, and Sse.antt its
-- `SseValidator`. The JSON parser and the base64 codec are parameters.
--
-- The database. With PostgreSQL behind it the gateway keeps the vault in memory, its encrypted file and the
-- tables of the database in step. Database/Tables.antt has the rows that main.rs reads and writes,
-- Database/Transactions.antt a transaction as statements that run in order against the tables, each of
-- which may fail, with the COMMIT that ends them. Database/Keys.antt, Database/Bearers.antt and
-- Database/Delta.antt are `sync_database_delta`, one function for each statement with its guard;
-- Database/Permits.antt is `acquire_downstream_permit` and `release_downstream_permit`.
-- Store.antt is the `VaultStore` that joins the vault and the database: `mutate`, `mutate_with_audit` and
-- `set_cursor` with their rollback; Store/Access.antt has `authorize_downstream`,
-- `record_accepted_downstream_use` and `credential_for_probe`. Selection.antt is `select_initial_key` in
-- both its branches. Ledger.antt and Ledger/Operations.antt are the statements that record requests and
-- attempts, Evidence.antt the `RequestEvidence` of evidence.rs that owns a request's row and permit, as
-- steps of a handler that go on or return a response, Evidence/Admission.antt its
-- `admit_and_start_selected`, and Failover.antt with Failover/Attempts.antt the
-- loop over keys of the handler `multimodal` of proxy.rs, with what it reads of the provider's answers.
-- Hosts.antt has the Host and Origin checks of the owner surface, Pages.antt `list_window` and `paginate` of
-- crates/gateway/src/operations/admin.rs. The server is the
-- record `Engine`: the time of the transaction, the rounding of a time to a column's precision, the
-- identifier of the next event, and which statement or COMMIT the server refuses.
--
-- The child modules of these files have the proofs, Tests.antt runs and concrete instances.
--
-- Numbers are natural numbers; counters saturate at 2 ^ 64 - 1 and the selector's index sum wraps at
-- 2 ^ 64, as the source has it. A time is a count of nanoseconds. Loops recurse on the list they walk; the
-- selector's loop recurses on the number of rounds left, which starts at the number of keys. The walk over
-- a JPEG has one unit of fuel for each byte, and the loop over the frames of a stream one more than the
-- bytes that are buffered: each round consumes a byte at least.
--
-- The surroundings of a handler (database, clock, provider) answer by the number of the call. The loop over
-- keys recurses on the attempts that are left, which start at the number of keys, or at one.
--
-- Not modelled: the HTTP handlers but for that loop, the mock provider, `poll_nvcf` and
-- `normalize_modality_response` (what they answer is an input of the loop), the multipart branch of
-- `parse_multimodal_request`, roll-up and retention, the SQL of the operations modules, `VaultStore::open`
-- with `sync_database_rows`, a handler that is cancelled, process start-up, the command line tools and the web apps. Two transactions on the same rows are not
-- interleaved: the statements of one run against the tables as they stand. A time that leaves the range of
-- its type, which would panic, is not represented, nor is a path without a parent directory, nor a mutex
-- that is poisoned.
pub mod Database
pub mod Evidence
pub mod Failover
pub mod Hosts
pub mod Json
pub mod Ledger
pub mod Media
pub mod Pages
pub mod Prelude
pub mod Readiness
pub mod Requests
pub mod Responses
pub mod Router
pub mod Selection
pub mod Sse
pub mod Store
pub mod Tests
pub mod Vault
