-- ===== src/Lib.antt =====
-- ModelCairn: a gateway that routes chat completion requests to the destinations of a strategy and relays
-- their streams, with its administrative settings, its declarative configuration and its login protection.
--
-- Parts, and the files that model them (paths from the repository's root):
-- Router and its children model internal/router. Router.antt has the data of engine.go and snapshot.go;
-- Router/Classify.antt is `classifyAttempt`, Router/Engine.antt `Engine.Run` (`run`: `run_executor` and
-- `run_eligible` are its guards, `run_loop` the loop, `run_turn`, `run_head` and `run_answer` one turn);
-- Router/Load.antt is `loadDestination`, Router/LoadRoute.antt `Load`, on the rows of their queries;
-- Router/StreamData.antt and Router/Stream.antt are stream_engine.go (`RunStream` is `run_stream`).
-- Streaming and its children model internal/streaming. Of chat.go, Streaming/Lines.antt is what
-- `bufio.Reader.ReadLine` returns for a stream of bytes, Streaming/Sse.antt `readSSEData`,
-- Streaming/Normalize.antt `normalizeChunk`, and Streaming/Relay.antt `RelayChatCompletions`, which the
-- stream engine calls for each stream that it opens. Streaming/Raw.antt is `RelaySSE` of relay.go.
-- Chat models internal/chatcompletions/request.go: Shape is `validateJSONShape` on the tokens of encoding/json,
-- Messages `validateMessage` with the checks of contents and tools, Validate `validateRequest` and `Parse`.
-- Router/Capable.antt is about their composition in internal/httpserver/data.go: a request is parsed, a snapshot
-- is loaded for its alias and its capabilities, and the engine runs on it.
-- Fault has the errors that the code tells apart, and Json the JSON values that chunks and requests hold.
-- AdminSettings models internal/adminsettings. Origins and Validate are validate.go, Resolve is resolve.go.
-- Config models internal/config. Patterns, Specs, References and Validate are validate.go,
-- Mutation is resource_mutation.go up to the document that a change prepares.
-- Files under Plan model internal/storage/plan_token.go and plan_transaction.go. Binding is `canonicalBinding`,
-- on the order of Plan/Order.antt; Token has `issue` and `authenticate`, Verify the comparison with the present binding,
-- Create `CreatePlanToken` and `CreateSettingsPlan`, Execute `executePlanForPurpose`. Base64 is what they use of
-- encoding/base64.
-- LoginAdmission has the buckets and delays of internal/storage/admin_login.go, with the limits that the
-- settings give. LoginStats models internal/storage/failed_login_statistics.go, which counts the failures.
-- Redact models the `Redactor` of internal/redact/redact.go: `step` is a call of `Register` or of a function that it
-- returned, `values` what `Bytes` replaces.
-- Backup models `buildMetadata` and `validateSizes` of internal/backupmcb1/mcb1.go, on what encoding/json writes.
-- Base has tests, lists, integers and failures that they share. Tests has runs at concrete inputs.
--
-- State and effects. A context is an observation: `Round` and `Tick` say, for each turn, whether the
-- request's context or the total one has ended, and what the clock shows; they are arbitrary functions of the turn.
-- An executor is a function of the attempt's index, destination and request, so it may answer each time
-- differently. The client of a stream is a record with what it was sent; `accept` says what its n-th write
-- takes. The login statistics run as events in any order: a login fails, the ticker fires, the service
-- closes, a call of the database under way commits or fails. Each event is one critical section of the code.
--
-- An execution of a plan is one step of a store, since it holds the store's lock; a `Db` says which errors its
-- transaction meets, and whether a commit that reported an error took place. Plan/SingleUse.antt follows a store
-- over time, in which rows of consumed nonces may be pruned once their tokens have expired, as
-- docs/contratos/storage/modelo-sqlite-v1.md allows. A restored generation, whose consumed rows
-- internal/storage/generation_restore.go deletes, is another store.
--
-- Parameters. `Codec`, and `Reader` and `Decoders` of Chat, stand for encoding/json on bytes,
-- with the check of duplicate keys that internal/chatcompletions makes first; `FloatOps` for the finite values of
-- float64 in the token buckets, of whose order and subtraction `IsOrdered` says what a bound on admissions assumes;
-- `Std` of AdminSettings and of Config for the functions that these packages call of net/url, net/netip,
-- strconv, time and unicode/utf8. No property assumes anything of these other functions. `Crypto` stands for
-- crypto/hkdf, crypto/hmac, crypto/sha256 and encoding/json; the properties that say that a plan is accepted assume that a code
-- has 32 bytes and that JSON reads back what it wrote.
--
-- Fuel. `run_loop` and `stream_loop` recurse on the list of destinations that they try. `relay_loop` and
-- `read_loop` consume fragments of the stream; the fuel of `relay_loop` is one more than the fragments, and
-- every turn takes at least one, or ends. `attempt` has the eight attempts of the source. `walk_json` has two
-- units for each token, and a token is read in at most two calls.
--
-- Numbers. Times are nanoseconds, or seconds in the statistics, on the native ℕ, with 0 for the zero time; a duration
-- that may be negative is a ℤ. The counts of the statistics saturate at the largest int64.
--
-- Not modelled: nil receivers of the redactor, the storage of resources, secrets, the archives of backups, sessions and migrations (SQL, files and
-- cryptography), the HTTP handlers and the console, the command line, the adapters to the providers, the log
-- handler of internal/redact, YAML and JSON parsing, and the export of the configuration.
pub mod Base
pub mod Fault
pub mod Json
pub mod Chat
pub mod Streaming
pub mod Plan
pub mod Router
pub mod LoginStats
pub mod LoginAdmission
pub mod AdminSettings
pub mod Config
pub mod Redact
mod Tests
pub mod Backup
