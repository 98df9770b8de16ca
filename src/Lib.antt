-- ===== src/Lib.antt =====
-- Next Now X keeps projects, features and tasks, with the dependencies between tasks and the pull
-- requests that implement them, in a local database, and shows which task can be started next. This
-- library models the logic that decides what is shown and what may be written.
--
-- The parts of the program and the modules that model them:
--
-- * internal/domain/models.go, errors.go -> Domain/Models. Types with named constants are data types
--   (`other` is a text that a request can carry beyond them), structs are records, a pointer that may
--   be nil is an `Option`, a time a number, and a map the list of its entries.
-- * internal/domain/status.go -> Domain/Status: the states derived from a task and its pull request.
-- * internal/domain/graph.go -> Domain/Graph: `CyclePath` is `cycle_path` in Domain/Graph/Cycle, a
--   search over the state `Search` (parents, visited vertices, stack); `TopologicalOrder` is
--   `topological_order` in Domain/Graph/Order, a loop over the queue, the order and the counts of
--   blockers that are not placed; `Derive` is `derive` in Domain/Graph/Derive, one `derive_task` for
--   each task over the maps of `Index`.
-- * internal/domain/task_labels.go and internal/app/task_labels.go -> Domain/Labels, App/Overrides:
--   keys, normal forms, and the scopes that decide how a label looks.
-- * internal/domain/update.go -> Domain/Update: which releases are announced.
-- * internal/prompt -> Prompt: the validation of templates, where the pattern of placeholders is the
--   automaton `scan`; the built-in texts of both languages (Prompt/Defaults), `Normalize` and
--   `Resolve` (Prompt/Templates), `Render` and `RenderBatch` as a scan that writes (Prompt/Render),
--   and the choice of the language (Prompt/Language).
-- * internal/config/config.go -> Config: the settings as records, with the port (Config/Port), the
--   hosts and their URLs (Config/Hosts), the methods of authentication (Config/Methods), `Normalize`
--   (Config/Normalize), the methods that change the settings and return them with their error
--   (Config/Changes), what may be shown (Config/Public) and what is written as YAML (Config/Yaml).
-- * internal/revision/revision.go -> Revision: `Broadcaster` with its channels in a store that the
--   map and the subscribers share, and `Watcher`, the loop of `Run` as one function of a tick.
-- * internal/app/archive.go, project.go, service.go -> App: the operations over the record
--   `Repository`. The tests of an operation only read; `checked` runs them before its write.
-- * internal/app/github_sync.go -> App/Sync: the failure values and the maps of results; how the
--   candidates of a host are tried for one repository (App/Sync/Candidates for an attempt,
--   App/Sync/Repositories for the loop), over a record `GitHub` of what the providers, the resolver
--   and the cache do; all repositories of a host at once (App/Sync/Hosts); and what is stored
--   (App/Sync/Persist).
-- * internal/store/repository.go and queries.sql, the row of the runs -> App/Sync/Runs: each update of
--   it is one event, in the order in which the database takes them.
-- * internal/github/graphql.go -> App/Sync/Batches: `FetchBatch`, over a record `Requests` of how one
--   chunk and one pull request are asked for; it fills the operation of `GitHub` of that name.
-- * internal/store/repository.go -> Store: `AddDependency` and `RemoveDependency`, over
--   lists of rows as tables, and the test that `Validate` makes of a snapshot (Store/Validity).
--
-- The application asks the repository for entities, the guards of App/Archive and the snapshot of
-- App/Snapshots combine the flags of features and projects, the snapshot calls `derive` and counts
-- what it gives, the settings hold the templates that `render` fills in and the labels of the widest
-- scope, the store calls `cycle_path` before it adds a dependency and
-- `topological_order` when it is validated, and the watcher tells
-- subscribers that a new snapshot can be read.
--
-- State and failure: an operation takes the stored state and gives a new one with a result, where an
-- error is a value. In Revision, `none` is a panic (a send to a closed channel, or closing one
-- twice); in Config, the failure `panic` is a nil pointer that is read through. The mutex of the
-- broadcaster makes each method one step, so that every interleaving of goroutines is a sequence of
-- calls.
--
-- Bounds and fuel: `search` runs on two rounds more than there are dependencies, since a vertex is
-- pushed once and only as the target of a dependency, and `walk_back` on one more than there are
-- parents; running out is the result `out_of_fuel`. The revision is a `uint64` and
-- wraps at 2 ^ 64. `kahn` has a round for each task, which
-- leaves the queue once. `fetch_chunks` has a round for each pull request, and takes twenty in each.
--
-- Strings holds what the code uses of `strings` and `unicode/utf8`, on texts as lists of bytes;
-- `ToLower` is exact as far as its results are compared with ASCII texts. Parameters: what the
-- repository stores and answers, `golang.org/x/mod/semver`, `net/url`, the environment, and the content
-- of files. `Atoi` and `Itoa` are Strings/Decimal, where fuel above the number is enough for its digits.
--
-- Not modelled: messages of errors, the other operations and the migrations of internal/store, HTTP
-- and GraphQL of internal/github, the loops of the synchronisation over hosts, `Sync` and
-- `SyncIfDue`, the files and locks of internal/config/store.go and the JSON forms of the settings, the
-- diagnosis of internal/domain/debug.go, the command line, the RPC layer, launchd, and the web
-- client. Of the modelled files: `AttachPullRequest`, `GetNode` and
-- `syncSelected`.
mod Prelude
pub mod Strings
pub mod Domain
pub mod Revision
pub mod Prompt
pub mod Config
pub mod App
pub mod Store
