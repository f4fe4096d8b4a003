-- ===== src/Lib.antt =====
-- storage-bot answers chat messages about Ceph and REST storage clusters. This library models
-- the parts of it that decide something, and proves what they promise.
--
-- - security/audit.go, the audit log: Security/Audit. `new_audit_log`, `record_entry`, `recent`
--   and `format_recent` are NewAuditLog, Record, Recent and FormatRecent. The mutex makes each
--   call one step.
-- - security/validator.go: Security/Patterns holds the regular expressions, Security/Validator
--   the four functions. An error is a value of `Denial`, and `none` is the nil error.
-- - executor/ssh.go and executor/kube.go: Executor has the guarded commands, and the two that
--   have no guard: the one that reads a gateway's key on the way to a node, and the script of
--   RunShellScript. What dials a host and what runs in a pod are fields of the record `Wire`,
--   over a type of worlds.
-- - skill/builtin.go and skill/skill.go: Skill/Context the nodes of a cluster, Skill/Bonds
--   parseBonds and its printers, Skill/Nic NICDown and NICUp, Skill/Table the skills that are a
--   list of ceph commands, Skill/Ceph their run, CrashInfo and restartCephDaemon, Skill/Nodes
--   the skills that read something from each node, Skill/Rgw OptimizeRGWBucketsPG.
-- - storage/yanrong.go: Storage/Path has normalizeQuotaPath, pathHasPrefix and
--   pathStrictlyUnder on the components of paths, with path.Clean and filepath.Rel of rooted
--   paths; Storage/Recycle the choice of a recycle bin, the guard of the destructive calls and
--   ResolveUserPath; Storage/Session the token and the requests with it; Storage/Pages the
--   paginated listing; Storage/Clear ClearRecycleFiles. The server, net/http, net/url,
--   encoding/json and crypto/md5 are the fields of the record `Net`, over a type of worlds:
--   what they answer is arbitrary. Paging runs on fuel, one unit for each page: one more than
--   the largest total that the server names is enough. ResolveUserPath takes prefixes that
--   start with a slash.
-- - storage/skill.go: Storage/Skill. Query is read as the call of a Yanrong backend that it
--   makes.
-- - inspect/inspector.go and inspect/report.go: Inspect/Level, and Inspect/Render the report as
--   text; inspect/bond_delta.go: Inspect/Bond; inspect/migrate.go up to MigrateReport:
--   Inspect/Migrate. A metrics map is an association list.
-- - inspect/ceph_parse.go and inspect/hardware_parse.go: Inspect/Ceph, Inspect/Hardware and,
--   for the PCIe links, Inspect/Pcie; inspect/ceph.go: Inspect/Inspectors/Daemons;
--   inspect/hardware.go and inspect/registry.go: Inspect/Inspectors. The operations on float64
--   are the fields of the record `Floats`, and the reading of quorum_status by encoding/json is
--   an argument. Inspect/Runner is runWith of inspect/runner.go: the goroutines of the nodes
--   are interleaved steps of a relation, and the semaphore a bound on those that run.
--   Inspect/Whole is its Run, which takes the goroutines' end as a function, and the tick of
--   inspect/scheduler.go. Inspect/Store is inspect/store.go with MigrateStore of
--   inspect/migrate.go, over a record of file operations. The devices that lspci is asked for
--   are sorted by their addresses, which differ, so that any sort gives the same list.
-- - intent/parser.go: Intent has the kinds of action, NeedsFallback, and the table of aliases
--   with its search; Intent/Words the tests on words and characters, Intent/Target the clusters
--   and the node of a message, Intent/Args the parameters of the skills, Intent/Parse
--   ParseWithAll, Intent/Fallback ParseWithLLM, with the provider and encoding/json as
--   arguments. sort.Slice by length is an argument. The empty and the nil map of parameters are
--   one.
-- - cluster/manager.go: Cluster has Get, ListByPrefix and FindByPrefix; the map of the clusters
--   is an association list, in the order of a range over it, and an error is a constructor of
--   `Lookup`. Cluster/Nodes has the caches; what runs between two locks is a definition of its
--   own, so that another call can come between. The Kubernetes client is the record `Kube`.
-- - bot/handler.go: Bot/State has the handler's state, its lists, the analysis and the
--   executors; Bot/Skills has handleSkill, its broadcast and the run on a cluster, for any
--   skills; Bot/Diagnose the health check, the analysis of logs and the diagnosis of a node;
--   Bot/Inspection handleInspect; Bot/Message the mentions and the cards, Bot/Help helpMessage,
--   Bot/Items listInspectItems; Bot/Dispatch HandleMessage with handleRESTStorage, from an
--   event to the card that is sent or to the reason that none is. Messages are handled one
--   after the other.
-- - Package regexp, as far as the program's patterns need it: Regex, with its meaning and the
--   proofs that the matcher decides it below. Package strings and strconv: Base/Strings,
--   Base/Space and Base/Decimal.
--
-- A text is the sequence of its bytes. Letters are folded in ASCII only: strings.ToLower and
-- (?i) of the program also fold letters of other scripts. Go's int is an integer with the
-- wrap-around of 64 bits.
--
-- Not modelled: hw_info of the skills, the listing of a recycle bin's files, the overview of a
-- storage, which print tables of decoded documents, and the reading of the configuration. Left
-- out as input and output: SSH, Kubernetes, HTTP, the chat platform and the LLM clients, the
-- cards' JSON and the web pages.
pub mod Base
pub mod Regex
pub mod Security
pub mod Executor
pub mod Skill
pub mod Inspect
pub mod Storage
pub mod Intent
pub mod Cluster
pub mod Bot
