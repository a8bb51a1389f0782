-- ===== src/Lib.antt =====
-- GatekeeperOS mediates what an agent may do with outside resources. The kernel
-- (packages/gkos-kernel) keeps grants, queued actions and observers in one database; a gatekeeper
-- session reaches it only through a queue, which lets observations through or records actions; and
-- a coordinator carries out what operators decide about the recorded actions.
--
-- - Shared: the records of packages/gkos-shared/src/grant.ts and gatekeeper.ts.
-- - Kernel.Store: packages/gkos-kernel/src/store.ts. A table is a list of rows in the order of
--   insertion (State); Grants, Actions, Requests and Audience have one function per method, with
--   the names of the source; Commands has the methods that change a table as one type. WellFormed,
--   Authority, Claims, Lockdown and SingleUse hold the laws.
-- - Kernel.Audit: write of packages/gkos-kernel/src/audit.ts.
-- - Kernel.Queue: forGrant of packages/gkos-kernel/src/approvals.ts, and instanceId of
--   registry.ts; its state is the store and the log.
-- - Kernel.Coordinator: packages/gkos-kernel/src/actions.ts. A World is the store, the log and the
--   calls made on gatekeepers so far; a Turn says what other tasks change while perform waits, and
--   how the awaited calls end. Laws and Once are about one decision, Overlap about two at a time,
--   and Draining about the automatic ones.
-- - Kernel.Commands: packages/gkos-kernel/src/commands.ts, the commands of operators in a chat;
--   Bounds has the laws of their ids.
-- - Cli.Update: packages/gkos-cli/src/util/update-transaction.ts. The saves of the journal and the
--   effects of the host are events; the host decides which succeed. Steps has the loop, Laws the
--   outcome.
-- - Kit.OauthNonce: packages/gatekeeper-kit/src/oauth-nonce.ts; Replay and Provenance have its
--   laws over sequences of calls.
-- - Kit.Driver: packages/gatekeeper-kit/src/kit-gatekeeper.ts, the journal of a driver and the
--   lifecycle of its actions; Calm has what its steps leave alone, Once and Order its laws.
-- - Cli.Json: the parsed JSON of packages/gkos-cli/src/util/json5.ts.
-- - Cli.Json5: the parser of that file. Scan has its tokens, Grammar its values and the places of
--   its errors; Total and Fuel are about what the parser leaves and its fuel.
-- - Cli.Merge: packages/gkos-cli/src/util/merge.ts on parsed JSON. The parent merges, Diff
--   compares two configurations and reads paths, and Canonical prints with sorted keys; Laws is
--   about merging, and Alike about the order of keys.
-- - Cli.Script: the steps of a command, each of which returns or throws; Keeps follows a predicate
--   through them.
-- - Cli.Policy: packages/gkos-cli/src/util/policy.ts. Catalog and Entries are
--   gatekeeper-policy.ts, the tools that a policy admits of the gatekeepers in the catalog.
-- - Cli.Apply: packages/gkos-cli/src/commands/config-apply.ts, with what it uses of
--   util/openclaw.ts, runtime.ts and lockfile.ts. Machine has the calls, Fragments and Owned what
--   is desired and what the system owns, Commit the transaction, and Found and Reconcile the run;
--   Sound says which calls have to come first, and Calm, Surveying, Guarded, Surveyed, Settled,
--   Committed and Recorded follow it through the run.
-- - Cli.Upgrade: packages/gkos-cli/src/commands/update.ts, with readUpdate and exactVersion of
--   util/update-transaction.ts. Versions and Options are its texts, Machine its calls,
--   Compatibility, Command and Effects the way to an update and the work of its steps, Runtime,
--   Restore and Rollback the checks of the running cell and the way back; Outcome has how a
--   rollback ends.
-- - Kit.Sequencer: packages/gatekeeper-kit/src/action-sequencer.ts, the ids of actions over
--   restarts.
-- - Kit.TokenStore: packages/gatekeeper-kit/src/token-store.ts, the accounts and the refreshes in
--   flight.
-- - Fs.Paths: relativePath of packages/gkos-gatekeeper-fs/src/io.ts, the path checks of paths.ts,
--   and the walk of an anchor.
-- - Fs.Files, Fs.Journal: the files, expectations, records, preimages and receipts of
--   packages/gkos-gatekeeper-fs/src/apply.ts.
-- - Fs.Transaction: run of apply.ts. Machine has the calls of the platform, each of which can fail
--   or be the last before the process dies, and what other writers do at the boundaries; Run has
--   the stages in the order of the source; Ends, Keeps and Guards follow a predicate through the
--   steps; Consistent, Stages and Settled are about the journal, NoLostEdit and Losses about the
--   files that go.
-- - Fs.Directory: packages/gkos-gatekeeper-fs/src/directory.ts. The parent has queuing, reading
--   and listing; Decide has the checks before a write is applied or reverted; Reads, Listing and
--   Chained have the laws.
-- - Tests: the operations on small inputs.
--
-- A change of the database is one step, as SQLite runs one statement or transaction. Row ids given
-- by AUTOINCREMENT, the schema checks of typebox, JSON.stringify, JSON.parse and Number, the
-- parser of URLs and the digest of a file are parameters. The calls of the command line interface
-- on files and other programs are answered by a host that knows the calls so far. The wait for a
-- cell to drain polls at most 121 times, since each of its waits takes half a second at least and
-- it gives up after a minute. The loops of the code are structural recursion, but for the
-- recursive descent of the JSON5 parser, which runs on fuel of twice the length of the text and
-- one more; each value, member and element uses one, and so does each descent. Times are natural
-- numbers of milliseconds and action ids are natural numbers, with the bound of the safe integers
-- as a parameter of the queue, and written out where the overlay checks its entries.
--
-- Not modelled: opening, migrating and closing the database and the decoding of NUL bytes; reading
-- the log back; the release of an authority's session; the call of a driver's tool and the rest of
-- the kit, the commands of the command line interface but `config apply`, `update` and `rollback`,
-- and of those what they print, the sessions of the fs gatekeeper, the gatekeepers for GitHub and
-- MCP, and the kernel's hooks, registry and OAuth routes.
pub mod Prelude
pub mod Shared
pub mod Kernel
pub mod Cli
pub mod Kit
pub mod Fs
mod Tests
