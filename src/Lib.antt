-- ===== src/Lib.antt =====
-- The broker of this repository: a daemon between clients on the web, the herdr runtime of its own
-- machine, and the brokers of other machines that dial in to it as its children.
--
-- The parts, and where they are modelled (paths from the repository's root):
--   Registry   src/registry.ts: what the broker knows of every instance. `Registry` holds the entries,
--              the file and the announced events; each method is a function on it, and `Call`, `step`
--              and `run` are histories of calls.
--   Access     who may do what: src/policy.ts (Policy), src/auth.ts with the token list of src/config.ts
--              (Bearer), src/auth-limit.ts (Limiter), src/presence.ts (Presence), src/errors.ts (Errors),
--              and the start of `handle` of src/http.ts, before its routes (Gate), with the upgrades of
--              src/ws-server.ts that share its limiter.
--   Owners     src/owners.ts: one email owns one session, and the session that `POST /auth` of
--              src/http.ts makes for an email (Provision).
--   Tunnel     src/tunnel.ts: `ChildConnection` (Connection) and `TunnelHub` with `acceptChild` of
--              src/ws-server.ts (Hub), over the registry that the connections and the local attachment
--              write to.
--   Client     src/ws-server.ts: who is let in (Upgrade), a client's socket with its taps (Socket), and
--              what it may subscribe to (Subscriptions).
--   Sdk        packages/client/src/events.ts: the `EventChannel` of the client library (Channel), with
--              the calls and subscriptions that it keeps over its sockets.
--   Calls      how a call reaches an instance: `makeCallInstance` of src/http.ts, the request branch of
--              `ParentLink` of src/south.ts, its redial schedule (Redial) and its taps (Taps).
--   Env        src/env-registry.ts: values and hooks (Registry), and the file that a shell sources (Drop).
--   State      src/state.ts: the indexes of workspaces, agents and ended conversations.
--   Agents     src/reconcile.ts, src/readiness.ts, src/spawn-readiness.ts (Spawn), and `decideTurn` of
--              src/transcript.ts (Turn).
--   Modules    src/capabilities.ts (Grants) and src/module-routes.ts (Routes).
--   Runtime    src/version.ts (Version) and src/model-registry.ts (Models).
--   Ops        src/workspace-ops.ts: the operations on workspaces and agents, over the `World` of the three
--              indexes and the locks. A row that ends (Reap), `stopAgent` (Stop), the agent of a pane
--              (Panes), `ask` with its answer file and its lock (Ask), `spawn` with what it decides before
--              it acts (Resume, Placement), its attempts (Launch) and its whole (Spawn), what is typed into
--              a pane (Drivers), the long polls (Polls), and `demolishOwned` of src/http.ts with `stop` of
--              src/provisioner.ts (Demolish).
--              `Ops` itself has the results and errors.
--   Git        src/git-exec.ts: what it runs, and what it makes of the answers: the status (Status), the verbs
--              (Verbs), `repoPull` (Pull) and `repoDiscard` (Discard).
--   Context    src/context-store.ts: the attachments of a workspace, and the inline pass (Inline).
--   Frames     src/ndjson.ts: the decoder of frames that end in a newline, fed with Buffers or texts.
--   Common     lists, Boolean tests, and the dictionaries that stand for `Map` and `Record`.
-- Names are those of the source in snake case: `replaceSnapshot` is `replace_snapshot`. A component's
-- child modules hold what is proved of it, and its `Tests` the theorems at concrete inputs.
--
-- How the source is read:
--   * A class is a record, and a method a function from the record to the next one. Where a method
--     throws, its result is a sum, an outcome, or the list of effects says so. Disk and clock are explicit: a
--     file is a field, and the time that a method reads is an argument, in ms or as ISO text.
--   * Callbacks, promises and timers are steps: a handler runs up to its `await`, and what was awaited
--     is a later step, so that a list of steps is an interleaving. A serial number stands for the text
--     that the source makes of it and of a fixed name (`${name}:${n}`, `sub-${n}`).
--   * `Map` and `Record` are association lists in insertion order. A `Record` of the source also
--     moves keys that look like array indices to the front and finds inherited names; keys of either
--     kind are outside the model.
--   * Loops are structural recursion, or they run on fuel: as many rounds as the time of an ask, a poll
--     or an exec has ms, and one more; for `agent.start` the retries of a busy pane and two more; and for
--     a new pane five samples. Fuel that runs out is an outcome of its own, or ends the samples. A round
--     of a loop that waits reads the clock once; the pause between two rounds is what the clock says, a
--     function of the round.
--   * What herdr, git, the disk and a file's parser answer is an argument: a value, a function of the
--     round, or, for git, a program over a state of the repository that no definition looks into.
--   * A text's `length` counts code points, not UTF-16 units.
--   * Platform functions are parameters: SHA-256, hexadecimal, UTF-8 decoding, lower case, the
--     order of `localeCompare`, trimming (but for Ops and Git, where `Common.Text` has it), and the
--     child process of a hook. What a theorem needs of them is its hypothesis.
--   * Values that the broker only hands on are text.
--
-- Not modelled: the HTTP routes (src/http.ts but for `makeCallInstance`, the start of `handle`, the
-- owner of `POST /auth` and `demolishOwned`); of src/workspace-ops.ts the dispatch of `runBrokerMethod`,
-- `listWorkspaces`, `waitAgent`, `repoFile` and the files of spec bundles; of src/git-exec.ts how
-- repositories are found and the tree is folded; the transcript parsers (src/transcript.ts), the smaller
-- stores (src/broker-events.ts, src/audit.ts), the local attachment (src/local-attach.ts) but for the
-- snapshot that it writes, how a herdr is started (src/provisioner.ts), module
-- loading, configuration files, the daemon's wiring, and of the packages for browsers under packages/
-- all but packages/client/src/events.ts. Most of it is wiring of sockets, files and child processes, or
-- reads texts of other programs.
pub mod Access
pub mod Agents
pub mod Calls
pub mod Client
pub mod Common
pub mod Context
pub mod Env
pub mod Frames
pub mod Git
pub mod Modules
pub mod Ops
pub mod Owners
pub mod Registry
pub mod Runtime
pub mod Sdk
pub mod State
pub mod Tunnel
