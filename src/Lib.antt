-- ===== src/Lib.antt =====
-- Pair Notebook: a VS Code extension for shared notebooks, with a server for workspaces that last.
--
-- A session has participants who are connected by a mesh; one of them is the host. Who is host is
-- said by a clock, which the coordinator of each participant keeps and which announcements move
-- on. Participants exchange frames; files travel as transfers in chunks; notebooks of the editor
-- are brought to the shared state by a splice; a cell may be executed by another participant,
-- whose output events come back numbered. The server keeps a workspace as a manifest of entries
-- with private and public paths.
--
-- Base: shared helpers. Base/Tests has the Boolean tests and results, Base/Lists the lists,
-- Base/Maps JavaScript's Map, Base/Int the integers over the native numbers, Base/Js values as
-- they come from the network, Base/Codes strings as lists of code points.
--
-- Clock: the host clock (src/core/types.ts: HostClock, normalizeHostClock, compareClock).
--
-- Coordinator: SessionCoordinator (src/core/election.ts). Coordinator/Network has the coordinators
-- of all participants as a step relation: transfers, the commit of transferHost
-- (src/runtime/session.ts), announcements that are lost, repeated and reordered, and what any
-- peer may make up. The theorems are about runs of orderly steps: transferHost broadcasts the
-- clock without asking whether the host's own coordinator accepted it, so that it does is a
-- condition; so is that no peer makes up announcements to a receiver that takes it for the host.
--
-- Transfer: the shape of an incoming transfer and its chunks (src/core/transfer.ts).
--
-- Wire: frames (src/core/wire.ts). The text of JSON is a parameter, with the one hypothesis that
-- a header survives it.
--
-- Notebook: minimalNotebookSplice and StableCellIdRegistry (src/core/notebookIdentity.ts).
--
-- Execution: the requester's side of a remote execution (src/runtime/session.ts:
-- acceptRemoteExecutionEvent, resolvePendingRemoteExecution, the cases 'executionEvent' and
-- 'executeResult'). The loop over the buffer has fuel: one round for each buffered event and one
-- to leave, which is enough since each round takes an event out.
--
-- ProjectPath: safeRelativePath and the comparison key (src/core/projectPath.ts), on a platform
-- whose separator is '/'; Node's path.normalize and the Unicode folding are parameters.
--
-- Workspace: the manifest of PersistentWorkspace (src/vps/persistentStorage.ts). The operations
-- run one at a time, as its queue sees to, so each is a function of the manifest. Its blobs and
-- files on disk are not modelled, nor the operations write, writeStaged and setVisibility.
--
-- Admission: purpose tables, payload limits, rate windows and duplicate detection of MeshTransport
-- (src/runtime/mesh.ts: isPurposeMessageAllowed, maxPayloadBytes, acceptInboundRate, wasSeen).
--
-- RouteScoring: shouldMigrateRoute (src/runtime/routeScoring.ts). Permissions: mayEdit and
-- mayChangeTree (src/core/permissions.ts). ExecutionQueue: PerNotebookExecutionQueue
-- (src/core/executionQueue.ts), with the callback of a finished task as an operation of its own;
-- ExecutionQueue/Serial has the tasks that wait for one another.
--
-- FileStates: lifecycle states of project files and conflicting renames (src/runtime/session.ts:
-- compareFileState, nextFileState, setFileState, effectiveFileState, recordRenameOrigin,
-- resolveRenameConflict). FileStates/Lifecycle has what a session does with them: acceptFileState,
-- ensureLiveFileState, renameFileStates and the deletions that its watcher is to ignore.
-- localeCompare is a parameter.
--
-- Storage: StorageAdapter (src/core/persistence.ts) and the atomic writes (src/core/atomicFile.ts).
-- Storage/State has the adapter's fields, Storage/AtomicFile and Storage/Target the files,
-- Storage/Operations the operations, Storage/Manifest, Storage/Inspect and Storage/Materialize
-- complete copies of a project. Node's file system, the editor and the serialization are
-- parameters; each may change the adapter, as other calls do while an operation waits. The loop
-- of resolveCurrentPath and the descent into directories have fuel.
--
-- NotebookOutputs: persistentNotebookOutputs (src/vps/persistentNotebookOutputs.ts), which reduces
-- the events of a run on the server to the outputs that the cell keeps.
--
-- Tests: the theorems at concrete inputs.
--
-- Numbers are natural numbers where the source holds counts, sizes and epochs; the safe-integer
-- tests of the source are written out where values come from outside. Not modelled: sockets, the
-- editor, timers, processes, the replicated documents (a library) and the rest of the session.
pub mod Base
pub mod Clock
pub mod Coordinator
pub mod Transfer
pub mod Wire
pub mod Notebook
pub mod NotebookOutputs
pub mod Execution
pub mod ProjectPath
pub mod Workspace
pub mod RouteScoring
pub mod Permissions
pub mod Admission
pub mod ExecutionQueue
pub mod FileStates
pub mod Storage
pub mod Tests
