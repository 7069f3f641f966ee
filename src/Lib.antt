-- ===== src/Lib.antt =====
-- A verification of qq-index, the package for repository orientation and for the session index
-- (src/*.mjs). Each module models one part of it; the proofs stand in the modules below.
--
-- The parts and how they interact. The plugin loads a bounded projection of the repository's
-- README.md (src/index.mjs). Beside it, the session-index runtime (src/session-index-runtime.mjs)
-- binds a DSH session-query service to the index daemon: it validates the daemon, starts a
-- source, monitors it and restarts it with a back-off, and serves searches over short-lived
-- clients. The source (src/session-index-dsh-source.mjs) projects session logs into documents and
-- commits them to the daemon in batches.
--
-- Prelude: names shared by all modules, Boolean tests, lists over native numbers, and `Outcome`,
-- a computation that may throw.
--
-- Client: src/session-index-client.mjs. `Client.Values` has the values of JavaScript,
-- `Client.Errors` the codes. `Client.Checks` has the checks of one value (exactObject to equal),
-- `Client.Requests`, `Client.Responses`, `Client.SearchResponses`, `Client.ViewRequests` and
-- `Client.ViewResponses` the validators, and `Client.Methods` the methods of SessionIndexClient
-- up to #enqueue; `Client.Accepted` says what accepted values have. `Client.Frames` has the loop
-- of #onData, over any owner of frames. `Client.State` has the fields of SessionIndexClient,
-- `Client.Handle` #handleFrame, #terminate, #roundTrip, the boundaries of a call and close(), and
-- `Client.Step` the calls and the events of the socket and of the timers, in any order; the jobs
-- of #tail are a queue whose next job starts when its turn comes. `Client.Control` has
-- oneShotControlRoundTrip, the check of a cancellation and the options of
-- connectSessionIndexClient. JSON.parse, the length of encoded values and AbortSignal are
-- parameters; texts are well-formed; a check's name, which only goes into the message of an
-- error, is left out.
--
-- Dsh: src/session-index-dsh-source.mjs. `Dsh.Chunks` has chunkDocuments and chunkArray,
-- `Dsh.Decimal` has parseUnsigned and toString. A document's size in bytes is a parameter, since
-- JSON.stringify is the language's. `Dsh.Session` has #syncSession up to the commits; what
-- inspectDurableProductionSnapshot and projectDshSessionLog find is an argument. `Dsh.Projection`
-- has projectDshSessionLog on the values of JavaScript, and `Dsh.Records` what it reads; the
-- helpers' results, the digests, Date.parse and isAbsolute are parameters. `Dsh.Source` has the
-- fields of DshSessionIndexSource and the methods without an await, `Dsh.Source.Task` the
-- segments of its queued tasks between two awaits, and `Dsh.Source.Step` the calls of the
-- service, the live notifications and the segments, in any order. `Dsh.Snapshots` has
-- groupedSnapshotChunks and validateSnapshotSettlements; the checks of a record's fields and
-- string lengths are Booleans of the data. `Dsh.Listing` has the checks of normalizeSessionList.
-- `Dsh.Reads` has fusedReferencesBySourceHit and readGroupedAuthoritativeDocuments; what the
-- service answers is a parameter. `Dsh.Snippets` has normalizeWhitespace, centeredSnippet and
-- prefixClipWithEllipsis, on the points of a text. `Dsh.Retention` has the end of
-- verifyDshSearchCandidates, from the observed evidence on. Sessions, workspaces and scope tokens
-- are numbers, as the code only compares them.
--
-- Readme: src/index.mjs. A text is a list of code points. `Readme.Lines` has the regular
-- expressions as functions, `Readme.Boundaries` the pass of markdownBoundaries,
-- `Readme.Projection` projectIndex, `Readme.Load` readUtf8Prefix and loadIndex; what the file
-- system and the decoder hand over is an argument.
--
-- Runtime: src/session-index-runtime.mjs. `Runtime.State` has the fields of SessionIndexRuntime
-- and the methods that run without an await; `Runtime.Reattach` and `Runtime.Calls` have one
-- function for each segment between two awaits; `Runtime.Step` has the events (calls of the
-- service, timer, daemon answers) and runs them in any order. `Runtime.Operations` has
-- validateOperationOptions and operationOptions, `Runtime.Options` has validateSessionIndexConfig
-- and the limits of the source's constructor. Bindings, sources and clients are numbers, as the
-- code only compares them. Time is left out: a timer may fire whenever it is armed.
--
-- Views: src/views/registry.mjs. `Views` has the checks of manifests and requests, the registry
-- and toWireAuthority; `Views.Lookup` and `Views.Authority` their proofs.
--
-- ViewSource: src/dsh-alpha4-view-source.mjs. `ViewSource.Checks` and `ViewSource.Records` have
-- its checks of values, records, observations and changes, and canSkip; `ViewSource.Replacement`
-- has the mutations that replaceObserved and reconcileChange send. String(n) and JSON.stringify
-- are parameters. `ViewSource.State` has the variables of createDshAlpha4ViewSource and its calls
-- without an await, `ViewSource.Work` reconcileRecord, reconcileChange and replaceObserved
-- between two awaits, and `ViewSource.Step` start, enqueue, the promise tail and close, in any
-- order of events. Timings are left out.
--
-- Loops are structural on lists. `chunk_array` and `decimal` take fuel, the length of the list
-- and the number itself; their theorems show that it is enough. `drain` of `Client.Frames` takes
-- the length of the buffer and one more; `Client.Frames.Cuts` shows that it is enough. `extend`
-- and `widen` of `Dsh.Snippets` take the number of points, which `Dsh.Snippets.Matches` and
-- `Dsh.Snippets.Windows` show to be enough.
--
-- Not modelled: the Rust daemon, processes, git and file access, the other modules under src/,
-- and the text of error messages.
mod Prelude
pub mod Readme
pub mod Client
pub mod Dsh
pub mod Runtime
pub mod Views
pub mod ViewSource
