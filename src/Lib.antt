-- ===== src/Lib.antt =====
-- regcachectl: a fleet of pull-through registry caches on a local container runtime.
--
-- The program's parts, and the files that model them:
--
-- - main.go parses a command line and calls one method of the engine of internal/cache. Cli/Flags is
--   package flag as it uses it, Cli/Positional `parseArgs` (with its proofs in Interpret, Ends and Typed),
--   Cli/Commands the commands with their flags, Cli/Process the process with `buildEngine`, Cli/Print
--   and Cli/Usage what is printed, Cli/Run the commands and `main`, and Cli/Systemd is systemd.go.
--   Cli/Keeps follows every method of the engine for the proof in Cli/Safety.
-- - internal/cache/cache.go drives the container runtime. Upstream.antt is its table of registries,
--   Engine.antt the engine's ports and names, Io.antt its two effects (`run` and `logf`), and Fleet/
--   holds `Up`, `Down`, `GC`, `DiscoverPorts`, `Status`, `DetectRuntime` and what they call, with
--   `gcSummary` (Summary).
-- - internal/cache/pull.go names images and talks to a cache as a registry client. Reference.antt is
--   `parseRef`, Platform.antt the children of an index and the platforms that are wanted, and Client/
--   `pullClient`: its challenge parser (Challenge), its GETs and token exchange (Client.antt), and
--   `warmImage` (Warm), with the invariant of the set of seen blobs (Keeps, Fetched,
--   Steps, Warmed).
-- - internal/cache/coverage.go tells how much of a release one cache holds. Coverage.antt is
--   `imageOnDisk` over `storeView` (what it decides is in Complete and Decides), Coverage/Count and
--   Coverage/Payload are `releaseCoverage`, and Coverage/Images and Coverage/Layer are
--   `parseImageReferences` and `fileInLayer` of internal/cache/release.go. Coverage/Disk is `diskView`
--   with `openStore`, Coverage/Views relates it to the listings of the container, and Release/Report is
--   the entry `ReleaseCoverage`.
-- - internal/cache/release.go warms the caches with a release. Client/Layers reads the release image
--   (`platformManifest`, `findFileInLayers`). Release.antt is the state that `PullRelease` shares with
--   its warmers, and `warmRef`; Release/Missing is `missingOnDisk`, Release/Pull `PullRelease` with its
--   verification rounds, for any behaviour of `warmAll`. Release/Workers has the goroutines of `warmAll`
--   as a step relation (its invariant is in Schedules, what follows in Returns), Release/InOrder the loop
--   that one warmer runs, and Release/Claims the
--   set of seen blobs that they share, as another one. Release/Image is `Pull` of internal/cache/pull.go,
--   which warms single images.
-- - internal/cache/list.go is the inventory: Listing.antt is `HumanBytes`, Listing/Inventory is
--   `fillBlobcache`, whose decoding is Blobcache/Inventory, and Listing/Walk `List`.
-- - internal/cache/registries.go is Mirrors.antt: the configurations that point a cluster at the caches.
-- - internal/cache/transfer.go is Transfer.antt: `Export` and `Import`, on the runtime and the host's files.
-- - internal/blobcache/blobcache.go is the proxy that caches blobs by digest without credentials.
--   Blobcache/ models its routes (Route), sidecar files (Sidecar, Escape, Record), replies (Replies),
--   handlers (Stream, Serve; what they do to the stored blobs is in Integrity, Store, Kept and Fill), inventory (Stats, with the value of Json.antt that is served in Inventory)
--   and start (Start).
--
-- Text is a list of bytes (Text.antt); a Go pair of a value and an error is a `Result`
-- (Base/Results.antt), whose error is the message. Number conversions take as fuel one more than the
-- number, which has more digits than are printed.
--
-- The engine's methods are actions of `Io`: a function from the history of what was done to a result
-- and the longer history, which is kept on failure too. The container runtime is a parameter: a function
-- of the history and the command, so that a theorem over all runtimes holds whatever the runtime
-- answers. Fleet/Docker.antt names what a theorem needs of it beyond that. Log lines are events of the
-- history; `utf8` gives the bytes of a literal, and Text/Quote is `%q` of ASCII text. Base/Stateful has
-- the actions on a state of its own, with a rule for the results of a chain (`Gives`), one for a result
-- with its state (`Yields`), and one for every outcome and state (`Ends`).
--
-- A client's methods are actions of its session: the token, the keys that this warmer has stored in
-- the shared map of seen blobs, and the requests that were sent; an error keeps the session. The network
-- is a parameter: a function of the requests before. So are the keys that other warmers have in the map
-- meanwhile (`claimed`); how the warmers share the map is the step relation of Release/Claims.
-- What a cache holds (`storeView`), the decoding of JSON and the readers of gzip and tar are parameters
-- too. An index within an index is followed a given number of levels down; for images whose children are
-- manifests two are enough. A size in bytes is below 2^53, so that a float64 holds it exactly.
--
-- In a step relation every interleaving of the warmers is a sequence of steps. A step of `warmAll` is the
-- receipt of an index or the storing of a result; the loop over the blobs has one for `LoadOrStore`, and
-- one for the end of a fetch. The pause between two rounds of `PullRelease` has no counterpart, and the
-- elapsed time is a parameter. `os.Remove` of the bundle that `Export` made is taken to succeed.
--
-- A request to the blob cache meets a `Machine`: the answers of the upstream and of the download host,
-- and the outcome of each file operation. SHA-256 is a parameter. Directories are association lists
-- from file names to contents.
--
-- The process of main.go is that state and the host's files with the standard error output. What the
-- program meets is a `Machine` of Cli/Process: the runtimes, the network, package os, what the standard
-- library reads and prints (numbers and durations of the command line, which are not negative where a
-- count is wanted, and the tables of text/tabwriter), and the behaviour of `warmAll` and of `openStore`, of
-- which Release/InOrder and Release/OnDisk are instances. `Parse` and `parseArgs` take as fuel one more
-- than there are arguments.
--
-- Not modelled: HTTP itself, JSON as text (but for the blob cache's inventory its decoding is a parameter),
-- and the server loop of `ListenAndServe`.
mod Base
pub mod Text
pub mod Upstream
pub mod Reference
mod Dict
pub mod Json
pub mod Blobcache
pub mod Io
pub mod Listing
pub mod Engine
pub mod Fleet
pub mod Platform
pub mod Coverage
pub mod Client
pub mod Release
pub mod Transfer
pub mod Mirrors
pub mod Cli
