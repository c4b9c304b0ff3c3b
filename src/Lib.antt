-- ===== src/Lib.antt =====
-- swim is a set of Caddy modules that serve files out of archives and stores. This library models
-- its middleware for previews of pull requests and branches, modules/github_preview, the archives
-- below it, pkg/archive, the middleware that has pages rendered for crawlers, modules/prerender, and
-- the file systems modules/mergefs, modules/localfs and modules/vfs.
--
-- How a request goes. The middleware takes a key (pr:42, branch:main) from the host, looks the key
-- up in its metadata cache, and finds the artifact of that entry in its artifact cache. Where
-- there is none, it asks GitHub for the newest workflow run with the artifact, downloads it to a
-- zip file, puts a read cache in front of it, enters it in both caches, and registers it as a file
-- system with Caddy under the name github_preview:<key>. Pruning, refreshes in the background and
-- the management API take entries out or renew them.
--
-- How it is set up. Caddy hands each module the tokens of its part of the Caddyfile, which fill the
-- module's options, and then provisions it: a preview gets empty caches with the limits that were
-- read or the defaults, a merged file system loads its layers and lays them over each other, a vfs
-- file system opens the directory or the archive that its URL names.
--
-- Files:
--   Lru       modules/github_preview/lrucache.go. The doubly linked list is a heap of entries with
--             addresses, one write for each assignment of the source; unlink and link_front are
--             the writes that two methods share. Lru/Open is Open, from base.Open to the file;
--             Lru/File is a file that the cache serves, and the operations beside Open;
--             Lru/Recent is the cache as a user sees it, a list of items; Lru/Threads has the
--             sections under the lock as steps, in any order; Lru/Base says what the filesystem
--             below gives for a name.
--   Cache     modules/github_preview/cache.go: Cache/Metadata is MetadataCache and Cache/Artifact
--             is ArtifactCache. Maps are association lists with distinct keys; a cleanup function
--             is a value, and a method that runs some returns them in order.
--   Caddy     caddyfile.Dispenser, which is a parameter, and the loops over it that every
--             UnmarshalCaddyfile has; Caddy/Script is a list of tokens, for tests.
--   Http      http.Header: Get, Set, Add and Del.
--   Afero     what the file systems use of afero and io/fs, which are parameters.
--   Config    modules/github_preview/config.go: strconvAtoi, parseByteSize, and in Config/Options
--             UnmarshalCaddyfile, whose switch is a table from option names to setters; Config/Switch
--             says option by option what it is to do.
--   Prerender modules/prerender/prerender.go and modules/prerender/config.go; Prerender/Tables has the
--             lists of agents and file types, Prerender/Caddyfile UnmarshalCaddyfile. Web is a record
--             of the calls of net/http, net/url and compress/gzip.
--   Mergefs   modules/mergefs/handler.go.
--   Localfs   modules/localfs/handler.go.
--   Vfs       modules/vfs: handler.go, with Vfs/Config for config.go and Vfs/Sources for provider.go,
--             s3.go and gcs.go. Host is a record of the calls of os, net/http and the two clouds.
--   Archive   pkg/archive/archive.go: the download of a zip file, and archives read into memory.
--             Disk is a record of the calls of os, crypto/sha256 and zipfs.
--   Github    modules/github_preview/github.go. Github/Client has the requests, Github/Runs the
--             choice among runs and artifacts, Github/Url the escapes of net/url. Remote is a
--             record of the calls of the limiter, of net/http and of encoding/json.
--   Handler   modules/github_preview/handler.go. Handler/Key is extractKey, Handler/Resolve is
--             resolveAndRegister and what it calls, Handler/Prune is pruneOnce and Cleanup,
--             Handler/Serve is ServeHTTP; Handler/Provision is Provision with
--             modules/github_preview/templates.go, Handler/Api is modules/github_preview/api.go and
--             Handler/Debug is modules/github_preview/debug.go. Handler/Sections has the calls
--             section by section, and the goroutines that run them.
--   Prelude   names that the others share: tests, lists, maps, texts, integers, errors.
--
-- Text. strings.ToLower, ToUpper and TrimSpace are modelled for ASCII only: other letters and
-- spaces are left as they are, where Go folds those of Unicode too.
--
-- Numbers. Ids, sizes and times are natural numbers; a setting that may be negative is an integer;
-- parseByteSize wraps as an int64 does. Times are readings of one clock, which is a function of
-- the state of the world outside.
--
-- Fuel. The loop of addLocked and the loop of ArtifactCache.set run on fuel, one round more than
-- there are entries: each round takes one entry out, so that enough is given whenever the loop
-- ends at all. An outcome without fuel, none, is a loop that does not end. The loops over a
-- dispenser, and a client that reads a file to its end, run on fuel too; one more than there are
-- tokens, or bytes, is enough.
--
-- Concurrency. The read cache is modelled section by section, as the lock orders them. The
-- middleware's calls are modelled twice: whole, and in Handler/Sections as code, one section for
-- each use of a cache under its lock, of the registered file systems, or of what stands outside,
-- with any number of goroutines that take turns. Each caller of singleflight runs the resolution
-- itself there, which allows more orders than singleflight does. HTTP requests are whole in
-- Handler/Returns/Served.
--
-- Not modelled: the parser of the Caddyfile, which is Caddy's, and the registration of the modules
-- with Caddy; logging; the rate limiter, a thin cover over golang.org/x/time/rate; the rendering of
-- an error page; the ticker that starts a turn of the pruner, but for its panic at an interval that
-- is not positive. The loops over the closers of
-- mergefs, localfs and vfs run over lists that nothing fills.
-- file_systems stands for Caddy's map below the middleware's prefix, which Provision has set.
pub mod Prelude
pub mod Lru
pub mod Cache
pub mod Caddy
pub mod Http
pub mod Prerender
pub mod Afero
pub mod Mergefs
pub mod Localfs
pub mod Vfs
pub mod Config
pub mod Archive
pub mod Github
pub mod Handler
