-- ===== src/Lib.antt =====
-- goflix: a model of the core of the streaming server, and what is proved of it.
--
-- The server finds a stream for a title, proxies it to players under a session token, and keeps
-- accounts whose lists and progress are synced between devices. The parts that are modelled:
--
-- - Session: internal/mediaresolver/session.go (newSession), resolver.go (the sweep and Close),
--   proxy.go (the gate at the start of Proxy, `proxy_gate` in Session/Gate), streams.go
--   (PauseStream, StopStream, BlockIP and the others, in Session/Control), renditions.go
--   (SetSubRenditions and the ladder, in Session/Renditions) and warmer.go (ensureWarmer). One record,
--   `Resolver`, is the state that they share under the resolver's mutex. A pipeline of the
--   read-ahead is a number: `started` counts them, `canceled` lists those whose cancel function was
--   called. Session/Cap is about the limit on sessions; Session/Events puts the operations in any
--   order.
-- - BodyCache: internal/mediaresolver/cache.go (bodyCache). The list of entries is the linked list of
--   the source, most recently used first; the map beside it is the search in that list.
-- - Upstream: internal/mediaresolver/netutil.go, the cooldown of a host (hostThrottle, in
--   Upstream/Throttle) and doWithRetry (Upstream/Retry). The attempts, the clock and the context are
--   a parameter, `World`. Upstream/Hosts has IsBlockedIP and blockedUpstreamHost, with the cache of
--   its verdicts; net.ParseIP and the DNS are parameters.
-- - Resolution: internal/mediaresolver/resolution_cache.go (the records, their keys, and in
--   Resolution/Next the choice of the next episode), with validateRequest of resolver.go and
--   parseReqKey of streams.go. The fingerprint of a manifest and the catalog's answer whether an
--   episode exists are parameters.
-- - Flight: internal/mediaresolver/resolver.go (Resolve behind its cache miss) and the flights of
--   resolution_cache.go, as a step relation of any number of callers; what resolveFresh answers is
--   chosen by the environment.
-- - ReadAhead: internal/mediaresolver/warmer.go (pumpPrefetch and the ends of its downloads), and
--   registerSegments and noteSegmentServed of cache.go, over the body cache of BodyCache.
-- - Manifest: internal/mediaresolver/manifest.go (forceHighestQuality; rewriteManifest in
--   Manifest/Rewrite, over a parameter for net/url), highestVariantSize of streams.go,
--   lastPlaylistLine of cache.go, and the text of renditions.go (Manifest/Inject).
-- - Traffic: internal/mediaresolver/streams.go (recordTraffic).
-- - Audio: internal/mediaresolver/audio.go (demuxAudioPES, walkADTS). An index out of range is `none`.
-- - Subtitles: internal/subtitles/vtt.go. The floating-point seconds are the parameter `Float`.
-- - Catalog: internal/catalog/store.go (HomeView, InterleaveMovies).
-- - Range: internal/mediaresolver/netutil.go (ParseByteRange).
-- - RateLimit: internal/server/ratelimit.go (ipLimiter). A token is counted as the time that it takes
--   to regain it, so that the arithmetic is exact where the source uses floating point.
-- - UserData: internal/server/handlers_userdata.go (merge and what it calls). An opaque JSON item is
--   a record of the fields that are decoded from it; the codec is not modelled.
-- - Auth: internal/server/auth.go and the schema of internal/db/db.go. Auth/Credentials has the checks
--   of names, addresses and passwords, Auth/Store the tables and their statements, Auth/Register,
--   Auth/Login and Auth/Manage the operations, Auth/Handlers the identity of a request and the
--   handlers. The hash functions of the standard library and of bcrypt, the clock, random names and
--   the failures of statements are the parameter `Call`.
--
-- Base holds what the parts share: tests on the native numbers, lists, maps as association lists,
-- integers, and the functions of Go's packages strings and strconv that the source calls, on bytes.
--
-- Bounds. Times are nanoseconds since the epoch as natural numbers; a clock that stands still or runs
-- backwards is not excluded unless a statement says so. `int64` appears where it matters: ParseInt
-- refuses what does not fit, and the shift of the cooldown wraps around. The retry loop runs on fuel
-- 3, the number of attempts; eviction runs on the number of entries, and the walks over packets, frames
-- and bytes on the length of the buffer; these are proved to be enough. The passes over the variants of
-- a playlist run on the number of its lines, where more rounds change nothing, and the replacement of
-- URIs on the number of bytes, of which each round takes one or more. The counts of traffic wrap around
-- at 2^64, and the area of a variant is a wrapped 64-bit product.
-- Text is ASCII where the source folds letter case or trims white space.
--
-- Not modelled: network and file input and output, the providers' scrapers and the JavaScript sandbox,
-- the refresh of the catalog, the joined downloads of fetchForCache and the transfers behind the
-- read-ahead, the clients of subtitle sites, the floating-point bandwidth hints, the wrapping of a bare
-- media playlist in a master, and the configuration.
pub mod Base
pub mod BodyCache
pub mod RateLimit
pub mod Upstream
pub mod Range
pub mod Session
pub mod UserData
pub mod Auth
pub mod Resolution
pub mod Flight
pub mod Manifest
pub mod ReadAhead
pub mod Audio
pub mod Subtitles
pub mod Traffic
pub mod Catalog
