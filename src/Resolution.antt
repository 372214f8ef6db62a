-- ===== src/Resolution.antt =====
-- The resolution cache of internal/mediaresolver/resolution_cache.go, and the requests that are its
-- keys (resolver.go, and parseReqKey of streams.go). Resolution/Next is about the next episode.
pub mod Keys
pub mod Records
pub mod Next
pub mod Episodes
mod Examples
use goflix.Base.{
  ℕ, zero, suc, ◌+◌, ◌-◌, ◌*◌, ◌^◌, Bool, true, false, not, ◌&&◌, ◌||◌, List, [], ◌∷◌, ◌++◌, Option,
  none, some, Text, codes, text_eq, text_key, ltb, leb, ◌==◌, if◌then◌else◌, any, length, is_some,
}
use goflix.Base.Map.{Map, lookup, insert, erase}
use goflix.Base.Int.{ℤ, pos, negsuc}
use goflix.Base.Strings.{trim_space, has_prefix, cut_prefix, split}
use goflix.Base.Decimal.{itoa, parse_int, max_int}
use goflix.Session.{Header, Resolver, ProxySession, warmer_list, ensure_warmer}
use goflix.BodyCache.{BodyCache, CacheEntry, put}

-- `MediaRequest`
pub record MediaRequest : Type 0 where
  pub media_type : Text
  pub id : Text
  pub season : Text
  pub episode : Text
  pub provider : Text

abbrev pub tv : Text
tv = codes "tv"

abbrev pub movie : Text
movie = codes "movie"

-- `ValidNumeric`
unfoldable pub valid_numeric : Text → Bool
valid_numeric s =
    not (text_eq s [] || ltb 20 (length s)) && not (any (λ c. ltb c b'0' || ltb b'9' c) s)

abbrev pub known_providers : List Text
known_providers =
    []
    ∷ codes "vixsrc"
    ∷ codes "movish"
    ∷ codes "movy"
    ∷ codes "vidsrcme"
    ∷ codes "vidsrc"
    ∷ codes "cinesrc"
    ∷ []

unfoldable pub valid_media : MediaRequest → Bool
valid_media r =
    if text_eq r.media_type movie
    then valid_numeric r.id
    else text_eq r.media_type tv
      && valid_numeric r.id
      && valid_numeric r.season
      && valid_numeric r.episode

-- `validateRequest`; true where it returns no error.
unfoldable pub validate_request : MediaRequest → Bool
validate_request r = valid_media r && any (λ p. text_eq p r.provider) known_providers

abbrev pub provider_of : MediaRequest → Text
provider_of r = if text_eq r.provider [] then codes "vixsrc" else r.provider

abbrev pub season_of : MediaRequest → Text
season_of r = if text_eq r.media_type tv then r.season else codes "-"

abbrev pub episode_of : MediaRequest → Text
episode_of r = if text_eq r.media_type tv then r.episode else codes "-"

-- `resolutionKey`
unfoldable pub resolution_key : MediaRequest → Text
resolution_key r =
    provider_of r
    ++ b'|' ∷ (r.media_type ++ b'|' ∷ (r.id ++ b'|' ∷ (season_of r ++ b'|' ∷ episode_of r)))

-- `parseReqKey`: provider, type, id, season and episode.
unfoldable pub parse_parts : List Text → Text × Text × Text × Text × Text
parse_parts (p ∷ t ∷ i ∷ s ∷ e ∷ []) = (p, t, i, s, e)
parse_parts _ = ([], [], [], [], [])

unfoldable pub parse_req_key : Text → Text × Text × Text × Text × Text
unfolding parse_parts
parse_req_key key = parse_parts (split b'|' key)

-- `resolutionRecord`
pub record ResolutionRecord : Type 0 where
  pub source : Text
  pub headers : Header
  pub allowed : Map Text Bool
  pub manifest : Text
  pub manifest_fp : Text
  pub no_revalidate : Bool
  pub tier : Text
  pub created_at : ℕ

-- `directResolution`
pub record DirectResolution : Type 0 where
  pub source : Text
  pub headers : Header
  pub allowed : Map Text Bool
  pub master_text : Text
  pub no_revalidate : Bool
  pub tier : Text

abbrev pub Records : Type 0
Records = Map Text ResolutionRecord

abbrev pub resolution_ttl : ℕ
resolution_ttl = 24 * 3600 * 1_000_000_000

abbrev pub max_resolution_records : ℕ
max_resolution_records = 512

abbrev pub max_cached_manifest_bytes : ℕ
max_cached_manifest_bytes = 524288

-- `newResolutionRecord`; the fingerprint, a hash in hexadecimal, is a parameter.
unfoldable pub new_resolution_record : (Text → Text) → DirectResolution → ResolutionRecord
new_resolution_record fingerprint vr = record {
  source = vr.source;
  headers = vr.headers;
  allowed = vr.allowed;
  manifest = if ltb max_cached_manifest_bytes (length vr.master_text) then [] else vr.master_text;
  manifest_fp = if text_eq vr.master_text [] then [] else fingerprint vr.master_text;
  no_revalidate = vr.no_revalidate;
  tier = vr.tier;
  created_at = 0;
}

-- `now.After(rec.createdAt.Add(resolutionTTL))`
abbrev pub is_stale : ℕ → ResolutionRecord → Bool
is_stale now rec = ltb (rec.created_at + resolution_ttl) now

-- `lookupResolution`, by the request's key
unfoldable pub lookup_resolution : Records → Text → ℕ → Records × Option ResolutionRecord
lookup_resolution m key now = elim (lookup key m) [
  | none ↦ (m, none)
  | some rec ↦ if is_stale now rec then (erase key m, none) else (m, some rec)
]

-- The loop for the oldest record: its key and time.
unfoldable pub older : Text → ResolutionRecord → Option (Text × ℕ) → Option (Text × ℕ)
older k v none = some (k, v.created_at)
older k v (some (best, t)) = if ltb v.created_at t then some (k, v.created_at) else some (best, t)

unfoldable pub oldest : Records → Option (Text × ℕ) → Option (Text × ℕ)
unfolding older
oldest [] best = best
oldest ((k, v) ∷ m) best = oldest m (older k v best)

abbrev pub key_or_empty : Option (Text × ℕ) → Text
key_or_empty none = []
key_or_empty (some (k, t)) = k

unfoldable pub evict_oldest : Records → Records
evict_oldest m =
    if ltb max_resolution_records (length m) then erase (key_or_empty (oldest m none)) m else m

-- `rememberResolution`; the write to the database that follows is not part of it.
unfoldable pub remember_resolution : Records → Text → ResolutionRecord → ℕ → Records
remember_resolution m key rec now =
    if text_eq rec.source []
    then m
    else evict_oldest (insert key (record rec { created_at = now }) m)

-- `forgetResolution`
unfoldable pub forget_resolution : Records → Text → Records
forget_resolution m key = erase key m

-- `InvalidateResolution`: the records, and whether the counter goes up.
unfoldable pub invalidate_resolution : Resolver → Records → Text → Records × Bool
invalidate_resolution r m token = elim (lookup token r.sessions) [
  | none ↦ (m, false)
  | some s ↦ (erase s.req_key m, not (text_eq s.req_key []))
]

-- `validateRecord`; `fetched` is the body of the new fetch, `none` if it failed.
unfoldable pub validate_record : (Text → Text) → ResolutionRecord → Option Text → Bool
validate_record fingerprint rec none = rec.no_revalidate
validate_record fingerprint rec (some body) =
    rec.no_revalidate
    || (has_prefix (codes "#EXTM3U") (trim_space body)
        && (text_eq rec.manifest_fp [] || text_eq (fingerprint body) rec.manifest_fp))

abbrev pub cache_entry_ttl : ℕ
cache_entry_ttl = 6 * 3600 * 1_000_000_000

-- The session of a token on its new source, without a pipeline.
abbrev pub swapped : ProxySession → DirectResolution → ProxySession
swapped s fresh = record s {
  source = fresh.source;
  allowed = fresh.allowed;
  headers = elim fresh.headers [ [] ↦ s.headers | _ ∷ _ ↦ fresh.headers ];
  warmer = none;
}

-- The body of the new manifest, in the cache of upstream bodies
unfoldable pub seed_cache : BodyCache → DirectResolution → ℕ → BodyCache
seed_cache c fresh now =
    if text_eq fresh.master_text []
    then c
    else put c (record {
      key = fresh.source;
      body = fresh.master_text;
      status = 200;
      content_type = codes "application/vnd.apple.mpegurl";
      expires_at = now + cache_entry_ttl;
    })

-- `hotSwapSession`
unfoldable pub hot_swap_session :
    Resolver → BodyCache → Text → DirectResolution → ℕ → Resolver × BodyCache
hot_swap_session r c token fresh now =
    if text_eq fresh.source [] then (r, c) else elim (lookup token r.sessions) [
      | none ↦ (r, c)
      | some s ↦ (
        ensure_warmer
            (record r {
              sessions = insert token (swapped s fresh) r.sessions;
              canceled = warmer_list s.warmer ++ r.canceled;
            })
            token,
        seed_cache c fresh now,
      )
    ]
