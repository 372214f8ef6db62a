-- ===== src/Resolution/Next.antt =====
-- The choice of the episode to resolve ahead: nextPrewarmTarget of
-- internal/mediaresolver/resolution_cache.go.
use goflix.Base.{
  ℕ, zero, suc, ◌-◌, Bool, true, [], ◌∷◌, ◌++◌, Option, none, some, Text, codes, text_eq, text_key,
  ltb, ◌==◌, if◌then◌else◌, length,
}
use goflix.Base.Int.{pos, negsuc}
use goflix.Base.Strings.{trim_space}
use goflix.Base.Decimal.{itoa, parse_int, max_int}
use goflix.Resolution.{MediaRequest, tv}

-- `strconv.Itoa(n + 1)` on a 64-bit `int`
unfoldable pub itoa_succ : ℕ → Text
itoa_succ n = if n == max_int then b'-' ∷ itoa (suc n) else itoa (suc n)

unfoldable pub zeros : ℕ → Text
zeros zero = []
zeros (suc n) = b'0' ∷ zeros n

unfoldable pub padded : ℕ → Text → Text
unfolding zeros
padded width next = if ltb (length next) width then zeros (width - length next) ++ next else next

-- `nextEpisodeNumber`
unfoldable pub next_episode_number : Text → Option Text
next_episode_number ep = elim (parse_int (trim_space ep)) [
  | none ↦ none
  | some (negsuc m) ↦ none
  | some (pos n) ↦ some (padded (length ep) (itoa_succ n))
]

-- A TV request for an episode of the title of another request
abbrev pub episode_request : MediaRequest → Text → Text → MediaRequest
episode_request r season episode = record {
  media_type = tv;
  id = r.id;
  season = season;
  episode = episode;
  provider = r.provider;
}

-- `episodeMayExist`; `none` is a provider that is not set.
unfoldable pub episode_may_exist : Option (Text → Text → Text → Bool) → MediaRequest → Bool
episode_may_exist none r = true
episode_may_exist (some has_episode) r = has_episode r.id r.season r.episode

-- The first episode of the next season
unfoldable pub rollover_target :
    Option (Text → Text → Text → Bool) → MediaRequest → Option Text → Option MediaRequest
rollover_target provider r none = none
rollover_target provider r (some next_season) =
    if text_eq next_season r.season
    then none
    else if episode_may_exist provider (episode_request r next_season (codes "1"))
    then some (episode_request r next_season (codes "1"))
    else none

-- `nextPrewarmTarget`
unfoldable pub next_prewarm_target :
    Option (Text → Text → Text → Bool) → MediaRequest → Option MediaRequest
next_prewarm_target provider r = elim (next_episode_number r.episode) [
  | none ↦ none
  | some next ↦
      if episode_may_exist provider (episode_request r r.season next)
      then some (episode_request r r.season next)
      else rollover_target provider r (next_episode_number r.season)
]
