-- ===== src/Resolution/Keys.antt =====
-- A key of the resolution cache tells its request.
use goflix.Base.{[], ◌∷◌, ◌++◌, text_eq, ◌≡◌, refl, inl, inr, Bool-cases}
use goflix.Base.Strings.{split-append, split-Without, Without}
use goflix.Resolution.{
  MediaRequest, tv, provider_of, season_of, episode_of, resolution_key, parse_parts, parse_req_key,
}

-- No field of the request holds the separator.
pub record IsPlain (r : MediaRequest) : Type 0 where
  pub media_type : Without b'|' r.media_type
  pub id : Without b'|' r.id
  pub season : Without b'|' r.season
  pub episode : Without b'|' r.episode
  pub provider : Without b'|' r.provider

provider_plain : (r : MediaRequest) → IsPlain r → Without b'|' (provider_of r)
provider_plain r p = elim (Bool-cases (text_eq r.provider [])) [
  | inl empty ↦ rw empty (refl, (refl, (refl, (refl, (refl, (refl, tt))))))
  | inr named ↦ rw named p.provider
]

season_plain : (r : MediaRequest) → IsPlain r → Without b'|' (season_of r)
season_plain r p = elim (Bool-cases (text_eq r.media_type tv)) [
  | inl series ↦ rw series p.season
  | inr other ↦ rw other (refl, tt)
]

episode_plain : (r : MediaRequest) → IsPlain r → Without b'|' (episode_of r)
episode_plain r p = elim (Bool-cases (text_eq r.media_type tv)) [
  | inl series ↦ rw series p.episode
  | inr other ↦ rw other (refl, tt)
]

-- The dashboard reads back from the key of a request what it was made of: the provider, `vixsrc`
-- where none is named, the type, the id, and for a TV request the season and the episode, "-" for
-- any other; so two requests share a key only if they agree in all of these. No field may hold the
-- separator.
pub parse_req_key-resolution_key :
    (r : MediaRequest)
    → IsPlain r
    → parse_req_key (resolution_key r)
      ≡ (provider_of r, r.media_type, r.id, season_of r, episode_of r)
unfolding parse_req_key resolution_key parse_parts
parse_req_key-resolution_key r p =
    rw
      (split-append b'|' (provider_of r)
        (r.media_type ++ b'|' ∷ (r.id ++ b'|' ∷ (season_of r ++ b'|' ∷ episode_of r)))
        (provider_plain r p))
      (rw
        (split-append b'|' r.media_type (r.id ++ b'|' ∷ (season_of r ++ b'|' ∷ episode_of r))
          p.media_type)
        (rw (split-append b'|' r.id (season_of r ++ b'|' ∷ episode_of r) p.id) (
          rw (split-append b'|' (season_of r) (episode_of r) (season_plain r p))
            (rw (split-Without b'|' (episode_of r) (episode_plain r p)) refl))))
