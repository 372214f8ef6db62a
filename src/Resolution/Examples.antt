-- ===== src/Resolution/Examples.antt =====
-- One episode of a series.
use goflix.Base.{
  ℕ, Bool, true, false, [], ◌∷◌, Option, some, Text, codes, text_eq, text_key, ◌≡◌, refl, arith,
}
use goflix.Base.Map.{lookup, Distinct}
use goflix.Base.Strings.{trim_space}
use goflix.Base.Decimal.{parse_int, itoa}
use goflix.Resolution.{
  MediaRequest, ResolutionRecord, Records, tv, resolution_key, parse_req_key, remember_resolution,
  forget_resolution, lookup_resolution,
}
use goflix.Resolution.Next.{
  next_episode_number, next_prewarm_target, episode_request, itoa_succ, padded, episode_may_exist,
  rollover_target,
}
use goflix.Resolution.Keys.{IsPlain, parse_req_key-resolution_key}
use goflix.Resolution.Records.{IsBounded, remember_resolution-IsBounded}

abbrev last_of_two : MediaRequest
last_of_two = record {
  media_type = tv;
  id = codes "7";
  season = codes "1";
  episode = codes "02";
  provider = [];
}

last_of_two-IsPlain : IsPlain last_of_two
last_of_two-IsPlain = record {
  media_type = (refl, (refl, tt));
  id = (refl, tt);
  season = (refl, tt);
  episode = (refl, (refl, tt));
  provider = tt;
}

parse_req_key-resolution_key_example :
    parse_req_key (resolution_key last_of_two)
    ≡ (codes "vixsrc", tv, codes "7", codes "1", codes "02")
unfolding text_eq
parse_req_key-resolution_key_example = parse_req_key-resolution_key last_of_two last_of_two-IsPlain

abbrev a_record : ℕ → ResolutionRecord
a_record t = record {
  source = codes "u";
  headers = [];
  allowed = [];
  manifest = [];
  manifest_fp = [];
  no_revalidate = false;
  tier = [];
  created_at = t;
}

abbrev one_record : Records
one_record = (codes "old", a_record 3) ∷ []

one_record-Distinct : Distinct one_record
unfolding lookup
one_record-Distinct = (refl, tt)

one_record-IsBounded : IsBounded one_record
one_record-IsBounded = record { distinct = one_record-Distinct; capped = omega arith }

remember_resolution-IsBounded_example :
    IsBounded (remember_resolution one_record (codes "new") (a_record 0) 5)
    × IsBounded (forget_resolution one_record (codes "new"))
    × IsBounded (lookup_resolution one_record (codes "new") 5).0
remember_resolution-IsBounded_example =
    remember_resolution-IsBounded one_record (codes "new") (a_record 0) 5 one_record-IsBounded

-- The first season has two episodes.
abbrev two_episodes : Option (Text → Text → Text → Bool)
two_episodes = some (λ i s e. elim (text_eq s (codes "1")) [
  | true ↦ elim (text_eq e (codes "03")) [ true ↦ false | false ↦ true ]
  | false ↦ true
])

second_season :
    next_prewarm_target two_episodes last_of_two
    ≡ some (episode_request last_of_two (codes "2") (codes "1"))
unfolding next_prewarm_target next_episode_number parse_int trim_space itoa_succ padded itoa
    episode_may_exist rollover_target text_eq
second_season = refl
