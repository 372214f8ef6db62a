-- ===== src/Catalog/Examples.antt =====
-- A title that two caches have.
use goflix.Base.{[], ◌∷◌, ◌≤◌, codes, ltb, length}
use goflix.Catalog.{Movie, Caches, home_view}
use goflix.Catalog.Home.{DistinctKeys, home_view-DistinctKeys}

abbrev alien : Movie
alien = record {
  id = codes "348";
  kind = codes "movie";
  rating = 8;
  categories = codes "Horror" ∷ codes "Sci-Fi" ∷ [];
}

abbrev heat : Movie
heat = record {
  id = codes "949";
  kind = codes "movie";
  rating = 7;
  categories = codes "Horror" ∷ [];
}

abbrev caches : Caches
caches = record { movies = alien ∷ heat ∷ []; tv_shows = []; popular_items = alien ∷ [] }

home_view-DistinctKeys_example :
    DistinctKeys (home_view (λ a b. ltb b a) caches)
    × (length (home_view (λ a b. ltb b a) caches) ≤ 440)
home_view-DistinctKeys_example = home_view-DistinctKeys (λ a b. ltb b a) caches
