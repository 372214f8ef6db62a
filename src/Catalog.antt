-- ===== src/Catalog.antt =====
-- The home page: `HomeView` and `InterleaveMovies` of internal/catalog/store.go. The order of two
-- ratings, which are floating-point numbers, is a parameter.
pub mod Home
mod Examples
use goflix.Base.{
  List, [], ◌∷◌, ◌++◌, ℕ, suc, ◌+◌, Bool, true, false, not, ◌||◌, Text, codes, text_eq, leb, length,
  any, if◌then◌else◌,
}

-- `Movie`, less what is only shown; the rating is the bits of a floating-point number.
pub record Movie : Type 0 where
  pub id : Text
  pub kind : Text
  pub rating : ℕ
  pub categories : List Text

unfoldable pub interleave_movies : List Movie → List Movie → List Movie
interleave_movies [] b = b
interleave_movies (x ∷ a) [] = x ∷ a
interleave_movies (x ∷ a) (y ∷ b) = x ∷ y ∷ interleave_movies a b

-- `m.Type + "-" + m.ID`
abbrev pub key_of : Movie → Text
key_of m = m.kind ++ (codes "-" ++ m.id)

unfoldable pub tagged : Text → Movie → List Text → List Movie
tagged cat m [] = []
tagged cat m (c ∷ cs) = if text_eq c cat then m ∷ tagged cat m cs else tagged cat m cs

-- The items under a category, in the order of the cache
unfoldable pub by_category : Text → List Movie → List Movie
by_category cat [] = []
by_category cat (m ∷ ms) = tagged cat m m.categories ++ by_category cat ms

-- A category of the movies, with that of the cache's own name for it behind.
unfoldable pub movies_by_category : Text → List Movie → List Movie
movies_by_category cat ms =
    by_category cat ms
    ++ (if text_eq cat (codes "Trending Movies")
        then by_category (codes "Trending Now") ms
        else if text_eq cat (codes "Popular Movies")
        then by_category (codes "Popular") ms
        else if text_eq cat (codes "Top Rated Movies")
        then by_category (codes "Top Rated") ms
        else [])

pub data Source : Type 0 where
  movie : Source
  tv : Source
  popular : Source

abbrev pub home_row_order : List (Text × Source)
home_row_order =
    (codes "Trending Movies", movie)
    ∷ (codes "Trending TV", tv)
    ∷ (codes "Trending This Week", popular)
    ∷ (codes "Popular Movies", movie)
    ∷ (codes "Popular Shows", tv)
    ∷ (codes "Top Rated Movies", movie)
    ∷ (codes "Top Rated Shows", tv)
    ∷ (codes "Upcoming", movie)
    ∷ (codes "New in Cinemas", popular)
    ∷ (codes "New Episodes", popular)
    ∷ (codes "Action", movie)
    ∷ (codes "Action & Adventure", tv)
    ∷ (codes "Comedy", movie)
    ∷ (codes "Comedy Shows", tv)
    ∷ (codes "Horror", movie)
    ∷ (codes "Sci-Fi", movie)
    ∷ (codes "Sci-Fi & Fantasy", tv)
    ∷ (codes "Drama", tv)
    ∷ (codes "Mystery", tv)
    ∷ (codes "Romance", movie)
    ∷ (codes "Animation", movie)
    ∷ (codes "Anime", tv)
    ∷ []

-- `sort.SliceStable` by a strict order
unfoldable pub insert_stable : (ℕ → ℕ → Bool) → Movie → List Movie → List Movie
insert_stable higher m [] = m ∷ []
insert_stable higher m (x ∷ xs) =
    if higher x.rating m.rating then x ∷ insert_stable higher m xs else m ∷ x ∷ xs

unfoldable pub sort_stable : (ℕ → ℕ → Bool) → List Movie → List Movie
sort_stable higher [] = []
sort_stable higher (m ∷ ms) = insert_stable higher m (sort_stable higher ms)

-- The three caches
pub record Caches : Type 0 where
  pub movies : List Movie
  pub tv_shows : List Movie
  pub popular_items : List Movie

unfoldable pub source_items : Caches → Text → Source → List Movie
source_items s cat movie = movies_by_category cat s.movies
source_items s cat tv = by_category cat s.tv_shows
source_items s cat popular = by_category cat s.popular_items

unfoldable pub row_items : (ℕ → ℕ → Bool) → Caches → Text → Source → List Movie
row_items higher s cat src =
    let items =
      if text_eq cat (codes "Trending This Week")
      then interleave_movies (by_category (codes "Trending Movies") s.popular_items)
          (by_category (codes "Trending Shows") s.popular_items)
      else source_items s cat src in
    if text_eq cat (codes "Top Rated Movies") || text_eq cat (codes "Top Rated Shows")
    then sort_stable higher items
    else items

abbrev pub is_seen : Text → List Text → Bool
is_seen key seen = any (λ k. text_eq k key) seen

-- One row: the items that it shows, with its category, and the keys that are seen then.
unfoldable pub fill_row : Text → List Movie → ℕ → List Text → List Movie × List Text
fill_row cat [] count seen = ([], seen)
fill_row cat (m ∷ ms) count seen = elim (leb 20 count) [
  | true ↦ ([], seen)
  | false ↦ elim (is_seen (key_of m) seen) [
    | true ↦ fill_row cat ms count seen
    | false ↦
        let (shown, seen') = fill_row cat ms (suc count) (key_of m ∷ seen) in
        (record m { categories = cat ∷ [] } ∷ shown, seen')
  ]
]

unfoldable pub fill_rows : (ℕ → ℕ → Bool) → Caches → List (Text × Source) → List Text → List Movie
fill_rows higher s [] seen = []
fill_rows higher s ((cat, src) ∷ rows) seen =
    let (shown, seen') = fill_row cat (row_items higher s cat src) 0 seen in
    shown ++ fill_rows higher s rows seen'

unfoldable pub home_view : (ℕ → ℕ → Bool) → Caches → List Movie
home_view higher s = fill_rows higher s home_row_order []
