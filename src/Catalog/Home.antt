-- ===== src/Catalog/Home.antt =====
-- The home page shows a title once, in rows of twenty at most.
use goflix.Base.{
  All-weaken, All-append, sublist_nil, List, [], ◌∷◌, ◌++◌, ℕ, suc, ◌+◌, ◌*◌, ◌≤◌, ◌<◌, Bool, false,
  ◌||◌, Text, text_eq_iff, leb, length, map, ◌≡◌, refl, inl, inr, All, Bool-cases, arith,
  length-append,
}
use mathlib.Core.List.{Sublistᴰ}
use goflix.Catalog.{
  Movie, interleave_movies, key_of, Source, home_row_order, Caches, row_items, is_seen, fill_row,
  fill_rows, home_view,
}

abbrev keys_of : List Movie → List Text
keys_of = map key_of

abbrev pub DistinctKeys : List Movie → Type 0
DistinctKeys [] = Unit
DistinctKeys (m ∷ ms) = (is_seen (key_of m) (keys_of ms) ≡ false) × DistinctKeys ms

abbrev IsFresh : List Text → Movie → Type 0
IsFresh seen m = is_seen (key_of m) seen ≡ false

-- What a row shows from `count` items on, behind the keys `seen`
record IsRow (count : ℕ) (seen : List Text) (r : List Movie × List Text) : Type 0 where
  pub fresh : All (IsFresh seen) (r.0)
  pub distinct : DistinctKeys (r.0)
  pub few : count ≤ 20 → count + length (r.0) ≤ 20
  pub noted : (key : Text) → is_seen key (r.1) ≡ is_seen key (keys_of (r.0)) || is_seen key seen

-- A key that none of the fresh items has
not_among :
    (key : Text) (seen : List Text) (ms : List Movie)
    → All (IsFresh (key ∷ seen)) ms
    → is_seen key (keys_of ms) ≡ false
not_among key seen [] h = refl
not_among key seen (m ∷ ms) h = ground (
  arith,
  h.0,
  text_eq_iff key (key_of m),
  text_eq_iff (key_of m) key,
  not_among key seen ms (h.1),
)

nothing_shown : (count : ℕ) (seen : List Text) → IsRow count seen ([], seen)
nothing_shown count seen = record {
  fresh = tt;
  distinct = tt;
  few = λ h. ground (arith, h);
  noted = λ key. refl;
}

one_shown :
    (cat : Text) (m : Movie) (count : ℕ) (seen : List Text) (r : List Movie × List Text)
    → is_seen (key_of m) seen ≡ false
    → count < 20
    → IsRow (suc count) (key_of m ∷ seen) r
    → IsRow count seen (record m { categories = cat ∷ [] } ∷ r.0, r.1)
one_shown cat m count seen r new room h = record {
  fresh = (
    new,
    All-weaken (IsFresh (key_of m ∷ seen)) (IsFresh seen) (λ x f. ground (arith, f)) (r.0) h.fresh,
  );
  distinct = (not_among (key_of m) seen (r.0) h.fresh, h.distinct);
  few = λ small. ground (arith, h.few, room);
  noted = λ key. ground (arith, h.noted key);
}

fill_row-IsRow :
    (cat : Text) (ms : List Movie) (count : ℕ) (seen : List Text)
    → IsRow count seen (fill_row cat ms count seen)
unfolding fill_row
fill_row-IsRow cat [] count seen = nothing_shown count seen
fill_row-IsRow cat (m ∷ ms) count seen = elim (Bool-cases (leb 20 count)) [
  | inl full ↦ rw (full, fill_row) (nothing_shown count seen)
  | inr room ↦ elim (Bool-cases (is_seen (key_of m) seen)) [
    | inl old ↦ rw (room, fill_row) (rw old (fill_row-IsRow cat ms count seen))
    | inr new ↦
        rw (room, fill_row)
          (rw new (
            one_shown cat m count seen (fill_row cat ms (suc count) (key_of m ∷ seen)) new
              (ground (arith, room)) (fill_row-IsRow cat ms (suc count) (key_of m ∷ seen))))
  ]
]

is_seen-append :
    (key : Text) (xs ys : List Movie)
    → is_seen key (keys_of (xs ++ ys)) ≡ is_seen key (keys_of xs) || is_seen key (keys_of ys)
is_seen-append key [] ys = refl
is_seen-append key (x ∷ xs) ys = ground (arith, is_seen-append key xs ys)

-- Two rows, the later one fresh
DistinctKeys-append :
    (xs ys : List Movie)
    → DistinctKeys xs
    → DistinctKeys ys
    → All (λ y. is_seen (key_of y) (keys_of xs) ≡ false) ys
    → DistinctKeys (xs ++ ys)
DistinctKeys-append [] ys d e f = e
DistinctKeys-append (x ∷ xs) ys d e f = (
  ground (arith, is_seen-append (key_of x) xs ys, d.0, unlike x xs ys f),
  DistinctKeys-append xs ys (d.1) e (
      All-weaken (λ y. is_seen (key_of y) (keys_of (x ∷ xs)) ≡ false)
        (λ y. is_seen (key_of y) (keys_of xs) ≡ false) (λ y h. ground (arith, h)) ys f),
)
  where
    unlike :
        (x : Movie) (xs ys : List Movie)
        → All (λ y. is_seen (key_of y) (keys_of (x ∷ xs)) ≡ false) ys
        → is_seen (key_of x) (keys_of ys) ≡ false
    unlike x xs [] f = refl
    unlike x xs (y ∷ ys) f = ground (
      arith,
      f.0,
      text_eq_iff (key_of x) (key_of y),
      text_eq_iff (key_of y) (key_of x),
      unlike x xs ys (f.1),
    )

-- What the rows show behind the keys `seen`
record IsPage (rows : ℕ) (seen : List Text) (ms : List Movie) : Type 0 where
  pub page_fresh : All (IsFresh seen) ms
  pub page_distinct : DistinctKeys ms
  pub page_few : length ms ≤ 20 * rows

another_row :
    (rows : ℕ) (seen : List Text) (r : List Movie × List Text) (rest : List Movie)
    → IsRow 0 seen r
    → IsPage rows (r.1) rest
    → IsPage (suc rows) seen (r.0 ++ rest)
another_row rows seen r rest h k = record {
  page_fresh = All-append (IsFresh seen) (r.0) rest h.fresh (
      All-weaken (IsFresh (r.1)) (IsFresh seen) (λ m f. ground (arith, f, h.noted (key_of m))) rest
        k.page_fresh);
  page_distinct = DistinctKeys-append (r.0) rest h.distinct k.page_distinct (
      All-weaken (IsFresh (r.1)) (λ m. is_seen (key_of m) (keys_of (r.0)) ≡ false)
        (λ m f. ground (arith, f, h.noted (key_of m))) rest k.page_fresh);
  page_few = ground (arith, length-append (r.0) rest, h.few, k.page_few);
}

fill_rows-IsPage :
    (higher : ℕ → ℕ → Bool) (s : Caches) (rows : List (Text × Source)) (seen : List Text)
    → IsPage (length rows) seen (fill_rows higher s rows seen)
unfolding fill_rows
fill_rows-IsPage higher s [] seen = record {
  page_fresh = tt;
  page_distinct = tt;
  page_few = ground arith;
}
fill_rows-IsPage higher s ((cat, src) ∷ rows) seen =
    let r = fill_row cat (row_items higher s cat src) 0 seen in
    another_row (length rows) seen r (fill_rows higher s rows (r.1))
      (fill_row-IsRow cat (row_items higher s cat src) 0 seen)
      (fill_rows-IsPage higher s rows (r.1))

-- Whatever the caches hold and however the ratings compare, no two items of the home page have one
-- type and id, and it has 440 items at most.
pub home_view-DistinctKeys :
    (higher : ℕ → ℕ → Bool) (s : Caches)
    → DistinctKeys (home_view higher s) × (length (home_view higher s) ≤ 440)
unfolding home_view
home_view-DistinctKeys higher s =
    let page = fill_rows-IsPage higher s home_row_order [] in
    (page.page_distinct, ground (arith, page.page_few))

whole : (ms : List Movie) → Sublistᴰ ms ms
whole [] = Sublistᴰ.slnil
whole (m ∷ ms) = Sublistᴰ.cons-cons refl (whole ms)

-- Interleaving keeps every item of both lists, each list in its order.
pub interleave_movies_lem :
    (a b : List Movie)
    → Sublistᴰ a (interleave_movies a b)
      × Sublistᴰ b (interleave_movies a b)
      × (length (interleave_movies a b) ≡ length a + length b)
unfolding interleave_movies
interleave_movies_lem [] b = (sublist_nil b, whole b, ground arith)
interleave_movies_lem (x ∷ a) [] = (whole (x ∷ a), sublist_nil (x ∷ a), ground arith)
interleave_movies_lem (x ∷ a) (y ∷ b) =
    let (p, q, n) = interleave_movies_lem a b in
    (
      Sublistᴰ.cons-cons refl (Sublistᴰ.cons p),
      Sublistᴰ.cons (Sublistᴰ.cons-cons refl q),
      ground (arith, n),
    )
