-- ===== src/BodyCache/Examples.antt =====
-- The body cache at concrete inputs: a budget of five bytes.
use goflix.Base.{
  some, ◌≢◌, ◌↔◌, ◌≤◌, text_ne, ◌≡◌, refl, arith, [], ◌∷◌, Text, codes, text_eq, if◌then◌else◌, ltb,
  length,
}
use goflix.BodyCache.{
  CacheEntry, BodyCache, new_body_cache, put, get, find_entry, drop_entry, evict, admit, back,
  remove_locked,
}
use goflix.BodyCache.Bound.{IsValid, put-IsValid}
use goflix.BodyCache.Contents.{get_lem}
use goflix.BodyCache.Eviction.{fit, put-fit}

abbrev entry : Text → Text → CacheEntry
entry key body = record {
  key = key;
  body = body;
  status = 200;
  content_type = [];
  expires_at = 100;
}

abbrev seg_a : CacheEntry
seg_a = entry (codes "/a") (codes "aa")

abbrev seg_b : CacheEntry
seg_b = entry (codes "/b") (codes "bb")

abbrev seg_c : CacheEntry
seg_c = entry (codes "/c") (codes "ccc")

abbrev two : BodyCache
two = record { max_bytes = 5; cur_bytes = 4; order = seg_b ∷ seg_a ∷ [] }

program : Unit {0}
unfolding new_body_cache put get find_entry drop_entry evict admit back remove_locked text_eq
program = tt

two_puts : put (put (new_body_cache 5) seg_a) seg_b ≡ two
unfolding program
two_puts = refl

-- The third body pushes out the oldest one.
put_evicts : put two seg_c ≡ record two { cur_bytes = 5; order = seg_c ∷ seg_b ∷ [] }
unfolding program
put_evicts = refl

two-IsValid : IsValid two
unfolding find_entry text_eq
two-IsValid = record { counted = refl; distinct = (refl, (refl, tt)); bounded = omega arith }

put-IsValid_example : IsValid (put two seg_c)
put-IsValid_example = put-IsValid two seg_c two-IsValid

put-fit_example : (put two seg_c).order ≡ (
    if ltb 5 (length seg_c.body)
    then two.order
    else fit 5 (seg_c ∷ drop_entry (codes "/c") two.order))
put-fit_example = put-fit two seg_c two-IsValid

a-ne-b : codes "/a" ≢ codes "/b"
unfolding text_eq
a-ne-b = text_ne (codes "/a") (codes "/b") refl

get_lem_example :
    (((get two (codes "/a") 7).1 ≡ some seg_a)
      ↔ ((find_entry (codes "/a") two.order ≡ some seg_a) × (7 ≤ 100)))
    × (find_entry (codes "/a") (get two (codes "/a") 7).0.order ≡ (get two (codes "/a") 7).1)
    × (find_entry (codes "/b") (get two (codes "/a") 7).0.order ≡ find_entry (codes "/b") two.order)
get_lem_example = get_lem two (codes "/a") (codes "/b") 7 seg_a two-IsValid a-ne-b

-- The entry is there, and is found until it expires.
a_found : find_entry (codes "/a") two.order ≡ some seg_a
unfolding find_entry text_eq
a_found = refl
