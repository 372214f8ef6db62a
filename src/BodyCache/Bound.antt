-- ===== src/BodyCache/Bound.antt =====
-- The byte budget of the body cache: the counter is exact, and stays within the budget.
use goflix.Base.{
  ℕ, suc, zero, ◌+◌, ◌≤◌, ◌<◌, List, [], ◌∷◌, none, some, Text, text_eq, text_eq_iff, length, ltb,
  ◌≡◌, refl, ◌≢◌, inl, inr, arith, Bool-cases, Option-cases, ◌∙◌, ltb→lt,
}
use goflix.BodyCache.{
  CacheEntry, BodyCache, find_entry, drop_entry, remove_locked, get, get_stale, back, evict, admit,
  put,
}

-- The bytes that a list of entries holds.
abbrev pub bytes_of : List CacheEntry → ℕ
bytes_of [] = 0
bytes_of (e ∷ es) = length e.body + bytes_of es

-- No two entries have one key: `c.items` is a map.
abbrev pub DistinctKeys : List CacheEntry → Type 0
DistinctKeys [] = Unit
DistinctKeys (e ∷ es) = (find_entry e.key es ≡ none) × DistinctKeys es

pub record IsValid (c : BodyCache) : Type 0 where
  pub counted : c.cur_bytes ≡ bytes_of c.order
  pub distinct : DistinctKeys c.order
  pub bounded : c.cur_bytes ≤ c.max_bytes

pub bytes_of-drop_entry :
    (k : Text) (es : List CacheEntry) (e : CacheEntry)
    → find_entry k es ≡ some e
    → bytes_of (drop_entry k es) + length e.body ≡ bytes_of es
unfolding find_entry drop_entry
bytes_of-drop_entry k [] e h = ground arith
bytes_of-drop_entry k (x ∷ es) e h = ground (arith, bytes_of-drop_entry k es e)

pub find_entry-drop_entry_ne :
    (k j : Text) (es : List CacheEntry) → k ≢ j → find_entry j (drop_entry k es) ≡ find_entry j es
unfolding find_entry drop_entry
find_entry-drop_entry_ne k j [] h = refl
find_entry-drop_entry_ne k j (x ∷ es) h =
    ground (arith, text_eq_iff x.key k, text_eq_iff x.key j, find_entry-drop_entry_ne k j es)

pub find_entry_key :
    (k : Text) (es : List CacheEntry) (e : CacheEntry) → find_entry k es ≡ some e → e.key ≡ k
unfolding find_entry
find_entry_key k [] e h = ground arith
find_entry_key k (x ∷ es) e h = ground (arith, text_eq_iff x.key k, find_entry_key k es e)

find_entry-drop_entry-none :
    (k j : Text) (es : List CacheEntry)
    → find_entry j es ≡ none
    → find_entry j (drop_entry k es) ≡ none
unfolding find_entry drop_entry
find_entry-drop_entry-none k j [] h = refl
find_entry-drop_entry-none k j (x ∷ es) h = ground (arith, find_entry-drop_entry-none k j es)

pub find_entry-drop_entry_self :
    (k : Text) (es : List CacheEntry) → DistinctKeys es → find_entry k (drop_entry k es) ≡ none
unfolding find_entry drop_entry
find_entry-drop_entry_self k [] d = refl
find_entry-drop_entry_self k (x ∷ es) d =
    ground (arith, text_eq_iff x.key k, find_entry-drop_entry_self k es d.1)

pub drop_entry-DistinctKeys :
    (k : Text) (es : List CacheEntry) → DistinctKeys es → DistinctKeys (drop_entry k es)
unfolding drop_entry
drop_entry-DistinctKeys k [] d = tt
drop_entry-DistinctKeys k (x ∷ es) d = elim (Bool-cases (text_eq x.key k)) [
  | inl same ↦ rw same (d.1)
  | inr other ↦
      rw other (find_entry-drop_entry-none k x.key es d.0, drop_entry-DistinctKeys k es d.1)
]

-- `Back` is an element of the list, found under its own key.
pub find_entry-back :
    (es : List CacheEntry) (e : CacheEntry)
    → DistinctKeys es
    → back es ≡ some e
    → find_entry e.key es ≡ some e
unfolding find_entry back
find_entry-back [] e d h = ground arith
find_entry-back (x ∷ []) e d h = ground (arith, text_eq_iff x.key e.key)
find_entry-back (x ∷ y ∷ es) e d h =
    let later = find_entry-back (y ∷ es) e d.1 h in
    ground (arith, text_eq_iff x.key e.key, later, d.0)

pub length-drop_entry :
    (k : Text) (es : List CacheEntry) (e : CacheEntry)
    → find_entry k es ≡ some e
    → length (drop_entry k es) + 1 ≡ length es
unfolding find_entry drop_entry
length-drop_entry k [] e h = ground arith
length-drop_entry k (x ∷ es) e h = ground (arith, length-drop_entry k es e)

back-cons : (y : CacheEntry) (es : List CacheEntry) → (e : CacheEntry) × (back (y ∷ es) ≡ some e)
unfolding back
back-cons y [] = (y, refl)
back-cons y (z ∷ es) = back-cons z es

-- A cache that is over its budget has an element to give up.
pub back_of_bytes : (es : List CacheEntry) → 0 < bytes_of es → back es ≢ none
back_of_bytes [] h = absurd (omega arith)
back_of_bytes (x ∷ es) h = let (e, found) = back-cons x es in ground (arith, found)

-- What eviction starts from: an exact counter over distinct keys.
pub record IsCounted (c : BodyCache) : Type 0 where
  pub counted : c.cur_bytes ≡ bytes_of c.order
  pub distinct : DistinctKeys c.order

pub remove_locked-IsCounted :
    (c : BodyCache) (k : Text) (e : CacheEntry)
    → IsCounted c
    → find_entry k c.order ≡ some e
    → IsCounted (remove_locked c e)
unfolding remove_locked
remove_locked-IsCounted c k e v h =
    let same = find_entry_key k c.order e h in
    let h' : find_entry e.key c.order ≡ some e = ground (arith, same, h) in
    record {
      counted = omega (arith, bytes_of-drop_entry e.key c.order e h', v.counted);
      distinct = drop_entry-DistinctKeys e.key c.order v.distinct;
    }

pub evict-IsValid :
    (fuel : ℕ) (c : BodyCache)
    → IsCounted c
    → length c.order ≤ fuel
    → IsValid (evict fuel c) × ((evict fuel c).max_bytes ≡ c.max_bytes)
unfolding evict
evict-IsValid zero c v h = (
  record {
    counted = v.counted;
    distinct = v.distinct;
    bounded = omega (arith, v.counted, empty_bytes c.order (omega arith));
  },
  refl,
)
  where
    empty_bytes : (es : List CacheEntry) → length es ≤ 0 → bytes_of es ≡ 0
    empty_bytes [] h = refl
    empty_bytes (x ∷ es) h = absurd (omega arith)
evict-IsValid (suc fuel) c v h = elim (Bool-cases (ltb c.max_bytes c.cur_bytes)) [
  | inr fits ↦
      rw (fits, evict)
        (record { counted = v.counted; distinct = v.distinct; bounded = ground arith }, refl)
  | inl over ↦ elim (Option-cases (back c.order)) [
    | inl empty ↦ absurd (back_of_bytes c.order (omega (arith, v.counted, ltb→lt _ _ over)) empty)
    | inr (e, last) ↦
        let found = find_entry-back c.order e v.distinct last in
        let (valid, same) =
          evict-IsValid fuel (remove_locked c e) (remove_locked-IsCounted c e.key e v found)
            (unfold remove_locked in omega (arith, length-drop_entry e.key c.order e found)) in
        rw (over, evict) (rw last (valid, same ∙ (unfold remove_locked in refl)))
  ]
]

pub admit-IsCounted : (c : BodyCache) (e : CacheEntry) → IsValid c → IsCounted (admit c e)
unfolding admit
admit-IsCounted c e v = elim (Option-cases (find_entry e.key c.order)) [
  | inl new ↦
      rw (new, admit) (record { counted = omega (arith, v.counted); distinct = (new, v.distinct) })
  | inr (old, found) ↦
      rw (found, admit)
        (record {
          counted = omega (arith, v.counted, bytes_of-drop_entry e.key c.order old found);
          distinct = (
            find_entry-drop_entry_self e.key c.order v.distinct,
            drop_entry-DistinctKeys e.key c.order v.distinct,
          );
        })
]

-- `put` keeps the cache valid: the counter is the number of bytes held, no key is held twice, and
-- the budget is not exceeded, whether the body is refused, replaces an older one or is new.
pub put-IsValid : (c : BodyCache) (e : CacheEntry) → IsValid c → IsValid (put c e)
unfolding put
put-IsValid c e v = elim (Bool-cases (ltb c.max_bytes (length e.body))) [
  | inl refused ↦ rw refused v
  | inr kept ↦
      rw kept
        (evict-IsValid (length (admit c e).order) (admit c e) (admit-IsCounted c e v)
          (omega arith)).0
]

move_to_front-IsValid :
    (c : BodyCache) (k : Text) (e : CacheEntry)
    → IsValid c
    → find_entry k c.order ≡ some e
    → IsValid (record c { order = e ∷ drop_entry e.key c.order })
move_to_front-IsValid c k e v h =
    let same = find_entry_key k c.order e h in
    let h' : find_entry e.key c.order ≡ some e = ground (arith, same, h) in
    record {
      counted = omega (arith, v.counted, bytes_of-drop_entry e.key c.order e h');
      distinct = (
        find_entry-drop_entry_self e.key c.order v.distinct,
        drop_entry-DistinctKeys e.key c.order v.distinct,
      );
      bounded = v.bounded;
    }

-- `get` keeps the cache valid on each of its three branches: a miss, an expired entry, which it
-- removes, and a hit, which it moves to the front.
pub get-IsValid : (c : BodyCache) (k : Text) (now : ℕ) → IsValid c → IsValid (get c k now).0
unfolding get
get-IsValid c k now v = elim (Option-cases (find_entry k c.order)) [
  | inl miss ↦ rw (miss, get) v
  | inr (e, found) ↦ elim (Bool-cases (ltb e.expires_at now)) [
    | inl expired ↦
        let w =
          remove_locked-IsCounted c k e (record { counted = v.counted; distinct = v.distinct })
            found in
        rw (found, get)
          (rw expired (record {
            counted = w.counted;
            distinct = w.distinct;
            bounded = unfold remove_locked in omega (arith, v.bounded);
          }))
    | inr live ↦ rw (found, get) (rw live (move_to_front-IsValid c k e v found))
  ]
]

pub get_stale-IsValid : (c : BodyCache) (k : Text) → IsValid c → IsValid (get_stale c k).0
unfolding get_stale
get_stale-IsValid c k v = elim (Option-cases (find_entry k c.order)) [
  | inl miss ↦ rw (miss, get_stale) v
  | inr (e, found) ↦ rw (found, get_stale) (move_to_front-IsValid c k e v found)
]
