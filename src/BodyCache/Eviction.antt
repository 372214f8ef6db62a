-- ===== src/BodyCache/Eviction.antt =====
-- What the body cache holds after `put`, against a specification with no loop.
use goflix.Base.{
  ℕ, suc, zero, ◌-◌, ◌≤◌, ◌<◌, List, [], ◌∷◌, none, some, Text, text_eq_iff, length, ltb, leb,
  if◌then◌else◌, ◌≡◌, refl, ◌≢◌, inl, inr, arith, Bool-cases, Option-cases, sym, ap, ◌∙◌, ltb→lt,
}
use goflix.BodyCache.{
  CacheEntry, BodyCache, find_entry, drop_entry, remove_locked, get, back, evict, admit, put,
}
use goflix.BodyCache.Bound.{
  bytes_of, DistinctKeys, IsValid, IsCounted, find_entry-back, find_entry-drop_entry_ne,
  remove_locked-IsCounted, admit-IsCounted, length-drop_entry, back_of_bytes,
}

-- The longest prefix of the recency list that fits the budget.
unfoldable pub fit : ℕ → List CacheEntry → List CacheEntry
fit max [] = []
fit max (e ∷ es) = if leb (length e.body) max then e ∷ fit (max - length e.body) es else []

abbrev drop_last : List CacheEntry → List CacheEntry
drop_last [] = []
drop_last (e ∷ []) = []
drop_last (e ∷ f ∷ es) = e ∷ drop_last (f ∷ es)

fit-drop_last :
    (max : ℕ) (es : List CacheEntry) → max < bytes_of es → fit max (drop_last es) ≡ fit max es
unfolding fit
fit-drop_last max [] h = absurd (omega arith)
fit-drop_last max (e ∷ []) h = ground arith
fit-drop_last max (e ∷ f ∷ es) h = ground (arith, fit-drop_last (max - length e.body) (f ∷ es))

fit_all : (max : ℕ) (es : List CacheEntry) → bytes_of es ≤ max → fit max es ≡ es
unfolding fit
fit_all max [] h = refl
fit_all max (e ∷ es) h = ground (arith, fit_all (max - length e.body) es)

drop_entry-back :
    (es : List CacheEntry) (e : CacheEntry)
    → DistinctKeys es
    → back es ≡ some e
    → drop_entry e.key es ≡ drop_last es
unfolding drop_entry back
drop_entry-back [] e d h = refl
drop_entry-back (x ∷ []) e d h = ground (arith, text_eq_iff x.key e.key)
drop_entry-back (x ∷ y ∷ es) e d h = ground (
  arith,
  text_eq_iff x.key e.key,
  drop_entry-back (y ∷ es) e d.1 h,
  find_entry-back (y ∷ es) e d.1 h,
  d.0,
)

drop_entry_absent :
    (k : Text) (es : List CacheEntry) → find_entry k es ≡ none → drop_entry k es ≡ es
unfolding find_entry drop_entry
drop_entry_absent k [] h = refl
drop_entry_absent k (x ∷ es) h = ground (arith, drop_entry_absent k es)

remove_locked-fit :
    (c : BodyCache) (e : CacheEntry)
    → IsCounted c
    → back c.order ≡ some e
    → c.max_bytes < bytes_of c.order
    → fit (remove_locked c e).max_bytes (remove_locked c e).order ≡ fit c.max_bytes c.order
unfolding remove_locked
remove_locked-fit c e v last big =
    ap (fit c.max_bytes) (drop_entry-back c.order e v.distinct last)
    ∙ fit-drop_last c.max_bytes c.order big

evict-fit :
    (fuel : ℕ) (c : BodyCache)
    → IsCounted c
    → length c.order ≤ fuel
    → (evict fuel c).order ≡ fit c.max_bytes c.order
unfolding evict
evict-fit zero c v h = nothing c.order (omega arith)
  where
    nothing : (es : List CacheEntry) → length es ≤ 0 → es ≡ fit c.max_bytes es
    nothing [] h = sym (fit_all c.max_bytes [] (omega arith))
    nothing (x ∷ es) h = absurd (omega arith)
evict-fit (suc fuel) c v h = elim (Bool-cases (ltb c.max_bytes c.cur_bytes)) [
  | inr fits ↦ rw (fits, evict) (sym (fit_all c.max_bytes c.order (ground (arith, v.counted))))
  | inl over ↦ elim (Option-cases (back c.order)) [
    | inl empty ↦ absurd (back_of_bytes c.order (omega (arith, v.counted, ltb→lt _ _ over)) empty)
    | inr (e, last) ↦
        let found = find_entry-back c.order e v.distinct last in
        let big : c.max_bytes < bytes_of c.order = omega (arith, v.counted, ltb→lt _ _ over) in
        let rest =
          evict-fit fuel (remove_locked c e) (remove_locked-IsCounted c e.key e v found)
            (unfold remove_locked in omega (arith, length-drop_entry e.key c.order e found)) in
        let left = remove_locked-fit c e v last big in rw (over, evict) (rw last (rest ∙ left))
  ]
]

admit_fields :
    (c : BodyCache) (e : CacheEntry)
    → ((admit c e).order ≡ e ∷ drop_entry e.key c.order) × ((admit c e).max_bytes ≡ c.max_bytes)
unfolding admit
admit_fields c e = elim (Option-cases (find_entry e.key c.order)) [
  | inl new ↦ rw (new, admit) (ap (◌∷◌ e) (sym (drop_entry_absent e.key c.order new)), refl)
  | inr (old, found) ↦ rw (found, admit) (refl, refl)
]

-- After `put` the cache holds the longest prefix that fits the budget of the new entry followed by
-- the other entries in their order of use, so what is evicted is always the least recently used;
-- a body larger than the whole budget changes nothing.
pub put-fit :
    (c : BodyCache) (e : CacheEntry)
    → IsValid c
    → (put c e).order ≡ (
        if ltb c.max_bytes (length e.body)
        then c.order
        else fit c.max_bytes (e ∷ drop_entry e.key c.order))
unfolding put
put-fit c e v = elim (Bool-cases (ltb c.max_bytes (length e.body))) [
  | inl refused ↦ rw refused
  | inr kept ↦
      let (order, max) = admit_fields c e in
      rw kept (
        evict-fit (length (admit c e).order) (admit c e) (admit-IsCounted c e v) (omega arith)
        ∙ (rw (order, max)))
]

find_entry-fit :
    (j : Text) (max : ℕ) (es : List CacheEntry) (f : CacheEntry)
    → find_entry j (fit max es) ≡ some f
    → find_entry j es ≡ some f
unfolding find_entry fit
find_entry-fit j max [] f h = h
find_entry-fit j max (e ∷ es) f h = ground (arith, find_entry-fit j (max - length e.body) es f)

-- A stored body that fits the budget is found again under its key until it expires.
pub get-put :
    (c : BodyCache) (e : CacheEntry) (now : ℕ)
    → IsValid c
    → length e.body ≤ c.max_bytes
    → now ≤ e.expires_at
    → (get (put c e) e.key now).1 ≡ some e
unfolding get
get-put c e now v small live =
    let found : find_entry e.key (put c e).order ≡ some e =
      rw (put-fit c e v) (unfold find_entry fit in ground (arith, text_eq_iff e.key e.key)) in
    rw (found, get) (ground arith)

-- `put` invents nothing: whatever it leaves under another key was there before.
pub find_entry-put_ne :
    (c : BodyCache) (e f : CacheEntry) (j : Text)
    → IsValid c
    → e.key ≢ j
    → find_entry j (put c e).order ≡ some f
    → find_entry j c.order ≡ some f
find_entry-put_ne c e f j v ne h =
    let h' = rw (put-fit c e v) at h in
    elim (Bool-cases (ltb c.max_bytes (length e.body))) [
      | inl refused ↦ rw refused at h'
      | inr kept ↦
          let inside =
            find_entry-fit j c.max_bytes (e ∷ drop_entry e.key c.order) f (rw kept at h') in
          unfold find_entry in
          ground (arith, inside, text_eq_iff e.key j, find_entry-drop_entry_ne e.key j c.order ne)
    ]
