-- ===== src/BodyCache/Contents.antt =====
-- What a look-up in the body cache answers, and what it leaves.
use goflix.Base.{
  ℕ, ◌≤◌, Option, none, some, Text, text_eq, text_eq_iff, ltb, if◌then◌else◌, ◌≡◌, refl, ◌≢◌, inl,
  inr, arith, Bool-cases, Option-cases, sym, ap, ◌∙◌, ◌↔◌,
}
use goflix.BodyCache.{CacheEntry, BodyCache, find_entry, remove_locked, get}
use goflix.BodyCache.Bound.{
  IsValid, find_entry_key, find_entry-drop_entry_ne, find_entry-drop_entry_self,
}

-- A look-up by its result.
get_cases :
    (c : BodyCache) (k : Text) (now : ℕ)
    → IsValid c
    → ((e : CacheEntry)
        → ((get c k now).1 ≡ some e) ↔ ((find_entry k c.order ≡ some e) × (now ≤ e.expires_at)))
      × ((j : Text) → k ≢ j → find_entry j (get c k now).0.order ≡ find_entry j c.order)
      × ((get c k now).1 ≡ none → find_entry k (get c k now).0.order ≡ none)
unfolding get
get_cases c k now v = elim (Option-cases (find_entry k c.order)) [
  | inl miss ↦ rw (miss, get) (λ e. ground arith, λ j ne. refl, λ _. miss)
  | inr (e, found) ↦
      let same = find_entry_key k c.order e found in
      elim (Bool-cases (ltb e.expires_at now)) [
        | inl expired ↦
            rw (found, get)
              (rw expired (
                λ f. ground arith,
                λ j ne. unfold remove_locked in rw same (find_entry-drop_entry_ne k j c.order ne),
                λ _.
                    unfold remove_locked in
                    rw same (find_entry-drop_entry_self k c.order v.distinct),
              ))
        | inr live ↦
            rw (found, get)
              (rw live (
                λ f. ground arith,
                λ j ne.
                    unfold find_entry in
                    ground
                      (arith, text_eq_iff e.key j, same, find_entry-drop_entry_ne e.key j c.order),
                λ h. absurd (ground arith),
              ))
      ]
]

-- What a look-up answers is what the cache then holds under the key.
find_entry-get :
    (c : BodyCache) (k : Text) (now : ℕ)
    → IsValid c
    → find_entry k (get c k now).0.order ≡ (get c k now).1
unfolding get
find_entry-get c k now v = elim (Option-cases (find_entry k c.order)) [
  | inl miss ↦ rw (miss, get) miss
  | inr (x, found) ↦
      let same = find_entry_key k c.order x found in
      elim (Bool-cases (ltb x.expires_at now)) [
        | inl expired ↦
            rw (found, get)
              (rw expired
                (unfold remove_locked in rw same (find_entry-drop_entry_self k c.order v.distinct)))
        | inr live ↦
            rw (found, get)
              (rw live (unfold find_entry in ground (arith, text_eq_iff x.key k, same)))
      ]
]

-- `get` answers exactly with an entry of the cache under the key that has not expired. What it
-- answers is what the cache then holds under the key, so an entry found expired is forgotten, and
-- every other key is left as it was.
pub get_lem :
    (c : BodyCache) (k j : Text) (now : ℕ) (e : CacheEntry)
    → IsValid c
    → k ≢ j
    → (((get c k now).1 ≡ some e) ↔ ((find_entry k c.order ≡ some e) × (now ≤ e.expires_at)))
      × (find_entry k (get c k now).0.order ≡ (get c k now).1)
      × (find_entry j (get c k now).0.order ≡ find_entry j c.order)
get_lem c k j now e v ne =
    let known = get_cases c k now v in (known.0 e, find_entry-get c k now v, known.1 j ne)

-- The answer is read off the entry under the key.
abbrev unexpired : ℕ → Option CacheEntry → Option CacheEntry
unexpired now none = none
unexpired now (some e) = if ltb e.expires_at now then none else some e

get_answer :
    (c : BodyCache) (k : Text) (now : ℕ) → (get c k now).1 ≡ unexpired now (find_entry k c.order)
unfolding get
get_answer c k now = elim (Option-cases (find_entry k c.order)) [
  | inl miss ↦ rw (miss, get) refl
  | inr (e, found) ↦ elim (Bool-cases (ltb e.expires_at now)) [
    | inl expired ↦ rw (found, get) (rw expired refl)
    | inr live ↦ rw (found, get) (rw live refl)
  ]
]

unexpired_idem :
    (now : ℕ) (o : Option CacheEntry) → unexpired now (unexpired now o) ≡ unexpired now o
unexpired_idem now none = refl
unexpired_idem now (some e) = ground arith

get_twice :
    (c : BodyCache) (k : Text) (now : ℕ)
    → IsValid c
    → (get (get c k now).0 k now).1 ≡ (get c k now).1
get_twice c k now v =
    get_answer (get c k now).0 k now
    ∙ (ap (unexpired now) (find_entry-get c k now v ∙ get_answer c k now)
        ∙ (unexpired_idem now (find_entry k c.order) ∙ sym (get_answer c k now)))

-- Looking up one key changes no later answer at the same time.
pub get-get :
    (c : BodyCache) (j k : Text) (now : ℕ)
    → IsValid c
    → (get (get c j now).0 k now).1 ≡ (get c k now).1
get-get c j k now v = elim (Bool-cases (text_eq j k)) [
  | inr apart ↦
      let kept : find_entry k (get c j now).0.order ≡ find_entry k c.order =
        (get_cases c j now v).1 k (ground (arith, text_eq_iff j k, apart)) in
      get_answer (get c j now).0 k now ∙ (ap (unexpired now) kept ∙ sym (get_answer c k now))
  | inl same ↦ let e : j ≡ k = (text_eq_iff j k).0 same in rw e (get_twice c k now v)
]
