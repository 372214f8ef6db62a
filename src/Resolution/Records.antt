-- ===== src/Resolution/Records.antt =====
-- The records that are remembered: how many there are, and which one is dropped.
use goflix.Base.{
  ℕ, suc, ◌+◌, ◌≤◌, ◌<◌, false, [], ◌∷◌, none, some, Text, text_eq, text_eq_iff, text_key, ltb,
  length, is_some, ◌≡◌, refl, ap, ◌∙◌, inl, inr, ◌⊎◌, arith, Bool-cases, Option-cases,
}
use goflix.Base.Map.{
  lookup, insert, Distinct, insert-Distinct, erase-Distinct, length-insert, length-erase-le,
  length-erase-lt, erase, lookup-insert, lookup-erase,
}
use goflix.Resolution.{
  ResolutionRecord, Records, older, oldest, key_or_empty, evict_oldest, remember_resolution,
  lookup_resolution, forget_resolution, is_stale, max_resolution_records, resolution_ttl,
}

-- One record to a key, and not more than the cap.
pub record IsBounded (m : Records) : Type 0 where
  pub distinct : Distinct m
  pub capped : length m ≤ max_resolution_records

-- The pick among the records of a map and one more candidate
record Pick (m : Records) (c d : Text × ℕ) : Type 0 where
  least : d.1 ≤ c.1
  least_of : (j : Text) (w : ResolutionRecord) → lookup j m ≡ some w → d.1 ≤ w.created_at
  found : (d ≡ c) ⊎ ((v : ResolutionRecord) × (lookup d.0 m ≡ some v) × (d.1 ≡ v.created_at))

older_cases :
    (j : Text) (w : ResolutionRecord) (c : Text × ℕ)
    → ((older j w (some c) ≡ some c) × (c.1 ≤ w.created_at))
      ⊎ ((older j w (some c) ≡ some (j, w.created_at)) × (w.created_at ≤ c.1))
unfolding older
older_cases j w c = elim (Bool-cases (ltb w.created_at c.1)) [
  | inl less ↦ inr (rw less refl, ground (arith, less))
  | inr more ↦ inl (rw more refl, ground (arith, more))
]

head_found : (j : Text) (w : ResolutionRecord) (m : Records) → lookup j ((j, w) ∷ m) ≡ some w
unfolding lookup
head_found j w m = rw ((text_eq_iff j j).1 refl) refl

tail_found :
    (j k : Text) (w v : ResolutionRecord) (m : Records)
    → lookup j m ≡ none
    → lookup k m ≡ some v
    → lookup k ((j, w) ∷ m) ≡ some v
unfolding lookup
tail_found j k w v m new h = ground (arith, new, h, text_eq_iff j k)

least_cons :
    (t : ℕ) (j k : Text) (w v : ResolutionRecord) (m : Records)
    → t ≤ w.created_at
    → ((lookup k m ≡ some v) → t ≤ v.created_at)
    → lookup k ((j, w) ∷ m) ≡ some v
    → t ≤ v.created_at
unfolding lookup
least_cons t j k w v m first rest h = elim (Bool-cases (text_eq j k)) [
  | inl here ↦ ground (arith, here, h, first)
  | inr there ↦ rest (ground (arith, there, h))
]

oldest-Pick :
    (m : Records) (c : Text × ℕ)
    → Distinct m
    → (d : Text × ℕ) × (oldest m (some c) ≡ some d) × Pick m c d
unfolding oldest
oldest-Pick [] c distinct =
    (c, refl, record { least = omega arith; least_of = λ j w h. nothing j w h; found = inl refl })
  where
    nothing : (j : Text) (w : ResolutionRecord) → lookup j [] ≡ some w → c.1 ≤ w.created_at
    nothing j w h = unfold lookup in ground (arith, h)
oldest-Pick ((j, w) ∷ m) c distinct = elim (older_cases j w c) [
  | inl (kept, le) ↦
      let (d, e, p) = oldest-Pick m c distinct.1 in
      (
        d,
        (rw kept e),
        record {
          least = p.least;
          least_of =
              λ k v h. least_cons d.1 j k w v m (omega (arith, le, p.least)) (p.least_of k v) h;
          found = elim p.found [
            | inl same ↦ inl same
            | inr (v, l, t) ↦ inr (v, tail_found j d.0 w v m distinct.0 l, t)
          ];
        },
      )
  | inr (taken, le) ↦
      let (d, e, p) = oldest-Pick m (j, w.created_at) distinct.1 in
      (
        d,
        (rw taken e),
        record {
          least = omega (arith, le, p.least);
          least_of = λ k v h. least_cons d.1 j k w v m p.least (p.least_of k v) h;
          found = elim p.found [
            | inl same ↦
                inr
                  (w, ap (λ x. lookup x.0 ((j, w) ∷ m)) same ∙ head_found j w m, ap (λ x. x.1) same)
            | inr (v, l, t) ↦ inr (v, tail_found j d.0 w v m distinct.0 l, t)
          ];
        },
      )
]

-- A map that is not empty has an oldest record, under the key that the loop finds.
oldest_record :
    (m : Records)
    → Distinct m
    → 1 ≤ length m
    → (v : ResolutionRecord) × (lookup (key_or_empty (oldest m none)) m ≡ some v)
      × ((k : Text) (w : ResolutionRecord) → lookup k m ≡ some w → v.created_at ≤ w.created_at)
unfolding oldest older
oldest_record [] distinct some_record = absurd (omega arith)
oldest_record ((j, w) ∷ m) distinct some_record =
    let (d, e, p) = oldest-Pick m (j, w.created_at) distinct.1 in
    rw e (elim p.found [
      | inl same ↦ (
        w,
        ap (λ x. lookup x.0 ((j, w) ∷ m)) same ∙ head_found j w m,
        λ k v h.
            least_cons w.created_at j k w v m (omega arith)
              (λ l. omega (arith, p.least_of k v l, ap (λ x. x.1) same)) h,
      )
      | inr (u, l, t) ↦ (
        u,
        tail_found j d.0 w u m distinct.0 l,
        λ k v h.
            least_cons u.created_at j k w v m (omega (arith, p.least, t))
              (λ x. omega (arith, p.least_of k v x, t)) h,
      )
    ])

evict_oldest-IsBounded :
    (m : Records) → Distinct m → length m ≤ suc max_resolution_records → IsBounded (evict_oldest m)
unfolding evict_oldest
evict_oldest-IsBounded m distinct few = elim (Bool-cases (ltb max_resolution_records (length m))) [
  | inr fits ↦ rw fits (record { distinct = distinct; capped = ground (arith, fits) })
  | inl over ↦
      let (v, l, least) = oldest_record m distinct (ground (arith, over)) in
      let shorter = length-erase-lt (key_or_empty (oldest m none)) m (ap is_some l) in
      rw over (record {
        distinct = erase-Distinct (key_or_empty (oldest m none)) m distinct;
        capped = omega (arith, few, shorter);
      })
]

erase-IsBounded : (m : Records) (key : Text) → IsBounded m → IsBounded (erase key m)
erase-IsBounded m key b = record {
  distinct = erase-Distinct key m b.distinct;
  capped = omega (arith, length-erase-le key m, b.capped);
}

remembered :
    (m : Records) (key : Text) (rec : ResolutionRecord) (now : ℕ)
    → IsBounded m
    → IsBounded (remember_resolution m key rec now)
unfolding remember_resolution
remembered m key rec now b = elim (Bool-cases (text_eq rec.source [])) [
  | inl empty ↦ rw empty b
  | inr named ↦ rw named (
      evict_oldest-IsBounded (insert key (record rec { created_at = now }) m)
        (insert-Distinct key (record rec { created_at = now }) m b.distinct)
        (ground (arith, length-insert key (record rec { created_at = now }) m, b.capped)))
]

looked_up :
    (m : Records) (key : Text) (now : ℕ) → IsBounded m → IsBounded (lookup_resolution m key now).0
unfolding lookup_resolution
looked_up m key now b = elim (Option-cases (lookup key m)) [
  | inl absent ↦ rw (absent, lookup_resolution) b
  | inr (rec, found) ↦ elim (Bool-cases (is_stale now rec)) [
    | inl stale ↦ rw (found, lookup_resolution) (rw stale (erase-IsBounded m key b))
    | inr fresh ↦ rw (found, lookup_resolution) (rw fresh b)
  ]
]

-- Remembering a record, forgetting one and looking one up keep the cache bounded: a key has one
-- record, and there are at most 512.
pub remember_resolution-IsBounded :
    (m : Records) (key : Text) (rec : ResolutionRecord) (now : ℕ)
    → IsBounded m
    → IsBounded (remember_resolution m key rec now)
      × IsBounded (forget_resolution m key)
      × IsBounded (lookup_resolution m key now).0
unfolding forget_resolution
remember_resolution-IsBounded m key rec now b =
    (remembered m key rec now b, erase-IsBounded m key b, looked_up m key now b)

evict_oldest_lem :
    (m : Records) (k : Text) (v : ResolutionRecord)
    → Distinct m
    → lookup k m ≡ some v
    → (lookup k (evict_oldest m) ≡ some v)
      ⊎ ((j : Text) (w : ResolutionRecord) → lookup j m ≡ some w → v.created_at ≤ w.created_at)
unfolding evict_oldest
evict_oldest_lem m k v distinct h = elim (Bool-cases (ltb max_resolution_records (length m))) [
  | inr fits ↦ rw fits (inl h)
  | inl over ↦
      let (u, l, least) = oldest_record m distinct (ground (arith, over)) in
      rw over (elim (Bool-cases (text_eq (key_or_empty (oldest m none)) k)) [
        | inl evicted ↦
            let same : u ≡ v =
              ground (arith, l, h, (text_eq_iff (key_or_empty (oldest m none)) k).0 evicted) in
            inr (λ j w x. omega (arith, least j w x, ap (λ r. r.created_at) same))
        | inr kept ↦ inl (lookup-erase (key_or_empty (oldest m none)) k m ∙ ground (arith, kept, h))
      ])
]

-- A resolution that is remembered replays for a day: the lookup of its key finds the record with
-- the time of storing, whatever the cap evicts, if some record of another key is strictly older.
pub lookup_resolution-remember_resolution :
    (m : Records) (key : Text) (rec : ResolutionRecord) (now later : ℕ) (j : Text)
    (w : ResolutionRecord)
    → Distinct m
    → text_eq rec.source [] ≡ false
    → text_eq key j ≡ false
    → lookup j m ≡ some w
    → w.created_at < now
    → later ≤ now + resolution_ttl
    → (lookup_resolution (remember_resolution m key rec now) key later).1
      ≡ some (record rec { created_at = now })
unfolding remember_resolution lookup_resolution
lookup_resolution-remember_resolution m key rec now later j w distinct named other there older_w
      soon =
    elim (evict_oldest_lem stored key fresh (insert-Distinct key fresh m distinct) here) [
      | inl kept ↦ rw (named, kept, lookup_resolution) (ground (arith, soon))
      | inr first ↦ absurd (
          omega (
            arith,
            first j w (lookup-insert key j fresh m ∙ ground (arith, other, there)),
            older_w,
          ))
    ]
  where
    fresh : ResolutionRecord
    fresh = record rec { created_at = now }

    stored : Records
    stored = insert key fresh m

    here : lookup key stored ≡ some fresh
    here = lookup-insert key key fresh m ∙ rw ((text_eq_iff key key).1 refl) refl
