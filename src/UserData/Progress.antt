-- ===== src/UserData/Progress.antt =====
-- Playback progress, removals and preferences: for each key the newest edit wins.
use goflix.Base.{
  ℕ, max, [], ◌∷◌, Option, none, some, Text, text_key, text_eq_iff, ltb, leb, if◌then◌else◌, ◌≡◌,
  refl, inl, inr, arith, Bool-cases, ◌∙◌,
}
use goflix.Base.Map.{Map, lookup, insert, Distinct, lookup-insert}
use goflix.UserData.{
  ProgressEntry, UserDataState, keep_progress, is_newer, edit_progress, stamp, newest_removal,
  merge,
}

abbrev Entries : Type 0
Entries = Map Text (Option ProgressEntry)

-- A key with a nil pointer counts as absent.
abbrev pub entry_of : Option (Option ProgressEntry) → Option ProgressEntry
entry_of none = none
entry_of (some v) = v

-- The edit that wins: the client's, unless the server's is strictly newer.
abbrev pub newer_edit : Option ProgressEntry → Option ProgressEntry → Option ProgressEntry
newer_edit none client = client
newer_edit (some old) none = some old
newer_edit (some old) (some v) = if leb old.at v.at then some v else some old

entry_of-keep_progress :
    (k : Text) (m merged : Entries)
    → Distinct m
    → entry_of (lookup k (keep_progress m merged))
      ≡ elim (entry_of (lookup k m)) [ none ↦ entry_of (lookup k merged) | some v ↦ some v ]
unfolding keep_progress lookup
entry_of-keep_progress k [] merged d = refl
entry_of-keep_progress k ((j, none) ∷ m) merged d =
    ground (arith, text_eq_iff j k, entry_of-keep_progress k m merged d.1, d.0)
entry_of-keep_progress k ((j, some v) ∷ m) merged d =
    entry_of-keep_progress k m (insert j (some v) merged) d.1
    ∙ ground (arith, text_eq_iff j k, lookup-insert j k (some v) merged, d.0)

entry_of-edit_progress :
    (k : Text) (m merged : Entries)
    → Distinct m
    → entry_of (lookup k (edit_progress m merged))
      ≡ newer_edit (entry_of (lookup k merged)) (entry_of (lookup k m))
unfolding edit_progress lookup is_newer
entry_of-edit_progress k [] merged d = ground arith
entry_of-edit_progress k ((j, none) ∷ m) merged d =
    ground (arith, text_eq_iff j k, entry_of-edit_progress k m merged d.1, d.0)
entry_of-edit_progress k ((j, some v) ∷ m) merged d =
    elim (Bool-cases (is_newer v (lookup j merged))) [
      | inl wins ↦ rw wins (
          entry_of-edit_progress k m (insert j (some v) merged) d.1
          ∙ ground (arith, wins, text_eq_iff j k, lookup-insert j k (some v) merged, d.0))
      | inr loses ↦
          rw loses
            (entry_of-edit_progress k m merged d.1 ∙ ground (arith, loses, text_eq_iff j k, d.0))
    ]

-- For every title the merged progress is the client's entry or the server's, whichever was saved
-- later, and the client's if they were saved at one time or the server has none. Nothing else gets
-- in, and no entry of either side is lost to another title.
pub merge_progress :
    (st client : UserDataState) (k : Text)
    → Distinct st.progress
    → Distinct client.progress
    → entry_of (lookup k (merge st client).progress)
      ≡ newer_edit (entry_of (lookup k st.progress)) (entry_of (lookup k client.progress))
unfolding merge
merge_progress st client k ds dc =
    entry_of-edit_progress k client.progress (keep_progress st.progress []) dc
    ∙ ground (arith, entry_of-keep_progress k st.progress [] ds, nothing k)
  where
    nothing : (k : Text) → entry_of (lookup {V = Option ProgressEntry} k []) ≡ none
    nothing k = unfold lookup in refl

stamp-newest_removal :
    (k : Text) (m merged : Map Text ℕ)
    → Distinct m
    → stamp (lookup k (newest_removal m merged))
      ≡ max (stamp (lookup k m)) (stamp (lookup k merged))
unfolding newest_removal lookup
stamp-newest_removal k [] merged d = omega arith
stamp-newest_removal k ((j, at) ∷ m) merged d =
    elim (Bool-cases (ltb (stamp (lookup j merged)) at)) [
      | inl newer ↦ rw newer (
          stamp-newest_removal k m (insert j at merged) d.1
          ∙ ground (arith, newer, text_eq_iff j k, lookup-insert j k at merged, d.0))
      | inr older ↦
          rw older
            (stamp-newest_removal k m merged d.1 ∙ ground (arith, older, text_eq_iff j k, d.0))
    ]

-- The merged removal time of every title is the later of the two sides' (0 where neither has one),
-- and the preferences are the client's exactly if its clock is strictly ahead.
pub merge_removed :
    (st client : UserDataState) (k : Text)
    → Distinct client.removed
    → (stamp (lookup k (merge st client).removed)
        ≡ max (stamp (lookup k client.removed)) (stamp (lookup k st.removed)))
      × ((merge st client).avprefs_at ≡ max st.avprefs_at client.avprefs_at)
      × ((merge st client).avprefs
          ≡ (if ltb st.avprefs_at client.avprefs_at then client.avprefs else st.avprefs))
unfolding merge
merge_removed st client k d =
    (stamp-newest_removal k client.removed st.removed d, ground arith, refl)
