-- ===== src/UserData/Tombstones.antt =====
-- Removals: nothing that the merged removals outrank is in a merged list.
use goflix.Base.{
  ℕ, ◌≤◌, false, List, [], ◌∷◌, Text, ◌≡◌, inl, inr, arith, Bool-cases, All, length, length-take-le,
  text_key,
}
use goflix.Base.Map.{Map}
use goflix.UserData.{
  Item, UserDataState, is_tombstoned, filter_tombstoned, list_at_of, at_of, merge, merge_cw, cw_cap,
  cw_at, newest_cw, sort_by_at,
}

filter_tombstoned-All :
    (f : Item → ℕ) (removed : Map Text ℕ) (items : List Item)
    → All (λ i. is_tombstoned f removed i ≡ false) (filter_tombstoned items f removed)
unfolding filter_tombstoned
filter_tombstoned-All f removed [] = tt
filter_tombstoned-All f removed (i ∷ items) = elim (Bool-cases (is_tombstoned f removed i)) [
  | inl dead ↦ rw dead (filter_tombstoned-All f removed items)
  | inr alive ↦ rw alive (alive, filter_tombstoned-All f removed items)
]

length-filter_tombstoned-le :
    (f : Item → ℕ) (removed : Map Text ℕ) (items : List Item)
    → length (filter_tombstoned items f removed) ≤ length items
unfolding filter_tombstoned
length-filter_tombstoned-le f removed [] = omega arith
length-filter_tombstoned-le f removed (i ∷ items) =
    ground (arith, length-filter_tombstoned-le f removed items)

length-merge_cw-le : (server client : List Item) → length (merge_cw server client) ≤ cw_cap
unfolding merge_cw
length-merge_cw-le server client =
    length-take-le cw_cap (sort_by_at (newest_cw (cw_at client []) (cw_at server [])))

-- No item of the merged list or the merged row carries a time at or before the merged removal of
-- its key, and the row holds twenty titles at most. The list is judged by `listAt` and the row by
-- `at`.
pub merge_tombstoned :
    (st client : UserDataState)
    → All
        (λ i. is_tombstoned list_at_of (merge st client).removed i ≡ false)
        (merge st client).mylist
      × All (λ i. is_tombstoned at_of (merge st client).removed i ≡ false) (merge st client).cw
      × (length (merge st client).cw ≤ cw_cap)
unfolding merge
merge_tombstoned st client = (
  filter_tombstoned-All list_at_of (merge st client).removed _,
  filter_tombstoned-All at_of (merge st client).removed _,
  omega (
    arith,
    length-merge_cw-le st.cw client.cw,
    length-filter_tombstoned-le at_of (merge st client).removed (merge_cw st.cw client.cw),
  ),
)
