-- ===== src/UserData/MyList.antt =====
-- My List: the union of the two lists by media key, the client's items first.
use goflix.Base.{
  ℕ, true, false, ◌||◌, List, [], ◌∷◌, ◌++◌, map, Option, none, some, Text, text_eq, text_key,
  text_eq_iff, if◌then◌else◌, ◌≡◌, refl, sym, inl, inr, arith, Bool-cases, ◌⊎◌, ◌∙◌, ap, is_some,
}
use goflix.Base.Map.{Map}
use goflix.UserData.{
  Item, UserDataState, media_ref_key, seen_key, collect, merge_mylist, is_tombstoned,
  filter_tombstoned, list_at_of, merge,
}

-- The first item of a key.
unfoldable pub find_item : Text → List Item → Option Item
find_item k [] = none
find_item k (i ∷ items) = if text_eq (media_ref_key i) k then some i else find_item k items

abbrev pub or_else : Option Item → Option Item → Option Item
or_else none other = other
or_else (some i) other = some i

-- Every item has a key, and no two have the same.
unfoldable pub KeysDistinct : List Item → Type 0
KeysDistinct [] = Unit
KeysDistinct (i ∷ items) =
    (text_eq (media_ref_key i) [] ≡ false)
    × (find_item (media_ref_key i) items ≡ none)
    × KeysDistinct items

text_eq_refl : (k : Text) → text_eq k k ≡ true
text_eq_refl k = (text_eq_iff k k).1 refl

seen_cons : (k j : Text) (seen : List Text) → seen_key k (j ∷ seen) ≡ text_eq j k || seen_key k seen
unfolding seen_key
seen_cons k j seen = refl

find_item-append :
    (k : Text) (xs ys : List Item)
    → find_item k (xs ++ ys) ≡ or_else (find_item k xs) (find_item k ys)
unfolding find_item
find_item-append k [] ys = refl
find_item-append k (i ∷ xs) ys = ground (arith, find_item-append k xs ys)

seen-map :
    (k : Text) (xs : List Item) → seen_key k (map media_ref_key xs) ≡ is_some (find_item k xs)
unfolding find_item seen_key
seen-map k [] = refl
seen-map k (i ∷ xs) = ground (arith, seen-map k xs)

find_item-collect :
    (k : Text) (seen : List Text) (items : List Item)
    → text_eq k [] ≡ false
    → find_item k (collect seen items) ≡ (if seen_key k seen then none else find_item k items)
unfolding find_item collect
find_item-collect k seen [] h = ground arith
find_item-collect k seen (i ∷ items) h =
    elim (Bool-cases (text_eq (media_ref_key i) [] || seen_key (media_ref_key i) seen)) [
      | inl skip ↦ rw skip (
          find_item-collect k seen items h
          ∙ ground (arith, skip, h, text_eq_iff (media_ref_key i) k))
      | inr new ↦ rw new (
          ground (
            arith,
            new,
            h,
            text_eq_iff (media_ref_key i) k,
            find_item-collect k (media_ref_key i ∷ seen) items h,
            seen_cons k (media_ref_key i) seen,
          ))
    ]

collect-KeysDistinct : (seen : List Text) (items : List Item) → KeysDistinct (collect seen items)
unfolding KeysDistinct collect
collect-KeysDistinct seen [] = tt
collect-KeysDistinct seen (i ∷ items) =
    elim (Bool-cases (text_eq (media_ref_key i) [] || seen_key (media_ref_key i) seen)) [
      | inl skip ↦ rw skip (collect-KeysDistinct seen items)
      | inr new ↦ rw new (
        ground (arith, new),
        fresh (ground (arith, new)),
        collect-KeysDistinct (media_ref_key i ∷ seen) items,
      )
    ]
  where
    fresh :
        text_eq (media_ref_key i) [] ≡ false
        → find_item (media_ref_key i) (collect (media_ref_key i ∷ seen) items) ≡ none
    fresh h =
        find_item-collect (media_ref_key i) (media_ref_key i ∷ seen) items h
        ∙ ground (
          arith,
          seen_cons (media_ref_key i) (media_ref_key i) seen,
          text_eq_refl (media_ref_key i),
        )

append-KeysDistinct :
    (xs ys : List Item)
    → KeysDistinct xs
    → KeysDistinct ys
    → ((k : Text) → text_eq k [] ≡ false → is_some (find_item k xs) ≡ true → find_item k ys ≡ none)
    → KeysDistinct (xs ++ ys)
unfolding KeysDistinct
append-KeysDistinct [] ys dx dy apart = dy
append-KeysDistinct (i ∷ xs) ys dx dy apart = (
  dx.0,
  ground (
    arith,
    find_item-append (media_ref_key i) xs ys,
    dx.1,
    apart (media_ref_key i) dx.0
        (found i xs (media_ref_key i) (inl (text_eq_refl (media_ref_key i)))),
  ),
  append-KeysDistinct xs ys dx.2 dy (λ k h some_k. apart k h (found i xs k (inr some_k))),
)
  where
    found :
        (i : Item) (xs : List Item) (k : Text)
        → (text_eq (media_ref_key i) k ≡ true) ⊎ (is_some (find_item k xs) ≡ true)
        → is_some (find_item k (i ∷ xs)) ≡ true
    found i xs k (inl h) = unfold find_item in ground (arith, h)
    found i xs k (inr h) = unfold find_item in ground (arith, h)

merge_mylist-KeysDistinct : (server client : List Item) → KeysDistinct (merge_mylist server client)
unfolding merge_mylist
merge_mylist-KeysDistinct server client =
    append-KeysDistinct mine (collect (map media_ref_key mine) server)
      (collect-KeysDistinct [] client) (collect-KeysDistinct (map media_ref_key mine) server)
      (λ k h some_k.
        find_item-collect k (map media_ref_key mine) server h
        ∙ ground (arith, seen-map k mine, some_k))
  where
    mine : List Item
    mine = collect [] client

find_item-merge_mylist :
    (k : Text) (server client : List Item)
    → text_eq k [] ≡ false
    → find_item k (merge_mylist server client) ≡ or_else (find_item k client) (find_item k server)
unfolding merge_mylist
find_item-merge_mylist k server client h =
    find_item-append k (collect [] client) (collect (map media_ref_key (collect [] client)) server)
    ∙ ground (
      arith,
      find_item-collect k [] client h,
      nothing_seen k,
      find_item-collect k (map media_ref_key (collect [] client)) server h,
      seen-map k (collect [] client),
    )
  where
    nothing_seen : (k : Text) → seen_key k [] ≡ false
    nothing_seen k = unfold seen_key in refl

-- An item that a removal outranks is gone.
abbrev pub survivor : Map Text ℕ → Option Item → Option Item
survivor removed none = none
survivor removed (some i) = if is_tombstoned list_at_of removed i then none else some i

find_item-filter_none :
    (k : Text) (f : Item → ℕ) (removed : Map Text ℕ) (items : List Item)
    → find_item k items ≡ none
    → find_item k (filter_tombstoned items f removed) ≡ none
unfolding find_item filter_tombstoned
find_item-filter_none k f removed [] h = refl
find_item-filter_none k f removed (i ∷ items) h =
    ground (arith, h, find_item-filter_none k f removed items)

find_item-filter_tombstoned :
    (k : Text) (removed : Map Text ℕ) (items : List Item)
    → KeysDistinct items
    → find_item k (filter_tombstoned items list_at_of removed)
      ≡ survivor removed (find_item k items)
unfolding find_item filter_tombstoned KeysDistinct
find_item-filter_tombstoned k removed [] d = refl
find_item-filter_tombstoned k removed (i ∷ items) d =
    elim (Bool-cases (text_eq (media_ref_key i) k)) [
      | inl same ↦ ground (
        arith,
        same,
        find_item-filter_none k list_at_of removed items
            (ap (λ j. find_item j items) (sym ((text_eq_iff (media_ref_key i) k).0 same)) ∙ d.1),
      )
      | inr other ↦ ground (arith, other, find_item-filter_tombstoned k removed items d.2)
    ]

filter_tombstoned-KeysDistinct :
    (f : Item → ℕ) (removed : Map Text ℕ) (items : List Item)
    → KeysDistinct items
    → KeysDistinct (filter_tombstoned items f removed)
unfolding KeysDistinct filter_tombstoned
filter_tombstoned-KeysDistinct f removed [] d = tt
filter_tombstoned-KeysDistinct f removed (i ∷ items) d =
    elim (Bool-cases (is_tombstoned f removed i)) [
      | inl dead ↦ rw dead (filter_tombstoned-KeysDistinct f removed items d.2)
      | inr alive ↦ rw alive (
        d.0,
        find_item-filter_none (media_ref_key i) f removed items d.1,
        filter_tombstoned-KeysDistinct f removed items d.2,
      )
    ]

-- For every key the merged list has the item of the client, or else the server's, unless the merged
-- removals outrank it. So it is the union of both sides less what was removed. The item of a side
-- is its first with that key.
pub mylist_lem :
    (st client : UserDataState) (k : Text)
    → text_eq k [] ≡ false
    → find_item k (merge st client).mylist
      ≡ survivor
          (merge st client).removed
          (or_else (find_item k client.mylist) (find_item k st.mylist))
unfolding merge
mylist_lem st client k h =
    find_item-filter_tombstoned k (merge st client).removed (merge_mylist st.mylist client.mylist)
      (merge_mylist-KeysDistinct st.mylist client.mylist)
    ∙ ap (survivor (merge st client).removed) (find_item-merge_mylist k st.mylist client.mylist h)

-- The merged list holds no title twice, and nothing without a key, whatever the two sides hold.
pub mylist_unique : (st client : UserDataState) → KeysDistinct (merge st client).mylist
unfolding merge
mylist_unique st client =
    filter_tombstoned-KeysDistinct list_at_of (merge st client).removed
      (merge_mylist st.mylist client.mylist) (merge_mylist-KeysDistinct st.mylist client.mylist)
