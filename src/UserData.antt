-- ===== src/UserData.antt =====
-- The cross-device sync of internal/server/handlers_userdata.go: one account's state and `merge`.
-- An opaque JSON item is the fields that the code decodes from it beside its bytes. Time stamps are
-- the client's clock in milliseconds and are not negative; one that is missing or malformed is 0.
pub mod Progress
pub mod Tombstones
pub mod MyList
mod Examples
use goflix.Base.{
  ℕ, ◌+◌, Bool, true, false, not, ◌&&◌, ◌||◌, List, [], ◌∷◌, ◌++◌, map, Option, none, some, Text,
  codes, text_eq, text_key, ltb, leb, if◌then◌else◌, take, any, length,
}
use goflix.Base.Map.{Map, lookup, insert}

-- `ref.ID`: null, a string, a number as `FormatFloat` prints it, or anything else.
pub data RefId : Type 0 where
  null_id other_id : RefId
  string_id number_id : Text → RefId

-- `decodes` says that the item is an object whose `type` is a string, if it has one.
pub record Item : Type 0 where
  pub raw : Text
  pub decodes : Bool
  pub ref_id : RefId
  pub ref_type : Text
  pub at : ℕ
  pub list_at : ℕ

-- `progressEntry`; the floats of the source are their printed forms.
pub record ProgressEntry : Type 0 where
  pub season : ℕ
  pub episode : ℕ
  pub position : Text
  pub duration : Text
  pub at : ℕ

-- `userDataState`; a nil pointer in `progress` is `none`.
pub record UserDataState : Type 0 where
  pub mylist : List Item
  pub progress : Map Text (Option ProgressEntry)
  pub cw : List Item
  pub removed : Map Text ℕ
  pub avprefs : Map Text Text
  pub avprefs_at : ℕ

abbrev ref_type_of : Item → Text
ref_type_of i = if text_eq i.ref_type [] then codes "movie" else i.ref_type

abbrev key_of_id : RefId → Text → Text
key_of_id null_id t = []
key_of_id other_id t = []
key_of_id (string_id s) t = t ++ b'-' ∷ s
key_of_id (number_id s) t = t ++ b'-' ∷ s

-- `mediaRefKey`
unfoldable pub media_ref_key : Item → Text
media_ref_key i = if not i.decodes then [] else key_of_id i.ref_id (ref_type_of i)

-- `seen[k]`
unfoldable pub seen_key : Text → List Text → Bool
seen_key k ks = any (λ j. text_eq j k) ks

-- The loop over a list that skips items with no key and keys that are seen already.
unfoldable pub collect : List Text → List Item → List Item
collect seen [] = []
collect seen (i ∷ items) =
    let k = media_ref_key i in
    let skip = text_eq k [] || seen_key k seen in
    let rest = collect (if skip then seen else k ∷ seen) items in if skip then rest else i ∷ rest

-- The union of the two lists, the client's first.
unfoldable pub merge_mylist : List Item → List Item → List Item
unfolding collect
merge_mylist server client =
    let mine = collect [] client in mine ++ collect (map media_ref_key mine) server

-- `for k, v := range st.Progress`
unfoldable pub keep_progress :
    Map Text (Option ProgressEntry)
    → Map Text (Option ProgressEntry)
    → Map Text (Option ProgressEntry)
keep_progress [] merged = merged
keep_progress ((k, none) ∷ m) merged = keep_progress m merged
keep_progress ((k, some v) ∷ m) merged = keep_progress m (insert k (some v) merged)

-- `!ok || v.At >= old.At`
unfoldable pub is_newer : ProgressEntry → Option (Option ProgressEntry) → Bool
is_newer v none = true
is_newer v (some none) = true
is_newer v (some (some old)) = leb old.at v.at

-- `for k, v := range in.Progress`
unfoldable pub edit_progress :
    Map Text (Option ProgressEntry)
    → Map Text (Option ProgressEntry)
    → Map Text (Option ProgressEntry)
edit_progress [] merged = merged
edit_progress ((k, none) ∷ m) merged = edit_progress m merged
edit_progress ((k, some v) ∷ m) merged =
    edit_progress m (if is_newer v (lookup k merged) then insert k (some v) merged else merged)

-- `cwAt`: the last entry of a key.
unfoldable pub cw_at : List Item → Map Text Item → Map Text Item
cw_at [] out = out
cw_at (i ∷ items) out =
    let k = media_ref_key i in cw_at items (if text_eq k [] then out else insert k i out)

abbrev newer_item : Item → Option Item → Bool
newer_item v none = true
newer_item v (some old) = leb old.at v.at

unfoldable pub newest_cw : Map Text Item → Map Text Item → Map Text Item
newest_cw [] merged = merged
newest_cw ((k, v) ∷ m) merged =
    newest_cw m (if newer_item v (lookup k merged) then insert k v merged else merged)

-- `sort.Slice` by `at`, newest first. Entries of one time keep the order of the map.
unfoldable pub insert_by_at : Item → List Item → List Item
insert_by_at i [] = i ∷ []
insert_by_at i (j ∷ items) = if ltb i.at j.at then j ∷ insert_by_at i items else i ∷ j ∷ items

unfoldable pub sort_by_at : Map Text Item → List Item
unfolding insert_by_at
sort_by_at [] = []
sort_by_at ((k, i) ∷ m) = insert_by_at i (sort_by_at m)

-- The continue-watching row holds twenty titles.
abbrev pub cw_cap : ℕ
cw_cap = 20

unfoldable pub merge_cw : List Item → List Item → List Item
unfolding cw_at newest_cw sort_by_at
merge_cw server client = take cw_cap (sort_by_at (newest_cw (cw_at client []) (cw_at server [])))

-- `m[k]` of a map of numbers
abbrev pub stamp : Option ℕ → ℕ
stamp none = 0
stamp (some n) = n

unfoldable pub newest_removal : Map Text ℕ → Map Text ℕ → Map Text ℕ
newest_removal [] merged = merged
newest_removal ((k, at) ∷ m) merged =
    newest_removal m (if ltb (stamp (lookup k merged)) at then insert k at merged else merged)

abbrev outranks : ℕ → Option ℕ → Bool
outranks at none = false
outranks at (some tomb) = leb at tomb

-- `tomb >= at`, for an item that has a key
unfoldable pub is_tombstoned : (Item → ℕ) → Map Text ℕ → Item → Bool
is_tombstoned at_field removed i =
    not (text_eq (media_ref_key i) []) && outranks (at_field i) (lookup (media_ref_key i) removed)

-- `filterTombstoned`; with no tombstones it returns the list itself, which is the same.
unfoldable pub filter_tombstoned : List Item → (Item → ℕ) → Map Text ℕ → List Item
filter_tombstoned [] at_field removed = []
filter_tombstoned (i ∷ items) at_field removed =
    if is_tombstoned at_field removed i
    then filter_tombstoned items at_field removed
    else i ∷ filter_tombstoned items at_field removed

abbrev pub list_at_of : Item → ℕ
list_at_of i = i.list_at

abbrev pub at_of : Item → ℕ
at_of i = i.at

unfoldable pub merge : UserDataState → UserDataState → UserDataState
merge st client =
    let removed = newest_removal client.removed st.removed in
    let newer = ltb st.avprefs_at client.avprefs_at in
    record {
      mylist = filter_tombstoned (merge_mylist st.mylist client.mylist) list_at_of removed;
      progress = edit_progress client.progress (keep_progress st.progress []);
      cw = filter_tombstoned (merge_cw st.cw client.cw) at_of removed;
      removed = removed;
      avprefs = if newer then client.avprefs else st.avprefs;
      avprefs_at = if newer then client.avprefs_at else st.avprefs_at;
    }
