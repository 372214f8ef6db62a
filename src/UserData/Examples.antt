-- ===== src/UserData/Examples.antt =====
-- One account on two devices.
use goflix.Base.{
  ◌∙◌, arith, ℕ, true, false, [], ◌∷◌, none, some, Text, codes, text_eq, text_key, ◌≡◌, refl,
  nat_eq,
}
use goflix.Base.Map.{lookup, Distinct}
use goflix.UserData.{
  Item, ProgressEntry, UserDataState, media_ref_key, is_tombstoned, list_at_of, merge,
  newest_removal, number_id,
}
use goflix.UserData.MyList.{find_item, or_else, survivor, mylist_lem}

abbrev heat : Text
heat = codes "movie-949"

abbrev dune : Text
dune = codes "movie-438631"

abbrev an_item : Text → ℕ → Item
an_item n t = record {
  raw = n;
  decodes = true;
  ref_id = number_id n;
  ref_type = [];
  at = t;
  list_at = t;
}

abbrev saved_at : ℕ → ProgressEntry
saved_at t = record {
  season = 1;
  episode = 2;
  position = codes "60";
  duration = codes "2700";
  at = t;
}

-- The server's Heat was added again at 30, after it was removed at 20.
abbrev server_state : UserDataState
server_state = record {
  mylist = an_item (codes "949") 30 ∷ [];
  progress = (heat, some (saved_at 5)) ∷ (dune, some (saved_at 9)) ∷ [];
  cw = an_item (codes "949") 30 ∷ [];
  removed = (heat, 20) ∷ [];
  avprefs = [];
  avprefs_at = 3;
}

-- The client still has the copy of time 10.
abbrev client_state : UserDataState
client_state = record {
  mylist = an_item (codes "949") 10 ∷ an_item (codes "438631") 12 ∷ [];
  progress = (dune, some (saved_at 7)) ∷ (heat, some (saved_at 8)) ∷ [];
  cw = an_item (codes "438631") 12 ∷ [];
  removed = [];
  avprefs = [];
  avprefs_at = 4;
}

server_progress-Distinct : Distinct server_state.progress
unfolding Distinct lookup text_eq
server_progress-Distinct = (refl, (refl, tt))

client_progress-Distinct : Distinct client_state.progress
unfolding Distinct lookup text_eq
client_progress-Distinct = (refl, (refl, tt))

server_removed-Distinct : Distinct server_state.removed
unfolding Distinct lookup
server_removed-Distinct = (refl, tt)

mylist_lem_example :
    find_item dune (merge server_state client_state).mylist
    ≡ survivor
        (merge server_state client_state).removed
        (or_else (find_item dune client_state.mylist) (find_item dune server_state.mylist))
mylist_lem_example = mylist_lem server_state client_state dune (unfold text_eq in refl)

old_copy : find_item heat client_state.mylist ≡ some (an_item (codes "949") 10)
unfolding find_item media_ref_key text_eq
old_copy = refl

old_copy-removed :
    is_tombstoned list_at_of (merge server_state client_state).removed (an_item (codes "949") 10)
    ≡ true
unfolding is_tombstoned merge media_ref_key newest_removal text_eq lookup
old_copy-removed = refl

-- The server's own copy was added again after the removal.
new_copy :
    is_tombstoned list_at_of (merge server_state client_state).removed (an_item (codes "949") 30)
    ≡ false
unfolding is_tombstoned merge media_ref_key newest_removal text_eq lookup
new_copy = refl

-- It is lost all the same, since the client's older copy is preferred.
older_copy_wins : find_item heat (merge server_state client_state).mylist ≡ none
older_copy_wins =
    mylist_lem server_state client_state heat (unfold text_eq in refl)
    ∙ rw old_copy (ground (arith, old_copy-removed))
