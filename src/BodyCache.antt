-- ===== src/BodyCache.antt =====
-- The byte-bounded LRU of upstream bodies: `cacheEntry` and `bodyCache` of
-- internal/mediaresolver/cache.go. `order` is the list `c.order`, front first; the map `c.items`
-- from a key to its list element is the search of `order` by key. Times are nanoseconds.
pub mod Bound
pub mod Eviction
pub mod Contents
mod Examples
use goflix.Base.{
  ℕ, suc, zero, ◌+◌, ◌-◌, Bool, true, false, List, [], ◌∷◌, Option, none, some, Text, text_eq,
  length, ltb, leb, if◌then◌else◌,
}

pub record CacheEntry : Type 0 where
  pub key : Text
  pub body : Text
  pub status : ℕ
  pub content_type : Text
  pub expires_at : ℕ

pub record BodyCache : Type 0 where
  pub max_bytes : ℕ
  pub cur_bytes : ℕ
  pub order : List CacheEntry

unfoldable pub new_body_cache : ℕ → BodyCache
new_body_cache max_bytes = record { max_bytes = max_bytes; cur_bytes = 0; order = [] }

-- `c.items[key]`
unfoldable pub find_entry : Text → List CacheEntry → Option CacheEntry
find_entry key [] = none
find_entry key (e ∷ es) = if text_eq e.key key then some e else find_entry key es

-- The list without the element of a key.
unfoldable pub drop_entry : Text → List CacheEntry → List CacheEntry
drop_entry key [] = []
drop_entry key (e ∷ es) = if text_eq e.key key then es else e ∷ drop_entry key es

-- `c.order.MoveToFront(el)`, for the element that holds `e`
abbrev pub move_to_front : CacheEntry → List CacheEntry → List CacheEntry
move_to_front e es = e ∷ drop_entry e.key es

-- `removeLocked`
unfoldable pub remove_locked : BodyCache → CacheEntry → BodyCache
remove_locked c e = record c {
  cur_bytes = c.cur_bytes - length e.body;
  order = drop_entry e.key c.order;
}

unfoldable pub get : BodyCache → Text → ℕ → BodyCache × Option CacheEntry
get c key now = elim (find_entry key c.order) [
  | none ↦ (c, none)
  | some e ↦
      if ltb e.expires_at now
      then (remove_locked c e, none)
      else (record c { order = move_to_front e c.order }, some e)
]

unfoldable pub get_stale : BodyCache → Text → BodyCache × Option CacheEntry
get_stale c key = elim (find_entry key c.order) [
  | none ↦ (c, none)
  | some e ↦ (record c { order = move_to_front e c.order }, some e)
]

-- `c.order.Back()`
unfoldable pub back : List CacheEntry → Option CacheEntry
back [] = none
back (e ∷ []) = some e
back (e ∷ f ∷ es) = back (f ∷ es)

-- `for c.curBytes > c.maxBytes`, with fuel; a cache never needs more rounds than it has elements.
unfoldable pub evict : ℕ → BodyCache → BodyCache
evict zero c = c
evict (suc fuel) c = elim (ltb c.max_bytes c.cur_bytes) [
  | true ↦ elim (back c.order) [ none ↦ c | some oldest ↦ evict fuel (remove_locked c oldest) ]
  | false ↦ c
]

-- The element of the key replaced, or a new one pushed at the front; the bytes accounted.
unfoldable pub admit : BodyCache → CacheEntry → BodyCache
admit c e = elim (find_entry e.key c.order) [
  | none ↦ record c { cur_bytes = c.cur_bytes + length e.body; order = e ∷ c.order }
  | some old ↦ record c {
    cur_bytes = c.cur_bytes - length old.body + length e.body;
    order = e ∷ drop_entry e.key c.order;
  }
]

unfoldable pub put : BodyCache → CacheEntry → BodyCache
put c e =
    if ltb c.max_bytes (length e.body)
    then c
    else (let stored = admit c e in evict (length stored.order) stored)
