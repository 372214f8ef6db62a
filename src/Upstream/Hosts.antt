-- ===== src/Upstream/Hosts.antt =====
-- The addresses and hosts that are never fetched: `IsBlockedIP` and `blockedUpstreamHost` of
-- internal/mediaresolver/netutil.go. `net.ParseIP` and the DNS are parameters.
pub mod Ranges
pub mod Verdicts
mod Examples
use goflix.Base.{
  List, [], ◌∷◌, ℕ, ◌+◌, ◌*◌, ◌/◌, ◌%◌, ◌^◌, Bool, true, false, ◌&&◌, ◌||◌, Option, none, some,
  Text, codes, text_eq, text_key, ◌==◌, ltb, leb, if◌then◌else◌,
}
use goflix.Base.Strings.{trim_space, to_lower}
use goflix.Base.Map.{Map, lookup, insert, erase}

-- `net.IP`: an address that `To4` knows, as its four bytes, or the sixteen bytes of another.
pub data Ip : Type 0 where
  v4 : ℕ → ℕ → ℕ → ℕ → Ip
  v6 : Text → Ip

-- `b & 0xc0 == 0x40` and the like: the bits of a byte above `bits` low ones.
abbrev pub high : ℕ → ℕ → ℕ
high bits b = b / 2 ^ bits

unfoldable pub is_loopback : Ip → Bool
is_loopback (v4 a b c d) = a == 127
is_loopback (v6 s) = text_eq s (0 ∷ 0 ∷ 0 ∷ 0 ∷ 0 ∷ 0 ∷ 0 ∷ 0 ∷ 0 ∷ 0 ∷ 0 ∷ 0 ∷ 0 ∷ 0 ∷ 0 ∷ 1 ∷ [])

unfoldable pub is_private : Ip → Bool
is_private (v4 a b c d) = a == 10 || ((a == 172 && high 4 b == 1) || (a == 192 && b == 168))
is_private (v6 []) = false
is_private (v6 (a ∷ s)) = high 1 a == 126

unfoldable pub is_link_local_unicast : Ip → Bool
is_link_local_unicast (v4 a b c d) = a == 169 && b == 254
is_link_local_unicast (v6 (a ∷ b ∷ s)) = a == 254 && high 6 b == 2
is_link_local_unicast (v6 _) = false

unfoldable pub is_link_local_multicast : Ip → Bool
is_link_local_multicast (v4 a b c d) = a == 224 && (b == 0 && c == 0)
is_link_local_multicast (v6 (a ∷ b ∷ s)) = a == 255 && b % 16 == 2
is_link_local_multicast (v6 _) = false

unfoldable pub is_multicast : Ip → Bool
is_multicast (v4 a b c d) = high 4 a == 14
is_multicast (v6 []) = false
is_multicast (v6 (a ∷ s)) = a == 255

unfoldable pub is_unspecified : Ip → Bool
is_unspecified (v4 a b c d) = a == 0 && (b == 0 && (c == 0 && d == 0))
is_unspecified (v6 s) =
    text_eq s (0 ∷ 0 ∷ 0 ∷ 0 ∷ 0 ∷ 0 ∷ 0 ∷ 0 ∷ 0 ∷ 0 ∷ 0 ∷ 0 ∷ 0 ∷ 0 ∷ 0 ∷ 0 ∷ [])

unfoldable pub is_reserved : Ip → Bool
is_reserved (v4 a b c d) =
    (a == 100 && high 6 b == 1)
    || ((a == 198 && (b == 18 || b == 19)) || (a == 255 && (b == 255 && (c == 255 && d == 255))))
is_reserved (v6 s) = false

unfoldable pub is_blocked_ip : Ip → Bool
unfolding is_loopback is_private is_link_local_unicast is_link_local_multicast is_multicast
    is_unspecified is_reserved
is_blocked_ip ip =
    if is_loopback ip
      || (is_private ip
          || (is_link_local_unicast ip
              || (is_link_local_multicast ip || (is_multicast ip || is_unspecified ip))))
    then true
    else is_reserved ip

-- `dnsCacheEntry`; times are nanoseconds.
pub record DnsCacheEntry : Type 0 where
  pub blocked : Bool
  pub expires : ℕ

abbrev pub dns_cache_ttl : ℕ
dns_cache_ttl = 5 * (60 * 10 ^ 9)

abbrev is_bracket : ℕ → Bool
is_bracket c = c == b'[' || c == b']'

unfoldable pub trim_brackets_left : Text → Text
trim_brackets_left [] = []
trim_brackets_left (c ∷ s) = if is_bracket c then trim_brackets_left s else c ∷ s

unfoldable pub trim_brackets_right : Text → Text
trim_brackets_right [] = []
trim_brackets_right (c ∷ s) = elim (trim_brackets_right s) [
  | [] ↦ if is_bracket c then [] else c ∷ []
  | x ∷ r ↦ c ∷ x ∷ r
]

-- The host as it is looked up
unfoldable pub host_name : Text → Text
unfolding trim_brackets_left trim_brackets_right
host_name host = trim_brackets_right (trim_brackets_left (trim_space (to_lower host)))

-- The loop over the addresses
unfoldable pub any_blocked : List Ip → Bool
unfolding is_blocked_ip
any_blocked [] = false
any_blocked (ip ∷ ips) = if is_blocked_ip ip then true else any_blocked ips

abbrev pub DnsCache : Type 0
DnsCache = Map Text DnsCacheEntry

-- Behind the cache: the lookup, whose failure is the empty list.
unfoldable pub look_up : (Text → List Ip) → ℕ → Text → DnsCache → Bool × DnsCache
unfolding any_blocked
look_up lookup_ip now host cache = elim (lookup_ip host) [
  | [] ↦ (true, cache)
  | ip ∷ ips ↦
      let blocked = any_blocked (ip ∷ ips) in
      (blocked, insert host (record { blocked = blocked; expires = now + dns_cache_ttl }) cache)
]

unfoldable pub by_name : (Text → List Ip) → ℕ → Text → DnsCache → Bool × DnsCache
unfolding look_up
by_name lookup_ip now host cache = elim (lookup host cache) [
  | none ↦ look_up lookup_ip now host cache
  | some entry ↦
      if ltb now entry.expires
      then (entry.blocked, cache)
      else look_up lookup_ip now host (erase host cache)
]

unfoldable pub blocked_upstream_host :
    (Text → Option Ip) → (Text → List Ip) → ℕ → Text → DnsCache → Bool × DnsCache
unfolding by_name host_name
blocked_upstream_host parse_ip lookup_ip now raw cache =
    let host = host_name raw in
    if text_eq host [] || text_eq host (codes "localhost")
    then (true, cache)
    else elim (parse_ip host) [
      | some ip ↦ (is_blocked_ip ip, cache)
      | none ↦ by_name lookup_ip now host cache
    ]
