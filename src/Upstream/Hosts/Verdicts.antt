-- ===== src/Upstream/Hosts/Verdicts.antt =====
-- What stands behind a host that is let through, over a history of calls.
use goflix.Base.{
  List, [], ◌∷◌, ℕ, ◌+◌, ◌<◌, Bool, false, Option, none, some, Text, codes, text_eq, text_eq_iff,
  text_key, ltb, ◌||◌, ◌≡◌, ◌≢◌, refl, ap, ◌∙◌, ◌⊎◌, inl, inr, arith, All, Bool-cases, Option-cases,
  List-cases,
}
use goflix.Base.Map.{lookup, insert, erase, lookup-insert, lookup-erase}
use goflix.Upstream.Hosts.{
  Ip, is_blocked_ip, DnsCacheEntry, dns_cache_ttl, DnsCache, host_name, any_blocked, look_up,
  by_name, blocked_upstream_host,
}

-- A call of `blockedUpstreamHost`: its time, its host, and what the DNS answers then.
pub record Call : Type 0 where
  pub now : ℕ
  pub raw : Text
  pub lookup_ip : Text → List Ip

-- The cache behind a history of calls, the latest first.
unfoldable pub run : (Text → Option Ip) → List Call → DnsCache
unfolding blocked_upstream_host
run parse_ip [] = []
run parse_ip (c ∷ h) = (blocked_upstream_host parse_ip c.lookup_ip c.now c.raw (run parse_ip h)).1

abbrev pub IsOpen : Ip → Type 0
IsOpen ip = is_blocked_ip ip ≡ false

-- A lookup of `host` that found addresses, none of them blocked, and that holds until `t`.
abbrev pub IsClean : Text → ℕ → Call → Type 0
IsClean host t c =
    (c.lookup_ip host ≢ []) × All IsOpen (c.lookup_ip host) × (c.now + dns_cache_ttl ≡ t)

-- Some call of the history made such a lookup.
abbrev pub Vouched : Text → ℕ → List Call → Type 0
Vouched host t [] = ⊥
Vouched host t (c ∷ h) = IsClean host t c ⊎ Vouched host t h

any_blocked-All : (ips : List Ip) → any_blocked ips ≡ false → All IsOpen ips
unfolding any_blocked
any_blocked-All [] e = tt
any_blocked-All (ip ∷ ips) e = elim (Bool-cases (is_blocked_ip ip)) [
  | inl bad ↦ absurd (ground (arith, bad, e))
  | inr good ↦ (good, any_blocked-All ips (ground (arith, good, e)))
]

-- Every name that the cache lets through was looked up clean.
abbrev IsBacked : List Call → DnsCache → Type 0
IsBacked h cache =
    (host : Text) (entry : DnsCacheEntry)
    → lookup host cache ≡ some entry
    → entry.blocked ≡ false
    → Vouched host entry.expires h

module _ (c : Call) (h : List Call) (cache : DnsCache) (b : IsBacked h cache) where
  looked_up :
      (host : Text) (ip : Ip) (ips : List Ip)
      → c.lookup_ip host ≡ ip ∷ ips
      → any_blocked (ip ∷ ips) ≡ false
      → IsClean host (c.now + dns_cache_ttl) c
  looked_up host ip ips e clean =
      (rw e (λ x. ground (arith, x)), rw e (any_blocked-All (ip ∷ ips) clean), refl)

  look_up-IsClean :
      (host : Text)
      → (look_up c.lookup_ip c.now host cache).0 ≡ false
      → IsClean host (c.now + dns_cache_ttl) c
  unfolding look_up
  look_up-IsClean host e = elim (List-cases (c.lookup_ip host)) [
    | inl none_found ↦ absurd (ground (arith, none_found, e))
    | inr (ip, ips, found) ↦ looked_up host ip ips found (ground (arith, found, e))
  ]

  stored-IsBacked :
      (host : Text) (ip : Ip) (ips : List Ip)
      → c.lookup_ip host ≡ ip ∷ ips
      → IsBacked (c ∷ h) (
          insert host
            (record { blocked = any_blocked (ip ∷ ips); expires = c.now + dns_cache_ttl })
            cache)
  stored-IsBacked host ip ips e other entry l passes = elim (Bool-cases (text_eq host other)) [
    | inl same ↦
        let k : host ≡ other = (text_eq_iff host other).0 same in
        let fresh : DnsCacheEntry = record {
          blocked = any_blocked (ip ∷ ips);
          expires = c.now + dns_cache_ttl;
        } in
        let it : fresh ≡ entry = ground (arith, lookup-insert host other fresh cache, same, l) in
        inl (
          ground (
            arith,
            looked_up host ip ips e (ap (λ x. x.blocked) it ∙ passes),
            k,
            ap (λ x. x.expires) it,
          ))
    | inr apart ↦ inr (
        b other entry
          (ground (
            arith,
            lookup-insert host other
                (record { blocked = any_blocked (ip ∷ ips); expires = c.now + dns_cache_ttl })
                cache,
            apart,
            l,
          ))
          passes)
  ]

  kept-IsBacked : IsBacked (c ∷ h) cache
  kept-IsBacked host entry l passes = inr (b host entry l passes)

  look_up-IsBacked : (host : Text) → IsBacked (c ∷ h) ((look_up c.lookup_ip c.now host cache).1)
  unfolding look_up
  look_up-IsBacked host = elim (List-cases (c.lookup_ip host)) [
    | inl none_found ↦ rw (none_found, look_up) kept-IsBacked
    | inr (ip, ips, found) ↦ rw (found, look_up) (stored-IsBacked host ip ips found)
  ]

erase-IsBacked :
    (h : List Call) (cache : DnsCache) (host : Text)
    → IsBacked h cache
    → IsBacked h (erase host cache)
erase-IsBacked h cache host b other entry l passes = elim (Bool-cases (text_eq host other)) [
  | inl same ↦ absurd (ground (arith, lookup-erase host other cache, same, l))
  | inr apart ↦ b other entry (ground (arith, lookup-erase host other cache, apart, l)) passes
]

-- What lets `host` through at `now`: a clean lookup that is still valid.
abbrev pub Admits : List Call → Text → ℕ → Type 0
Admits h host now = (t : ℕ) × (now < t) × Vouched host t h

module _ (c : Call) (h : List Call) (cache : DnsCache) (b : IsBacked h cache) (host : Text) where
  fresh-Admits :
      (rest : DnsCache)
      → IsBacked h rest
      → (look_up c.lookup_ip c.now host rest).0 ≡ false
      → Admits (c ∷ h) host c.now
  fresh-Admits rest r e =
      (c.now + dns_cache_ttl, ground arith, inl (look_up-IsClean c h rest r host e))

  by_name-Admits : (by_name c.lookup_ip c.now host cache).0 ≡ false → Admits (c ∷ h) host c.now
  unfolding by_name
  by_name-Admits e = elim (Option-cases (lookup host cache)) [
    | inl unknown ↦ fresh-Admits cache b (ground (arith, unknown, e))
    | inr (entry, l) ↦ elim (Bool-cases (ltb c.now entry.expires)) [
      | inl valid ↦
          (entry.expires, ground (arith, valid), inr (b host entry l (ground (arith, valid, l, e))))
      | inr late ↦
          fresh-Admits (erase host cache) (erase-IsBacked h cache host b)
            (ground (arith, l, late, e))
    ]
  ]

  by_name-IsBacked : IsBacked (c ∷ h) ((by_name c.lookup_ip c.now host cache).1)
  unfolding by_name
  by_name-IsBacked = elim (Option-cases (lookup host cache)) [
    | inl unknown ↦ rw (unknown, by_name) (look_up-IsBacked c h cache b host)
    | inr (entry, l) ↦ elim (Bool-cases (ltb c.now entry.expires)) [
      | inl valid ↦ rw (l, by_name) (rw valid (kept-IsBacked c h cache b))
      | inr late ↦
          rw (l, by_name)
            (rw late (look_up-IsBacked c h (erase host cache) (erase-IsBacked h cache host b) host))
    ]
  ]

abbrev pub IsCleared : List Call → Text → ℕ → Option Ip → Type 0
IsCleared h host now (some ip) = IsOpen ip
IsCleared h host now none = Admits h host now

abbrev is_refused_name : Text → Bool
is_refused_name host = text_eq host [] || text_eq host (codes "localhost")

run-IsBacked : (parse_ip : Text → Option Ip) (h : List Call) → IsBacked h (run parse_ip h)
unfolding run blocked_upstream_host lookup
run-IsBacked parse_ip [] = λ host entry l passes. absurd (ground (arith, l))
run-IsBacked parse_ip (c ∷ h) = elim (Bool-cases (is_refused_name (host_name c.raw))) [
  | inl refused ↦
      rw (refused, run, blocked_upstream_host)
        (kept-IsBacked c h (run parse_ip h) (run-IsBacked parse_ip h))
  | inr named ↦ elim (Option-cases (parse_ip (host_name c.raw))) [
    | inl name ↦
        rw (named, run, blocked_upstream_host)
          (rw name
            (by_name-IsBacked c h (run parse_ip h) (run-IsBacked parse_ip h) (host_name c.raw)))
    | inr (ip, literal) ↦
        rw (named, run, blocked_upstream_host)
          (rw literal (kept-IsBacked c h (run parse_ip h) (run-IsBacked parse_ip h)))
  ]
]

-- Behind every history of calls of `blockedUpstreamHost`, a host that a call lets through is neither
-- empty nor "localhost", and is either the text of an address that is not blocked, or a name for which
-- that call or an earlier one had an answer with addresses, none of them blocked, five minutes ago
-- or less: a stale verdict is looked up again, and a lookup that fails refuses the host.
pub admitted_host :
    (parse_ip : Text → Option Ip) (h : List Call) (c : Call)
    → (blocked_upstream_host parse_ip c.lookup_ip c.now c.raw (run parse_ip h)).0 ≡ false
    → (host_name c.raw ≢ [])
      × (host_name c.raw ≢ codes "localhost")
      × IsCleared (c ∷ h) (host_name c.raw) c.now (parse_ip (host_name c.raw))
unfolding blocked_upstream_host
admitted_host parse_ip h c e = elim (Bool-cases (is_refused_name (host_name c.raw))) [
  | inl refused ↦ absurd (ground (arith, refused, e))
  | inr named ↦ (
    λ x. ground (arith, named, text_eq_iff (host_name c.raw) [], x),
    λ x. ground (arith, named, text_eq_iff (host_name c.raw) (codes "localhost"), x),
    elim (Option-cases (parse_ip (host_name c.raw))) [
      | inl name ↦ rw name (
          by_name-Admits c h (run parse_ip h) (run-IsBacked parse_ip h) (host_name c.raw)
            (ground (arith, named, name, e)))
      | inr (ip, literal) ↦ rw literal (ground (arith, named, literal, e))
    ],
  )
]
