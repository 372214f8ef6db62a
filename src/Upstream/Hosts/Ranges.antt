-- ===== src/Upstream/Hosts/Ranges.antt =====
-- The blocked IPv4 addresses as ranges of their 32-bit values.
use goflix.Base.{
  ℕ, ◌+◌, ◌*◌, ◌<◌, Bool, true, false, ◌&&◌, ◌||◌, List, [], ◌∷◌, ◌==◌, leb, if◌then◌else◌, ◌≡◌,
  arith,
}
use goflix.Upstream.Hosts.{
  v4, high, is_loopback, is_private, is_link_local_unicast, is_link_local_multicast, is_multicast,
  is_unspecified, is_reserved, is_blocked_ip,
}

abbrev pub address : ℕ → ℕ → ℕ → ℕ → ℕ
address a b c d = ((a * 256 + b) * 256 + c) * 256 + d

abbrev within : ℕ → ℕ × ℕ → Bool
within n (first, last) = leb first n && leb n last

abbrev pub within_one : ℕ → List (ℕ × ℕ) → Bool
within_one n [] = false
within_one n (r ∷ rs) = within n r || within_one n rs

-- 0.0.0.0, 10/8, 100.64/10, 127/8, 169.254/16, 172.16/12, 192.168/16, 198.18/15, 224/4 and
-- 255.255.255.255
abbrev pub blocked_ranges : List (ℕ × ℕ)
blocked_ranges =
    (0, 0)
    ∷ (address 10 0 0 0, address 10 255 255 255)
    ∷ (address 100 64 0 0, address 100 127 255 255)
    ∷ (address 127 0 0 0, address 127 255 255 255)
    ∷ (address 169 254 0 0, address 169 254 255 255)
    ∷ (address 172 16 0 0, address 172 31 255 255)
    ∷ (address 192 168 0 0, address 192 168 255 255)
    ∷ (address 198 18 0 0, address 198 19 255 255)
    ∷ (address 224 0 0 0, address 239 255 255 255)
    ∷ (address 255 255 255 255, address 255 255 255 255)
    ∷ []

reordered :
    (z t s l u p h b m lm x : Bool)
    → (lm ≡ true → m ≡ true)
    → (if l || ((t || (p || h)) || (u || (lm || (m || z)))) then true else s || (b || x))
      ≡ (z || (t || (s || (l || (u || (p || (h || (b || (m || (x || false))))))))))
reordered z t s l u p h b m lm x i = ground (arith, i)

module _ (a b c d : ℕ) (ha : a < 256) (hb : b < 256) (hc : c < 256) (hd : d < 256) where
  zero_range : within (address a b c d) (0, 0) ≡ (a == 0 && (b == 0 && (c == 0 && d == 0)))
  zero_range = ground (arith, ha, hb, hc, hd)

  ten_range : within (address a b c d) (address 10 0 0 0, address 10 255 255 255) ≡ (a == 10)
  ten_range = ground (arith, ha, hb, hc, hd)

  shared_range :
      within (address a b c d) (address 100 64 0 0, address 100 127 255 255)
      ≡ (a == 100 && high 6 b == 1)
  shared_range = ground (arith, ha, hb, hc, hd)

  loopback_range :
      within (address a b c d) (address 127 0 0 0, address 127 255 255 255) ≡ (a == 127)
  loopback_range = ground (arith, ha, hb, hc, hd)

  link_range :
      within (address a b c d) (address 169 254 0 0, address 169 254 255 255)
      ≡ (a == 169 && b == 254)
  link_range = ground (arith, ha, hb, hc, hd)

  private_range :
      within (address a b c d) (address 172 16 0 0, address 172 31 255 255)
      ≡ (a == 172 && high 4 b == 1)
  private_range = ground (arith, ha, hb, hc, hd)

  home_range :
      within (address a b c d) (address 192 168 0 0, address 192 168 255 255)
      ≡ (a == 192 && b == 168)
  home_range = ground (arith, ha, hb, hc, hd)

  benchmark_range :
      within (address a b c d) (address 198 18 0 0, address 198 19 255 255)
      ≡ (a == 198 && (b == 18 || b == 19))
  benchmark_range = ground (arith, ha, hb, hc, hd)

  multicast_range :
      within (address a b c d) (address 224 0 0 0, address 239 255 255 255) ≡ (high 4 a == 14)
  multicast_range = ground (arith, ha, hb, hc, hd)

  broadcast_range :
      within (address a b c d) (address 255 255 255 255, address 255 255 255 255)
      ≡ (a == 255 && (b == 255 && (c == 255 && d == 255)))
  broadcast_range = ground (arith, ha, hb, hc, hd)

-- An IPv4 address, its four bytes as they are, is blocked exactly when its 32-bit value lies in one of
-- the ten ranges `blocked_ranges`.
pub is_blocked_ip-v4 :
    (a b c d : ℕ) (ha : a < 256) (hb : b < 256) (hc : c < 256) (hd : d < 256)
    → is_blocked_ip (v4 a b c d) ≡ within_one (address a b c d) blocked_ranges
unfolding is_blocked_ip is_loopback is_private is_link_local_unicast is_link_local_multicast
    is_multicast is_unspecified is_reserved
is_blocked_ip-v4 a b c d ha hb hc hd =
    rw
      (
        zero_range a b c d ha hb hc hd,
        ten_range a b c d ha hb hc hd,
        shared_range a b c d ha hb hc hd,
        loopback_range a b c d ha hb hc hd,
        link_range a b c d ha hb hc hd,
        private_range a b c d ha hb hc hd,
        home_range a b c d ha hb hc hd,
        benchmark_range a b c d ha hb hc hd,
        multicast_range a b c d ha hb hc hd,
        broadcast_range a b c d ha hb hc hd,
      )
      (reordered (a == 0 && (b == 0 && (c == 0 && d == 0))) (a == 10) (a == 100 && high 6 b == 1)
        (a == 127) (a == 169 && b == 254) (a == 172 && high 4 b == 1) (a == 192 && b == 168)
        (a == 198 && (b == 18 || b == 19)) (high 4 a == 14) (a == 224 && (b == 0 && c == 0))
        (a == 255 && (b == 255 && (c == 255 && d == 255))) (λ e. ground (arith, e)))
