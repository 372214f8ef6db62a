-- ===== src/Resolution/Episodes.antt =====
-- Which episode is prewarmed while another one plays.
use goflix.Base.{
  ℕ, zero, suc, ◌-◌, ◌≤◌, ◌<◌, Bool, true, false, ◌++◌, Option, none, some, Text, codes, text_eq,
  ltb, ◌==◌, length, length-append, ◌≡◌, refl, ◌∙◌, inl, inr, ◌⊎◌, arith, Bool-cases, Option-cases,
}
use mathlib.Core.Path.{subst}
use goflix.Base.Int.{pos}
use goflix.Base.Strings.{trim_space}
use goflix.Base.Decimal.{
  itoa, parse_int, scan, max_int, scan-itoa, parse_int_digits, parse_int-itoa,
}
use goflix.Resolution.{MediaRequest, tv}
use goflix.Resolution.Next.{
  itoa_succ, zeros, padded, next_episode_number, episode_request, episode_may_exist,
  rollover_target, next_prewarm_target,
}

length-zeros : (k : ℕ) → length (zeros k) ≡ k
unfolding zeros
length-zeros zero = refl
length-zeros (suc k) = omega (arith, length-zeros k)

scan-zeros : (k : ℕ) (s : Text) → scan 0 (zeros k ++ s) ≡ scan 0 s
unfolding zeros scan
scan-zeros zero s = refl
scan-zeros (suc k) s = scan-zeros k s

parse_int-zeros : (k n : ℕ) → n ≤ max_int → parse_int (zeros k ++ itoa n) ≡ some (pos n)
unfolding zeros
parse_int-zeros zero n small = parse_int-itoa n small
parse_int-zeros (suc k) n small =
    parse_int_digits b'0' (zeros k ++ itoa n) n (omega arith, omega arith)
      (scan-zeros (suc k) (itoa n) ∙ scan-itoa n) small

parse_int-padded : (width n : ℕ) → n ≤ max_int → parse_int (padded width (itoa n)) ≡ some (pos n)
unfolding padded
parse_int-padded width n small = elim (Bool-cases (ltb (length (itoa n)) width)) [
  | inl short ↦ rw short (parse_int-zeros (width - length (itoa n)) n small)
  | inr wide ↦ rw wide (parse_int-itoa n small)
]

length-padded : (width : ℕ) (s : Text) → width ≤ length (padded width s)
unfolding padded
length-padded width s = elim (Bool-cases (ltb (length s) width)) [
  | inl short ↦ rw short (
      ground
        (arith, short, length-append (zeros (width - length s)) s, length-zeros (width - length s)))
  | inr wide ↦ rw wide (ground (arith, wide))
]

-- The number behind an episode number reads as one more and is not printed shorter, so a padding
-- with zeros is kept. Only the largest 64-bit number has no successor of that kind.
pub next_episode_number_lem :
    (ep : Text) (n : ℕ)
    → parse_int (trim_space ep) ≡ some (pos n)
    → n < max_int
    → (next : Text) × (next_episode_number ep ≡ some next)
      × (parse_int next ≡ some (pos (suc n)))
      × (length ep ≤ length next)
unfolding next_episode_number itoa_succ
next_episode_number_lem ep n number small = (
  padded (length ep) (itoa (suc n)),
  rw (number, next_episode_number) (rw (differs n small) refl),
  parse_int-padded (length ep) (suc n) (omega (arith, small)),
  length-padded (length ep) (itoa (suc n)),
)
  where
    differs : (n : ℕ) → n < max_int → (n == max_int) ≡ false
    differs n small = ground (arith, small)

-- A request that may be prewarmed while `r` plays
abbrev pub IsNextOf : Option (Text → Text → Text → Bool) → MediaRequest → MediaRequest → Type 0
IsNextOf provider r t =
    (episode_may_exist provider t ≡ true)
    × (t.media_type ≡ tv)
    × (t.id ≡ r.id)
    × (t.provider ≡ r.provider)
    × (((t.season ≡ r.season) × (next_episode_number r.episode ≡ some t.episode))
        ⊎ ((next_episode_number r.season ≡ some t.season)
            × (t.episode ≡ codes "1")
            × (text_eq t.season r.season ≡ false)))

some_injective : (a b : MediaRequest) → some a ≡ some b → a ≡ b
some_injective a b h = ground (arith, h)

module _ (provider : Option (Text → Text → Text → Bool)) (r : MediaRequest) where
  rollover-IsNextOf :
      (o : Option Text) (t : MediaRequest)
      → next_episode_number r.season ≡ o
      → rollover_target provider r o ≡ some t
      → IsNextOf provider r t
  unfolding rollover_target
  rollover-IsNextOf none t e h = ground (arith, h)
  rollover-IsNextOf (some season) t e h = elim (Bool-cases (text_eq season r.season)) [
    | inl same ↦ ground (arith, same, h)
    | inr differs ↦
        elim (Bool-cases (episode_may_exist provider (episode_request r season (codes "1")))) [
          | inl exists ↦
              subst (IsNextOf provider r)
                (some_injective (episode_request r season (codes "1")) t
                  (ground (arith, differs, exists, h)))
                (exists, refl, refl, refl, inr (e, refl, differs))
          | inr missing ↦ ground (arith, differs, missing, h)
        ]
  ]

-- What is prewarmed: another episode of the same title at the same provider, of which the catalog
-- does not say that it is missing. It is the next episode of the season, or else episode 1 of the
-- next season.
pub next_prewarm_target-IsNextOf :
    (provider : Option (Text → Text → Text → Bool)) (r t : MediaRequest)
    → next_prewarm_target provider r ≡ some t
    → IsNextOf provider r t
unfolding next_prewarm_target
next_prewarm_target-IsNextOf provider r t h = elim (Option-cases (next_episode_number r.episode)) [
  | inl not_a_number ↦ ground (arith, not_a_number, h)
  | inr (next, numbered) ↦
      elim (Bool-cases (episode_may_exist provider (episode_request r r.season next))) [
        | inl exists ↦
            subst (IsNextOf provider r)
              (some_injective (episode_request r r.season next) t
                (ground (arith, numbered, exists, h)))
              (exists, refl, refl, refl, inl (refl, numbered))
        | inr missing ↦
            rollover-IsNextOf provider r (next_episode_number r.season) t refl
              (ground (arith, numbered, missing, h))
      ]
]
