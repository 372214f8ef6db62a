-- ===== src/Flight/Single.antt =====
-- One resolve for each title, and an owner that always gets through.
use goflix.Base.{
  ℕ, true, false, none, some, Text, text_key, ◌==◌, ◌≡◌, refl, ◌∙◌, arith, ==_iff, text_eq_iff,
}
use goflix.Base.Map.{lookup, erase, lookup-erase}
use goflix.Flight.{
  FlightResult, Caller, arriving, resolving, sending, leaving, waiting, returned, gave_up, Flights,
  update, Step, resolve, send, leave, Reach, here, next, arrivals, flight_of, is_unsent,
}
use goflix.Flight.Owner.{Reach-IsOwned}

-- However the callers of `Resolve` interleave, two that own a flight for one title at the same time
-- are one caller.
pub single_flight :
    (keys : ℕ → Text) (t : Flights)
    → Reach (arrivals keys) t
    → (i j f g : ℕ) (key : Text) → flight_of (t.callers i) ≡ some (key, f)
    → flight_of (t.callers j) ≡ some (key, g)
    → i ≡ j
single_flight keys t r i j f g key e e' =
    let o = Reach-IsOwned keys r in
    let fg : f ≡ g = ground (arith, (o.listed i f key e).0, (o.listed j g key e').0) in
    o.unique i j f key key e (ground (arith, e', fg))

-- The owner `i` has returned, its title is free, and the others stand where they stood.
abbrev pub Landed : ℕ → Text → Flights → Flights → Type 0
Landed i key t u =
    ((res : FlightResult) × (u.callers i ≡ returned res))
    × (lookup key u.open_flights ≡ none)
    × ((j : ℕ) → (i == j) ≡ false → u.callers j ≡ t.callers j)

onward : {s t u : Flights} → Reach s t → Reach t u → Reach s u
onward r here = r
onward r (next q step) = next (onward r q) step

pub Lands : ℕ → Text → Flights → Type 0
Lands i key t = (u : Flights) × Reach t u × Landed i key t u

-- A step of the caller `i` on the way
on_the_way :
    (i : ℕ) (key : Text) (t v : Flights)
    → Step t v
    → ((j : ℕ) → (i == j) ≡ false → v.callers j ≡ t.callers j)
    → Lands i key v
    → Lands i key t
unfolding Lands
on_the_way i key t v step others (u, r, (done, free, same)) =
    (u, onward (next here step) r, (done, free, λ j other. same j other ∙ others j other))

module _ (i f : ℕ) (key : Text) where
  leaves : (t : Flights) (res : FlightResult) → t.callers i ≡ leaving key f res → Lands i key t
  unfolding Lands
  leaves t res c = (
    record t {
      open_flights = erase key t.open_flights;
      callers = update t.callers i (returned res);
    },
    next here (leave i f key res c),
    (
      (res, ground (arith, (==_iff i i).1 refl)),
      ground (arith, lookup-erase key key t.open_flights, (text_eq_iff key key).1 refl),
      λ j other. ground (arith, other),
    ),
  )

  sends :
      (t : Flights) (res : FlightResult)
      → t.callers i ≡ sending key f res
      → t.buffer f ≡ none
      → Lands i key t
  sends t res c e =
      let v : Flights = record t {
        buffer = update t.buffer f (some res);
        callers = update t.callers i (leaving key f res);
      } in
      on_the_way i key t v (send i f key res c e) (λ j other. ground (arith, other))
        (leaves v res (ground (arith, (==_iff i i).1 refl)))

  resolves :
      (t : Flights) (res : FlightResult)
      → t.callers i ≡ resolving key f
      → t.buffer f ≡ none
      → Lands i key t
  resolves t res c e =
      let v : Flights = record t { callers = update t.callers i (sending key f res) } in
      on_the_way i key t v (resolve i f key res c) (λ j other. ground (arith, other))
        (sends v res (ground (arith, (==_iff i i).1 refl)) e)

  owner_gets_home :
      (t : Flights) (res : FlightResult) (p : Caller)
      → t.callers i ≡ p
      → flight_of p ≡ some (key, f)
      → (is_unsent p ≡ true → t.buffer f ≡ none)
      → Lands i key t
  owner_gets_home t res (arriving k) c e b = absurd (ground (arith, e))
  owner_gets_home t res (resolving k g) c e b = resolves t res (ground (arith, c, e)) (b refl)
  owner_gets_home t res (sending k g out) c e b = sends t out (ground (arith, c, e)) (b refl)
  owner_gets_home t res (leaving k g out) c e b = leaves t out (ground (arith, c, e))
  owner_gets_home t res (waiting g) c e b = absurd (ground (arith, e))
  owner_gets_home t res (returned out) c e b = absurd (ground (arith, e))
  owner_gets_home t res gave_up c e b = absurd (ground (arith, e))

-- From every state that the callers can reach, the owner of a flight can go on by itself, once
-- `resolveFresh` answers, until it has returned and its title is free, while every other caller
-- stands where it stood: its send on the channel is never held up.
pub owner_returns :
    (keys : ℕ → Text) (t : Flights)
    → Reach (arrivals keys) t
    → (i f : ℕ) (key : Text) → flight_of (t.callers i) ≡ some (key, f)
    → (answer : FlightResult) → Lands i key t
owner_returns keys t r i f key e answer =
    owner_gets_home i f key t answer (t.callers i) refl e ((Reach-IsOwned keys r).unsent i f key e)
