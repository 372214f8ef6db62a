-- ===== src/Flight/Examples.antt =====
-- Runs of the single flight: three callers of one title.
use goflix.Base.{ℕ, [], none, some, Text, codes, text_key, text_eq, nat_eq, ◌≡◌, refl, arith, ◌⊎◌}
use goflix.Base.Map.{lookup, insert, erase}
use goflix.Flight.{
  FlightResult, resolving, sending, leaving, waiting, returned, gave_up, Flights, update, join, own,
  resolve, send, leave, receive, cancel, Reach, here, next, arrivals,
}
use goflix.Flight.Single.{Lands, single_flight, owner_returns}
use goflix.Flight.Starved.{Spent, starved}

abbrev title : Text
title = codes "tv|7"

abbrev found : FlightResult
found = record { proxy_url = title; err = [] }

abbrev start : Flights
start = arrivals (λ i. title)

abbrev owned : Flights
owned = record start {
  open_flights = insert title 0 start.open_flights;
  made = 1;
  callers = update start.callers 0 (resolving title 0);
}

owned_reached : Reach start owned
unfolding lookup
owned_reached = next here (own 0 title refl refl)

abbrev joined : Flights
joined = record owned { callers = update owned.callers 1 (waiting 0) }

abbrev both_joined : Flights
both_joined = record joined { callers = update joined.callers 2 (waiting 0) }

abbrev resolved : Flights
resolved = record both_joined { callers = update both_joined.callers 0 (sending title 0 found) }

abbrev sent : Flights
sent = record resolved {
  buffer = update resolved.buffer 0 (some found);
  callers = update resolved.callers 0 (leaving title 0 found);
}

abbrev taken_by_one : Flights
taken_by_one = record sent {
  buffer = update sent.buffer 0 none;
  callers = update sent.callers 1 (returned found);
}

abbrev over : Flights
over = record taken_by_one {
  open_flights = erase title taken_by_one.open_flights;
  callers = update taken_by_one.callers 0 (returned found);
}

over_reached : Reach owned over
unfolding lookup insert text_eq
over_reached =
    let r1 : Reach owned joined = next here (join 1 0 title refl refl) in
    let r2 : Reach owned both_joined = next r1 (join 2 0 title refl refl) in
    let r3 : Reach owned resolved = next r2 (resolve 0 0 title found refl) in
    let r4 : Reach owned sent = next r3 (send 0 0 title found refl refl) in
    let r5 : Reach owned taken_by_one = next r4 (receive 1 0 found refl refl) in
    next r5 (leave 0 0 title found refl)

over-Spent : Spent 0 over
over-Spent = record { made = ground arith; taken = refl; orphaned = λ i key e. ground (arith, e) }

abbrev first : ℕ
first = 0

single_flight_example : first ≡ first
single_flight_example =
    single_flight (λ i. title) owned owned_reached first first 0 0 title refl refl

owner_returns_example : Lands 0 title owned
owner_returns_example = owner_returns (λ i. title) owned owned_reached 0 0 title refl found

abbrev given_up : Flights
given_up = record over { callers = update over.callers 2 gave_up }

starved_example : (given_up.callers 2 ≡ waiting 0) ⊎ (given_up.callers 2 ≡ gave_up)
starved_example = starved 0 2 over given_up over-Spent refl (next here (cancel 2 0 refl))
