-- ===== src/Flight.antt =====
-- The single flight of `Resolve` in internal/mediaresolver/resolver.go: callers of one title share
-- one resolve. Callers interleave in any order; what `resolveFresh` answers, and when a caller's
-- context ends, is chosen by the environment. A channel `done` of capacity one is its buffer.
pub mod Owned
pub mod Owner
pub mod Single
pub mod Starved
mod Examples
use goflix.Base.{
  List, [], ℕ, suc, Bool, true, false, Option, none, some, Text, text_key, ◌==◌, if◌then◌else◌, ◌≡◌,
  ◌<◌,
}
use goflix.Base.Map.{Map, lookup, insert, erase}

-- `flightResult`; an error that is nil is "".
pub record FlightResult : Type 0 where
  pub proxy_url : Text
  pub err : Text

-- Where a call of `Resolve` stands, behind its miss in the resolution cache: before `flightMu` is
-- taken, as the owner of a flight before and after `resolveFresh` and after its send, as a waiter at
-- the `select`, or returned, with a result or with the error of its context.
pub data Caller : Type 0 where
  arriving : Text → Caller
  resolving : Text → ℕ → Caller
  sending : Text → ℕ → FlightResult → Caller
  leaving : Text → ℕ → FlightResult → Caller
  waiting : ℕ → Caller
  returned : FlightResult → Caller
  gave_up : Caller

-- `r.flights` from keys to flights, the number of flights made so far, the buffer of each flight's
-- channel, and the callers.
pub record Flights : Type 0 where
  pub open_flights : Map Text ℕ
  pub made : ℕ
  pub buffer : ℕ → Option FlightResult
  pub callers : ℕ → Caller

abbrev pub update {ℓ} : {A : Type ℓ} → (ℕ → A) → ℕ → A → ℕ → A
update f i x j = if i == j then x else f j

pub data Step (s : Flights) : Flights → Type 0 where
  -- `if fl, open := r.flights[key]; open`
  join :
      (i f : ℕ) (key : Text)
      → s.callers i ≡ arriving key
      → lookup key s.open_flights ≡ some f
      → Step s (record s { callers = update s.callers i (waiting f) })
  -- `r.flights[key] = fl`
  own :
      (i : ℕ) (key : Text)
      → s.callers i ≡ arriving key
      → lookup key s.open_flights ≡ none
      → Step s (record s {
        open_flights = insert key s.made s.open_flights;
        made = suc s.made;
        callers = update s.callers i (resolving key s.made);
      })
  -- `resolveFresh`
  resolve :
      (i f : ℕ) (key : Text) (res : FlightResult)
      → s.callers i ≡ resolving key f
      → Step s (record s { callers = update s.callers i (sending key f res) })
  -- `fl.done <- flightResult{…}`, which waits while the buffer is full
  send :
      (i f : ℕ) (key : Text) (res : FlightResult)
      → s.callers i ≡ sending key f res
      → s.buffer f ≡ none
      → Step s (record s {
        buffer = update s.buffer f (some res);
        callers = update s.callers i (leaving key f res);
      })
  -- `delete(r.flights, key)`, deferred
  leave :
      (i f : ℕ) (key : Text) (res : FlightResult)
      → s.callers i ≡ leaving key f res
      → Step s (record s {
        open_flights = erase key s.open_flights;
        callers = update s.callers i (returned res);
      })
  -- `case res := <-fl.done`
  receive :
      (i f : ℕ) (res : FlightResult)
      → s.callers i ≡ waiting f
      → s.buffer f ≡ some res
      → Step s (record s {
        buffer = update s.buffer f none;
        callers = update s.callers i (returned res);
      })
  -- `case <-parent.Done()`
  cancel :
      (i f : ℕ)
      → s.callers i ≡ waiting f
      → Step s (record s { callers = update s.callers i gave_up })

pub data Reach (s : Flights) : Flights → Type 0 where
  here : Reach s s
  next : {t u : Flights} → Reach s t → Step t u → Reach s u

-- Callers that all arrive at a resolver with no flight
abbrev pub arrivals : (ℕ → Text) → Flights
arrivals keys = record {
  open_flights = [];
  made = 0;
  buffer = λ f. none;
  callers = λ i. arriving (keys i);
}

-- The key and the flight of an owner
abbrev pub flight_of : Caller → Option (Text × ℕ)
flight_of (arriving key) = none
flight_of (resolving key f) = some (key, f)
flight_of (sending key f res) = some (key, f)
flight_of (leaving key f res) = some (key, f)
flight_of (waiting f) = none
flight_of (returned res) = none
flight_of gave_up = none

-- An owner that has not sent yet
abbrev pub is_unsent : Caller → Bool
is_unsent (resolving key f) = true
is_unsent (sending key f res) = true
is_unsent (arriving key) = false
is_unsent (leaving key f res) = false
is_unsent (waiting f) = false
is_unsent (returned res) = false
is_unsent gave_up = false
