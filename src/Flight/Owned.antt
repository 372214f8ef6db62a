-- ===== src/Flight/Owned.antt =====
-- The invariant on the owners of flights, and the steps of callers that are in a flight already.
use goflix.Base.{
  ℕ, ◌<◌, ◌≤◌, true, false, none, some, Text, text_eq, text_eq_iff, text_key, ◌==◌, ◌≡◌, refl, sym,
  ◌∙◌, inl, inr, arith, Bool-cases,
}
use goflix.Base.Map.{lookup, erase, lookup-erase}
use goflix.Flight.{FlightResult, Caller, Flights, update, arrivals, flight_of, is_unsent}

-- An owner's title leads to its flight; a flight has one owner; the buffer is empty until the owner
-- sends, and the buffers of flights to come are empty.
pub record IsOwned (s : Flights) : Type 0 where
  pub listed :
      (i f : ℕ) (key : Text)
      → flight_of (s.callers i) ≡ some (key, f)
      → (lookup key s.open_flights ≡ some f) × (f < s.made)
  pub unique :
      (i j f : ℕ) (key key' : Text)
      → flight_of (s.callers i) ≡ some (key, f)
      → flight_of (s.callers j) ≡ some (key', f)
      → i ≡ j
  pub unsent :
      (i f : ℕ) (key : Text)
      → flight_of (s.callers i) ≡ some (key, f)
      → is_unsent (s.callers i) ≡ true
      → s.buffer f ≡ none
  pub untouched : (f : ℕ) → s.made ≤ f → s.buffer f ≡ none

pub arrivals-IsOwned : (keys : ℕ → Text) → IsOwned (arrivals keys)
arrivals-IsOwned keys = record {
  listed = λ i f key e. absurd (ground (arith, e));
  unique = λ i j f key key' e e'. absurd (ground (arith, e));
  unsent = λ i f key e u. refl;
  untouched = λ f h. refl;
}

-- A caller that owns no flight before and after its step changes no owner.
module _ (s : Flights) (o : IsOwned s) (i : ℕ) (p : Caller) (free : flight_of p ≡ none) where
  outsider :
      (j f : ℕ) (key : Text)
      → flight_of (update s.callers i p j) ≡ some (key, f)
      → flight_of (s.callers j) ≡ some (key, f)
  outsider j f key e = elim (Bool-cases (i == j)) [
    | inl same ↦ absurd (ground (arith, same, e, free))
    | inr other ↦ ground (arith, other, e)
  ]

  outsider_unsent :
      (j f : ℕ) (key : Text)
      → flight_of (update s.callers i p j) ≡ some (key, f)
      → is_unsent (update s.callers i p j) ≡ true
      → s.buffer f ≡ none
  outsider_unsent j f key e u = elim (Bool-cases (i == j)) [
    | inl same ↦ absurd (ground (arith, same, e, free))
    | inr other ↦ o.unsent j f key (ground (arith, other, e)) (ground (arith, other, u))
  ]

  pub outsider-IsOwned : IsOwned (record s { callers = update s.callers i p })
  outsider-IsOwned = record {
    listed = λ j f key e. o.listed j f key (outsider j f key e);
    unique =
        λ j k f key key' e e'. o.unique j k f key key' (outsider j f key e) (outsider k f key' e');
    unsent = λ j f key e u. outsider_unsent j f key e u;
    untouched = o.untouched;
  }

  drained_at : (f g : ℕ) → s.buffer g ≡ none → update s.buffer f none g ≡ none
  drained_at f g e = elim (Bool-cases (f == g)) [
    | inl same ↦ ground (arith, same)
    | inr other ↦ ground (arith, other, e)
  ]

  pub drained-IsOwned :
      (f : ℕ)
      → IsOwned (record s { buffer = update s.buffer f none; callers = update s.callers i p })
  drained-IsOwned f = record {
    listed = λ j g key e. o.listed j g key (outsider j g key e);
    unique =
        λ j k g key key' e e'. o.unique j k g key key' (outsider j g key e) (outsider k g key' e');
    unsent = λ j g key e u. drained_at f g (outsider_unsent j g key e u);
    untouched = λ g h. drained_at f g (o.untouched g h);
  }

  -- A departing owner takes its title with it.
  still_listed :
      (f : ℕ) (key : Text)
      → flight_of (s.callers i) ≡ some (key, f)
      → (j g : ℕ) (key' : Text) → flight_of (update s.callers i p j) ≡ some (key', g)
      → lookup key' (erase key s.open_flights) ≡ some g
  still_listed f key mine j g key' e = elim (Bool-cases (text_eq key key')) [
    | inl same ↦
        let e' = outsider j g key' e in
        let k : key ≡ key' = (text_eq_iff key key').0 same in
        let both : lookup key s.open_flights ≡ some g =
          ground (arith, k, (o.listed j g key' e').0) in
        let fg : f ≡ g = ground (arith, (o.listed i f key mine).0, both) in
        let mine' : flight_of (s.callers i) ≡ some (key, g) = ground (arith, mine, fg) in
        let ij : i ≡ j = o.unique i j g key key' mine' e' in absurd (ground (arith, ij, e, free))
    | inr other ↦ ground (
      arith,
      lookup-erase key key' s.open_flights,
      other,
      (o.listed j g key' (outsider j g key' e)).0,
    )
  ]

  pub left-IsOwned :
      (f : ℕ) (key : Text)
      → flight_of (s.callers i) ≡ some (key, f)
      → IsOwned
          (record s { open_flights = erase key s.open_flights; callers = update s.callers i p })
  left-IsOwned f key mine = record {
    listed = λ j g key' e.
        (still_listed f key mine j g key' e, (o.listed j g key' (outsider j g key' e)).1);
    unique =
        λ j k g key key' e e'. o.unique j k g key key' (outsider j g key e) (outsider k g key' e');
    unsent = λ j g key e u. outsider_unsent j g key e u;
    untouched = o.untouched;
  }

-- An owner that goes on with its flight changes no owner.
module _ (s : Flights) (o : IsOwned s) (i : ℕ) (p : Caller)
    (same : flight_of p ≡ flight_of (s.callers i)) where
  goes_on : (j : ℕ) → flight_of (update s.callers i p j) ≡ flight_of (s.callers j)
  goes_on j = elim (Bool-cases (i == j)) [
    | inl at ↦ ground (arith, at, same)
    | inr other ↦ ground (arith, other)
  ]

  pub resolved-IsOwned :
      is_unsent (s.callers i) ≡ true → IsOwned (record s { callers = update s.callers i p })
  resolved-IsOwned u = record {
    listed = λ j f key e. o.listed j f key (sym (goes_on j) ∙ e);
    unique =
        λ j k f key key' e e'. o.unique j k f key key' (sym (goes_on j) ∙ e) (sym (goes_on k) ∙ e');
    unsent = λ j f key e v. elim (Bool-cases (i == j)) [
      | inl at ↦ o.unsent j f key (sym (goes_on j) ∙ e) (ground (arith, at, u))
      | inr other ↦ o.unsent j f key (sym (goes_on j) ∙ e) (ground (arith, other, v))
    ];
    untouched = o.untouched;
  }

  filled_at :
      (f g : ℕ) (res : FlightResult)
      → (f ≡ g → ⊥)
      → s.buffer g ≡ none
      → update s.buffer f (some res) g ≡ none
  filled_at f g res apart e = elim (Bool-cases (f == g)) [
    | inl at ↦ absurd (apart (ground (arith, at)))
    | inr other ↦ ground (arith, other, e)
  ]

  sender_only :
      (f g : ℕ) (key key' : Text) (j : ℕ)
      → flight_of (s.callers i) ≡ some (key, f)
      → f ≡ g
      → is_unsent p ≡ false
      → flight_of (update s.callers i p j) ≡ some (key', g)
      → is_unsent (update s.callers i p j) ≡ true
      → ⊥
  sender_only f g key key' j mine fg done e v =
      let mine' : flight_of (s.callers i) ≡ some (key, g) = ground (arith, mine, fg) in
      let ij : i ≡ j = o.unique i j g key key' mine' (sym (goes_on j) ∙ e) in
      ground (arith, ij, done, v)

  pub sent-IsOwned :
      (f : ℕ) (key : Text) (res : FlightResult)
      → flight_of (s.callers i) ≡ some (key, f)
      → is_unsent p ≡ false
      → IsOwned (record s { buffer = update s.buffer f (some res); callers = update s.callers i p })
  sent-IsOwned f key res mine done = record {
    listed = λ j g key' e. o.listed j g key' (sym (goes_on j) ∙ e);
    unique = λ j k g key' key'' e e'.
        o.unique j k g key' key'' (sym (goes_on j) ∙ e) (sym (goes_on k) ∙ e');
    unsent = λ j g key' e v.
        filled_at f g res (λ fg. sender_only f g key key' j mine fg done e v)
          (elim (Bool-cases (i == j)) [
            | inl at ↦ absurd (ground (arith, at, done, v))
            | inr other ↦ o.unsent j g key' (sym (goes_on j) ∙ e) (ground (arith, other, v))
          ]);
    untouched = λ g h.
        filled_at f g res (λ fg. absurd (ground (arith, fg, h, (o.listed i f key mine).1)))
          (o.untouched g h);
  }
