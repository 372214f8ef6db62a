-- ===== src/Flight/Owner.antt =====
-- Who owns a flight: one caller for each title, who is never held up.
use goflix.Base.{
  ℕ, suc, ◌<◌, true, none, some, Text, text_eq, text_eq_iff, text_key, ◌==◌, ◌≡◌, refl, sym, ap,
  ◌∙◌, inl, inr, ◌⊎◌, arith, Bool-cases,
}
use goflix.Base.Map.{lookup, insert, lookup-insert}
use goflix.Flight.{
  resolving, sending, leaving, waiting, returned, gave_up, Flights, update, Step, join, own,
  resolve, send, leave, receive, cancel, Reach, here, next, arrivals, flight_of, is_unsent,
}
use goflix.Flight.Owned.{
  IsOwned, arrivals-IsOwned, outsider-IsOwned, drained-IsOwned, left-IsOwned, resolved-IsOwned,
  sent-IsOwned,
}

-- A caller that opens a flight under a title that has none.
module _ (s : Flights) (o : IsOwned s) (i : ℕ) (key : Text)
    (fresh : lookup key s.open_flights ≡ none) where
  abbrev opened : Flights
  opened = record s {
    open_flights = insert key s.made s.open_flights;
    made = suc s.made;
    callers = update s.callers i (resolving key s.made);
  }

  opened_owner :
      (j f : ℕ) (key' : Text)
      → flight_of (opened.callers j) ≡ some (key', f)
      → ((i ≡ j) × (key ≡ key') × (s.made ≡ f)) ⊎ (flight_of (s.callers j) ≡ some (key', f))
  opened_owner j f key' e = elim (Bool-cases (i == j)) [
    | inl at ↦ inl (ground (arith, at, e), ground (arith, at, e), ground (arith, at, e))
    | inr other ↦ inr (ground (arith, other, e))
  ]

  opened_listed :
      (j f : ℕ) (key' : Text)
      → flight_of (opened.callers j) ≡ some (key', f)
      → (lookup key' opened.open_flights ≡ some f) × (f < suc s.made)
  opened_listed j f key' e = elim (opened_owner j f key' e) [
    | inl h ↦ (
      ground (
        arith,
        lookup-insert key key' s.made s.open_flights,
        (text_eq_iff key key').1 (h.1),
        h.2,
      ),
      ground (arith, h.2),
    )
    | inr h ↦ elim (Bool-cases (text_eq key key')) [
      | inl same ↦
          let k : key ≡ key' = (text_eq_iff key key').0 same in
          absurd (ground (arith, k, fresh, (o.listed j f key' h).0))
      | inr other ↦ (
        ground
            (arith, lookup-insert key key' s.made s.open_flights, other, (o.listed j f key' h).0),
        ground (arith, (o.listed j f key' h).1),
      )
    ]
  ]

  opened_unique :
      (j k f : ℕ) (key' key'' : Text)
      → flight_of (opened.callers j) ≡ some (key', f)
      → flight_of (opened.callers k) ≡ some (key'', f)
      → j ≡ k
  opened_unique j k f key' key'' e e' = elim (opened_owner j f key' e) [
    | inl h ↦ elim (opened_owner k f key'' e') [
      | inl h' ↦ sym (h.0) ∙ h'.0
      | inr h' ↦ absurd (ground (arith, h.2, (o.listed k f key'' h').1))
    ]
    | inr h ↦ elim (opened_owner k f key'' e') [
      | inl h' ↦ absurd (ground (arith, h'.2, (o.listed j f key' h).1))
      | inr h' ↦ o.unique j k f key' key'' h h'
    ]
  ]

  opened_unsent :
      (j f : ℕ) (key' : Text)
      → flight_of (opened.callers j) ≡ some (key', f)
      → is_unsent (opened.callers j) ≡ true
      → s.buffer f ≡ none
  opened_unsent j f key' e u = elim (Bool-cases (i == j)) [
    | inl at ↦ o.untouched f (ground (arith, at, e))
    | inr other ↦ o.unsent j f key' (ground (arith, other, e)) (ground (arith, other, u))
  ]

  opened-IsOwned : IsOwned opened
  opened-IsOwned = record {
    listed = opened_listed;
    unique = opened_unique;
    unsent = opened_unsent;
    untouched = λ f h. o.untouched f (ground (arith, h));
  }

pub Step-IsOwned : {s t : Flights} → IsOwned s → Step s t → IsOwned t
Step-IsOwned {s} o (join i f key c e) = outsider-IsOwned s o i (waiting f) refl
Step-IsOwned {s} o (own i key c e) = opened-IsOwned s o i key e
Step-IsOwned {s} o (resolve i f key res c) =
    resolved-IsOwned s o i (sending key f res) (sym (ap flight_of c)) (ap is_unsent c)
Step-IsOwned {s} o (send i f key res c e) =
    sent-IsOwned s o i (leaving key f res) (sym (ap flight_of c)) f key res (ap flight_of c) refl
Step-IsOwned {s} o (leave i f key res c) =
    left-IsOwned s o i (returned res) refl f key (ap flight_of c)
Step-IsOwned {s} o (receive i f res c e) = drained-IsOwned s o i (returned res) refl f
Step-IsOwned {s} o (cancel i f c) = outsider-IsOwned s o i gave_up refl

pub Reach-IsOwned : (keys : ℕ → Text) {t : Flights} → Reach (arrivals keys) t → IsOwned t
Reach-IsOwned keys here = arrivals-IsOwned keys
Reach-IsOwned keys (next r step) = Step-IsOwned (Reach-IsOwned keys r) step
