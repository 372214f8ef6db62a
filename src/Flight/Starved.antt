-- ===== src/Flight/Starved.antt =====
-- The waiters that a flight forgets: its channel carries one result, which one of them takes.
use goflix.Base.{
  ℕ, ◌<◌, Bool, true, false, Option, none, some, Text, text_key, ◌==◌, ◌≡◌, ◌≢◌, refl, ap, ◌∙◌,
  arith, ◌⊎◌, inl, inr, Bool-cases,
}
use goflix.Flight.{
  FlightResult, Caller, arriving, resolving, sending, leaving, waiting, returned, gave_up, Flights,
  update, Step, join, own, resolve, send, leave, receive, cancel, Reach, here, next, flight_of,
}

-- The flight `f` has been made, nobody owns it, and its result has been taken.
pub record Spent (f : ℕ) (s : Flights) : Type 0 where
  pub made : f < s.made
  pub taken : s.buffer f ≡ none
  pub orphaned : (i : ℕ) (key : Text) → flight_of (s.callers i) ≢ some (key, f)

module _ (f : ℕ) (s : Flights) (o : Spent f s) (i : ℕ) (p : Caller) where
  still_orphaned :
      ((key : Text) → flight_of p ≢ some (key, f))
      → (j : ℕ) (key : Text) → flight_of (update s.callers i p j) ≢ some (key, f)
  still_orphaned free j key e = elim (Bool-cases (i == j)) [
    | inl at ↦ free key (ground (arith, at, e))
    | inr other ↦ o.orphaned j key (ground (arith, other, e))
  ]

  still_owned :
      (key : Text) (g : ℕ)
      → flight_of (s.callers i) ≡ some (key, g)
      → flight_of p ≡ some (key, g)
      → (key' : Text) → flight_of p ≢ some (key', f)
  still_owned key g mine e key' e' = o.orphaned i key (ground (arith, mine, e, e'))

  elsewhere :
      (key : Text) (g : ℕ) (b : Option FlightResult)
      → flight_of (s.callers i) ≡ some (key, g)
      → update s.buffer g b f ≡ none
  elsewhere key g b mine = elim (Bool-cases (g == f)) [
    | inl at ↦ absurd (o.orphaned i key (ground (arith, at, mine)))
    | inr other ↦ ground (arith, other, o.taken)
  ]

Step-Spent : (f : ℕ) {s t : Flights} → Spent f s → Step s t → Spent f t
Step-Spent f {s} o (join i g key c e) = record {
  made = o.made;
  taken = o.taken;
  orphaned = still_orphaned f s o i (waiting g) (λ k h. ground (arith, h));
}
Step-Spent f {s} o (own i key c e) = record {
  made = ground (arith, o.made);
  taken = o.taken;
  orphaned = still_orphaned f s o i (resolving key s.made) (λ k h. ground (arith, h, o.made));
}
Step-Spent f {s} o (resolve i g key res c) = record {
  made = o.made;
  taken = o.taken;
  orphaned =
      still_orphaned f s o i (sending key g res)
        (still_owned f s o i (sending key g res) key g (ap flight_of c) refl);
}
Step-Spent f {s} o (send i g key res c e) = record {
  made = o.made;
  taken = elsewhere f s o i (leaving key g res) key g (some res) (ap flight_of c);
  orphaned =
      still_orphaned f s o i (leaving key g res)
        (still_owned f s o i (leaving key g res) key g (ap flight_of c) refl);
}
Step-Spent f {s} o (leave i g key res c) = record {
  made = o.made;
  taken = o.taken;
  orphaned = still_orphaned f s o i (returned res) (λ k h. ground (arith, h));
}
Step-Spent f {s} o (receive i g res c e) = record {
  made = o.made;
  taken = elim (Bool-cases (g == f)) [
    | inl at ↦ ground (arith, at)
    | inr other ↦ ground (arith, other, o.taken)
  ];
  orphaned = still_orphaned f s o i (returned res) (λ k h. ground (arith, h));
}
Step-Spent f {s} o (cancel i g c) = record {
  made = o.made;
  taken = o.taken;
  orphaned = still_orphaned f s o i gave_up (λ k h. ground (arith, h));
}

Reach-Spent : (f : ℕ) {s t : Flights} → Spent f s → Reach s t → Spent f t
Reach-Spent f o here = o
Reach-Spent f o (next r step) = Step-Spent f (Reach-Spent f o r) step

abbrev pub is_stranded : ℕ → Caller → Bool
is_stranded f (arriving key) = false
is_stranded f (resolving key g) = false
is_stranded f (sending key g res) = false
is_stranded f (leaving key g res) = false
is_stranded f (waiting g) = f == g
is_stranded f (returned res) = false
is_stranded f gave_up = true

module _ (f : ℕ) (callers : ℕ → Caller) (i j : ℕ)
    (stranded : is_stranded f (callers j) ≡ true) where
  -- Another caller's step
  other_moves :
      (p : Caller) → is_stranded f (callers i) ≡ false → is_stranded f (update callers i p j) ≡ true
  other_moves p moved = elim (Bool-cases (i == j)) [
    | inl at ↦ absurd (ground (arith, at, moved, stranded))
    | inr other ↦ ground (arith, other, stranded)
  ]

Step-stranded :
    (f j : ℕ) {s t : Flights}
    → Spent f s
    → is_stranded f (s.callers j) ≡ true
    → Step s t
    → is_stranded f (t.callers j) ≡ true
Step-stranded f j {s} o e (join i g key c l) =
    other_moves f s.callers i j e (waiting g) (ap (is_stranded f) c)
Step-stranded f j {s} o e (own i key c l) =
    other_moves f s.callers i j e (resolving key s.made) (ap (is_stranded f) c)
Step-stranded f j {s} o e (resolve i g key res c) =
    other_moves f s.callers i j e (sending key g res) (ap (is_stranded f) c)
Step-stranded f j {s} o e (send i g key res c b) =
    other_moves f s.callers i j e (leaving key g res) (ap (is_stranded f) c)
Step-stranded f j {s} o e (leave i g key res c) =
    other_moves f s.callers i j e (returned res) (ap (is_stranded f) c)
Step-stranded f j {s} o e (receive i g res c b) =
    other_moves f s.callers i j e (returned res) (ap (is_stranded f) c ∙ ground (arith, b, o.taken))
Step-stranded f j {s} o e (cancel i g c) = elim (Bool-cases (i == j)) [
  | inl at ↦ ground (arith, at)
  | inr other ↦ ground (arith, other, e)
]

Reach-stranded :
    (f j : ℕ) {s t : Flights}
    → Spent f s
    → is_stranded f (s.callers j) ≡ true
    → Reach s t
    → is_stranded f (t.callers j) ≡ true
Reach-stranded f j o e here = e
Reach-stranded f j o e (next r step) =
    Step-stranded f j (Reach-Spent f o r) (Reach-stranded f j o e r) step

stranded_cases : (f : ℕ) (c : Caller) → is_stranded f c ≡ true → (c ≡ waiting f) ⊎ (c ≡ gave_up)
stranded_cases f (waiting g) e = inl (ground (arith, e))
stranded_cases f gave_up e = inr refl
stranded_cases f (arriving key) e = absurd (ground (arith, e))
stranded_cases f (resolving key g) e = absurd (ground (arith, e))
stranded_cases f (sending key g res) e = absurd (ground (arith, e))
stranded_cases f (leaving key g res) e = absurd (ground (arith, e))
stranded_cases f (returned res) e = absurd (ground (arith, e))

-- Once the owner of a flight has returned and one waiter has taken its result, every other waiter of
-- it is stranded: in each state that can follow it is still waiting or its context has ended, and it
-- never returns a result.
pub starved :
    (f j : ℕ) (s t : Flights)
    → Spent f s
    → s.callers j ≡ waiting f
    → Reach s t
    → (t.callers j ≡ waiting f) ⊎ (t.callers j ≡ gave_up)
starved f j s t o e r = stranded_cases f (t.callers j) (Reach-stranded f j o (ground (arith, e)) r)
