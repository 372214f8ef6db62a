-- ===== src/Session/Subs.antt =====
-- The life of a session's subtitle renditions (Session/Renditions models the code). The state
-- goes from none through pending to done; the channel `subsDone` is closed once.
use goflix.Base.{
  ℕ, ◌≤◌, Bool, true, false, List, some, Text, text_eq, text_key, text_eq_iff, length,
  if◌then◌else◌, ◌≡◌, refl, ◌≢◌, ◌↔◌, inl, inr, arith, Bool-cases, Option-cases, ◌∙◌,
  length-take-le,
}
use mathlib.Core.Path.{subst}
use goflix.Base.Map.{lookup, lookup-insert}
use goflix.Session.{
  ProxySession, Resolver, SubRendition, SubsState, subs_none, subs_pending, subs_done, is_expired,
  update_session,
}
use goflix.Session.Renditions.{
  silent, signaled, panicked, max_sub_renditions, cap_subs, Signal, close_once, with_subs,
  set_sub_renditions, is_pending, attach_ladder_sub_renditions, is_none, is_eligible,
  maybe_attach_sub_renditions, sub_renditions,
}

-- The channel of a session is closed exactly when its state is done.
abbrev pub Agrees : ProxySession → Type 0
Agrees s = (s.subs_closed ≡ true) ↔ (s.subs_state ≡ subs_done)

abbrev pub AllAgree : Resolver → Type 0
AllAgree r = (token : Text) (s : ProxySession) → lookup token r.sessions ≡ some s → Agrees s

update-AllAgree :
    (r : Resolver) (token : Text) (s : ProxySession)
    → AllAgree r
    → Agrees s
    → AllAgree (update_session r token s)
update-AllAgree r token s all own j x h = elim (Bool-cases (text_eq token j)) [
  | inl same ↦
      let e : s ≡ x = ground (arith, h, lookup-insert token j s r.sessions, same) in
      subst (λ (y : ProxySession). Agrees y) e own
  | inr other ↦ all j x (ground (arith, h, lookup-insert token j s r.sessions, other))
]

-- Two paths attach a list: the player's own and the ladder's.
set_live :
    (r : Resolver) (token : Text) (subs : List SubRendition) (now : ℕ) (s : ProxySession)
    → lookup token r.sessions ≡ some s
    → is_expired now s ≡ false
    → set_sub_renditions r token subs now
      ≡ (update_session r token (with_subs s (cap_subs subs)), true, close_once s.subs_closed)
unfolding set_sub_renditions
set_live r token subs now s h e = rw (h, set_sub_renditions) (rw e)

ladder_late :
    (r : Resolver) (token : Text) (subs : List SubRendition) (now : ℕ) (s : ProxySession)
    → lookup token r.sessions ≡ some s
    → is_pending s.subs_state ≡ false
    → attach_ladder_sub_renditions r token subs now ≡ (r, false, silent)
unfolding attach_ladder_sub_renditions
ladder_late r token subs now s h p =
    rw (h, attach_ladder_sub_renditions)
      (elim (Bool-cases (is_expired now s)) [ inl dead ↦ rw dead | inr live ↦ rw live (rw p) ])

-- The list that the player registers for a live session is what the manifest gets, cut at 32
-- entries, and a ladder that finishes later, with whatever list, changes nothing.
pub frontend_wins :
    (r : Resolver) (token : Text) (own ladder : List SubRendition) (now later : ℕ)
    (s : ProxySession)
    → lookup token r.sessions ≡ some s
    → is_expired now s ≡ false
    → (sub_renditions (set_sub_renditions r token own now).0 token now ≡ cap_subs own)
      × (attach_ladder_sub_renditions (set_sub_renditions r token own now).0 token ladder later
          ≡ ((set_sub_renditions r token own now).0, false, silent))
      × (length (cap_subs own) ≤ max_sub_renditions)
frontend_wins r token own ladder now later s h e =
    let stored = with_subs s (cap_subs own) in
    let found : lookup token (update_session r token stored).sessions ≡ some stored =
      lookup-insert token token stored r.sessions ∙ ground (arith, text_eq_iff token token) in
    rw (set_live r token own now s h e) (
      unfold sub_renditions in (rw (found, sub_renditions) (rw e)),
      ladder_late (update_session r token stored) token ladder later stored found refl,
      length-take-le max_sub_renditions own,
    )

-- One operation on the renditions of a session.
pub data Step : Resolver → Resolver → Type 0 where
  set_step :
      (r : Resolver) (token : Text) (subs : List SubRendition) (now : ℕ)
      → Step r (set_sub_renditions r token subs now).0
  ladder_step :
      (r : Resolver) (token : Text) (subs : List SubRendition) (now : ℕ)
      → Step r (attach_ladder_sub_renditions r token subs now).0
  attach_step :
      (r : Resolver) (hooked : Bool) (token provider : Text)
      → Step r (maybe_attach_sub_renditions r hooked token provider).0

pub data Reach (r : Resolver) : Resolver → Type 0 where
  here : Reach r r
  next : {t u : Resolver} → Reach r t → Step t u → Reach r u

Agrees-with_subs : (s : ProxySession) (subs : List SubRendition) → Agrees (with_subs s subs)
Agrees-with_subs s subs = (λ _. refl, λ _. refl)

set-AllAgree :
    (r : Resolver) (token : Text) (subs : List SubRendition) (now : ℕ)
    → AllAgree r
    → AllAgree (set_sub_renditions r token subs now).0
unfolding set_sub_renditions
set-AllAgree r token subs now all = elim (Option-cases (lookup token r.sessions)) [
  | inl absent ↦ rw (absent, set_sub_renditions) all
  | inr (s, found) ↦
      rw (found, set_sub_renditions)
        (elim (Bool-cases (is_expired now s)) [
          | inl dead ↦ rw dead all
          | inr live ↦ rw live (update-AllAgree r token _ all (Agrees-with_subs s (cap_subs subs)))
        ])
]

ladder-AllAgree :
    (r : Resolver) (token : Text) (subs : List SubRendition) (now : ℕ)
    → AllAgree r
    → AllAgree (attach_ladder_sub_renditions r token subs now).0
unfolding attach_ladder_sub_renditions
ladder-AllAgree r token subs now all = elim (Option-cases (lookup token r.sessions)) [
  | inl absent ↦ rw (absent, attach_ladder_sub_renditions) all
  | inr (s, found) ↦
      rw (found, attach_ladder_sub_renditions)
        (elim (Bool-cases (is_expired now s)) [
          | inl dead ↦ rw dead all
          | inr live ↦ rw live (elim (Bool-cases (is_pending s.subs_state)) [
            | inl pending ↦
                rw pending (update-AllAgree r token _ all (Agrees-with_subs s (cap_subs subs)))
            | inr late ↦ rw late all
          ])
        ])
]

Agrees-pending :
    (s : ProxySession)
    → Agrees s
    → is_none s.subs_state ≡ true
    → Agrees (record s { subs_state = subs_pending })
Agrees-pending s a n = (λ h. absurd (ground (arith, a.0 h, n)), λ h. absurd (ground arith))

attach-AllAgree :
    (r : Resolver) (hooked : Bool) (token provider : Text)
    → AllAgree r
    → AllAgree (maybe_attach_sub_renditions r hooked token provider).0
unfolding maybe_attach_sub_renditions
attach-AllAgree r false token provider all = all
attach-AllAgree r true token provider all = elim (Bool-cases (is_eligible provider)) [
  | inr other ↦ rw other all
  | inl eligible ↦ rw eligible (elim (Option-cases (lookup token r.sessions)) [
    | inl absent ↦ rw absent all
    | inr (s, found) ↦ rw found (elim (Bool-cases (is_none s.subs_state)) [
      | inl new ↦ rw new (update-AllAgree r token _ all (Agrees-pending s (all token s found) new))
      | inr old ↦ rw old all
    ])
  ])
]

-- In every state that the three operations reach from one where it holds, the channel of each
-- session is closed exactly when its state is done.
pub Reach-AllAgree : {r u : Resolver} → AllAgree r → Reach r u → AllAgree u
Reach-AllAgree all here = all
Reach-AllAgree all (next way (set_step r token subs now)) =
    set-AllAgree r token subs now (Reach-AllAgree all way)
Reach-AllAgree all (next way (ladder_step r token subs now)) =
    ladder-AllAgree r token subs now (Reach-AllAgree all way)
Reach-AllAgree all (next way (attach_step r hooked token provider)) =
    attach-AllAgree r hooked token provider (Reach-AllAgree all way)

signal_of_set :
    (closed : Bool) (st : SubsState)
    → (closed ≡ true) ↔ (st ≡ subs_done)
    → (close_once closed ≢ panicked) × ((close_once closed ≡ signaled) ↔ (st ≢ subs_done))
unfolding close_once
signal_of_set true subs_none a = absurd (ground (arith, a.0))
signal_of_set true subs_pending a = absurd (ground (arith, a.0))
signal_of_set true subs_done a =
    (λ e. ground arith, (λ e. absurd (ground arith), λ n. absurd (n refl)))
signal_of_set false subs_none a = (λ e. ground arith, (λ _ e. ground arith, λ _. refl))
signal_of_set false subs_pending a = (λ e. ground arith, (λ _ e. ground arith, λ _. refl))
signal_of_set false subs_done a = absurd (ground (arith, a.1))

abbrev ladder_signal : Bool → SubsState → Signal
ladder_signal closed st = if is_pending st then close_once closed else silent

signal_of_ladder :
    (closed : Bool) (st : SubsState)
    → (closed ≡ true) ↔ (st ≡ subs_done)
    → (ladder_signal closed st ≢ panicked)
      × ((ladder_signal closed st ≡ signaled) ↔ (st ≡ subs_pending))
unfolding close_once
signal_of_ladder closed subs_none a =
    (λ e. ground arith, (λ e. absurd (ground arith), λ e. absurd (ground arith)))
signal_of_ladder true subs_pending a = absurd (ground (arith, a.0))
signal_of_ladder false subs_pending a = (λ e. ground arith, (λ _. refl, λ _. refl))
signal_of_ladder closed subs_done a =
    (λ e. ground arith, (λ e. absurd (ground arith), λ e. absurd (ground arith)))

ladder_live :
    (r : Resolver) (token : Text) (subs : List SubRendition) (now : ℕ) (s : ProxySession)
    → lookup token r.sessions ≡ some s
    → is_expired now s ≡ false
    → (attach_ladder_sub_renditions r token subs now).2 ≡ ladder_signal s.subs_closed s.subs_state
unfolding attach_ladder_sub_renditions
ladder_live r token subs now s h e =
    rw (h, attach_ladder_sub_renditions)
      (rw e (elim (Bool-cases (is_pending s.subs_state)) [ inl p ↦ rw p | inr p ↦ rw p ]))

-- From every state that the operations reach, neither way to attach a list closes a channel twice,
-- whatever the order in which the player and the ladder come; a first list to be attached signals
-- those who wait, and once the state is done nobody is signaled again.
pub close_once_lem :
    {r u : Resolver} (token : Text) (subs : List SubRendition) (now : ℕ) (s : ProxySession)
    → AllAgree r
    → Reach r u
    → lookup token u.sessions ≡ some s
    → is_expired now s ≡ false
    → ((set_sub_renditions u token subs now).2 ≢ panicked)
      × ((attach_ladder_sub_renditions u token subs now).2 ≢ panicked)
      × (((set_sub_renditions u token subs now).2 ≡ signaled) ↔ (s.subs_state ≢ subs_done))
      × (((attach_ladder_sub_renditions u token subs now).2 ≡ signaled)
          ↔ (s.subs_state ≡ subs_pending))
close_once_lem {r} {u} token subs now s all way found live =
    let a = Reach-AllAgree all way token s found in
    let own = signal_of_set s.subs_closed s.subs_state a in
    let late = signal_of_ladder s.subs_closed s.subs_state a in
    rw (set_live u token subs now s found live)
      (rw (ladder_live u token subs now s found live) (own.0, late.0, own.1, late.1))
