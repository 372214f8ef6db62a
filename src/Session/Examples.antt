-- ===== src/Session/Examples.antt =====
-- Sessions at concrete inputs: a resolver with room for one session.
use goflix.Base.{
  ◌<◌, ◌≡◌, refl, ◌≢◌, ◌↔◌, arith, List, false, [], ◌∷◌, none, some, Text, codes, text_eq, text_ne,
  text_key, length, if◌then◌else◌, ◌&&◌, ◌||◌, ◌==◌, any, true,
}
use goflix.Base.Map.{lookup, retain, erase}
use goflix.Session.{
  ProxySession, Resolver, SubRendition, subs_none, subs_pending, subs_done, new_session, created,
  find_session, fresh_session, sweep_expired,
}
use goflix.Session.Cap.{IsValid, new_session-IsValid, new_session_lem, live_sessions, is_created}
use goflix.Session.Gate.{proxy_gate, passed, ip_blocked, proxy_gate_lem, after_gate}
use goflix.Session.Leak.{proxy_gate_leak}
use goflix.Session.Events.{
  sweep, proxied, session_opened, warmed, shut_down, Event, happen_all, is_listed,
}
use goflix.Session.Block.{block_ip_lem, runs, of_ip, implies}
use goflix.Session.Control.{block_ip}
use goflix.Session.Subs.{AllAgree, here, close_once_lem}
use goflix.Session.Renditions.{signaled, panicked, set_sub_renditions, attach_ladder_sub_renditions}

abbrev session : ProxySession
session = record {
  source = codes "https://cdn/master.m3u8";
  req_key = codes "movy|movie|550|-|-";
  headers = [];
  allowed = [];
  expires_at = 100;
  warmer = some 4;
  subs = [];
  subs_state = subs_none;
  subs_closed = false;
  created_at = 1;
  client_ip = codes "10.0.0.7";
  last_seen_at = 2;
  paused = false;
}

abbrev token : Text
token = codes "t0"

abbrev other : Text
other = codes "t1"

abbrev resolver : Resolver
resolver = record {
  cfg_session_ttl = 50;
  cfg_max_sessions = 1;
  closed = false;
  sessions = (token, session) ∷ [];
  blocked_ips = [];
  started = 5;
  canceled = [];
}

resolver-IsValid : IsValid resolver
unfolding lookup
resolver-IsValid = record { distinct = (refl, tt); capped = omega arith }

new_session-IsValid_example : IsValid (new_session resolver (some other) [] [] [] [] [] 101).0
new_session-IsValid_example =
    new_session-IsValid resolver (some other) [] [] [] [] [] 101 resolver-IsValid

-- At 101 the first session has expired, which makes room.
room_at_101 : length (live_sessions resolver 101) ≡ 0
unfolding retain
room_at_101 = refl

new_session_lem_example :
    (((new_session resolver (some other) [] [] [] [] [] 101).1 ≡ created other)
      ↔ ((false ≡ false) × (length (live_sessions resolver 101) < 1)))
    × (find_session (new_session resolver (some other) [] [] [] [] [] 101).0 other 101 ≡ (
        if is_created (new_session resolver (some other) [] [] [] [] [] 101).1
          && text_eq other other
        then some (fresh_session resolver [] [] [] [] [] 101)
        else find_session resolver other 101))
new_session_lem_example =
    new_session_lem resolver other [] [] [] [] [] 101 other resolver-IsValid.distinct

proxy_gate_lem_example :
    (((proxy_gate resolver token (codes "10.0.0.9") 7).1 ≡ passed) ↔ (
      (s : ProxySession) × (find_session resolver token 7 ≡ some s)
      × (ip_blocked resolver (codes "10.0.0.9") ≡ false)
      × (s.paused ≡ false)))
    × (find_session (proxy_gate resolver token (codes "10.0.0.9") 7).0 token 8 ≡ (
        if text_eq token token
        then after_gate resolver (codes "10.0.0.9") 7 8 (find_session resolver token 7)
        else find_session resolver token 8))
proxy_gate_lem_example = proxy_gate_lem resolver token (codes "10.0.0.9") 7 token 8

found_token : lookup token resolver.sessions ≡ some session
unfolding lookup text_eq
found_token = refl

abbrev later_events : List Event
later_events =
    sweep 500
    ∷ proxied token [] 501
    ∷ session_opened (some other) [] [] [] [] [] 502
    ∷ warmed other
    ∷ shut_down
    ∷ []

proxy_gate_leak_example :
    (is_listed 4 (happen_all later_events (proxy_gate resolver token [] 101).0).canceled ≡ false)
    × (is_listed 4 (sweep_expired resolver 101).canceled ≡ true)
proxy_gate_leak_example =
    proxy_gate_leak resolver token [] 101 session 4 later_events found_token refl refl
      (unfold erase text_eq in refl) refl (omega arith)

abbrev viewer : Text
viewer = codes "10.0.0.7"

viewer-ne-nil : viewer ≢ []
unfolding text_eq
viewer-ne-nil = text_ne viewer [] refl

block_ip_lem_example :
    ((proxy_gate (block_ip resolver viewer 3) token viewer 4).1 ≢ passed)
    × (lookup token (block_ip resolver viewer 3).sessions ≡ elim (lookup token resolver.sessions) [
      | none ↦ none
      | some s ↦ if text_eq s.client_ip viewer then none else some s
    ])
    × (implies
          (runs 0 (of_ip viewer (lookup token resolver.sessions)))
          (any (λ x. x == 0) (block_ip resolver viewer 3).canceled)
        ≡ true)
    × (ip_blocked (block_ip resolver viewer 3) other
        ≡ text_eq viewer other || ip_blocked resolver other)
block_ip_lem_example =
    block_ip_lem resolver viewer other token 3 4 0 resolver-IsValid.distinct viewer-ne-nil

token-ne-other : token ≢ other
unfolding text_eq
token-ne-other = text_ne token other refl

abbrev english : SubRendition
english = record { label = codes "English"; language = codes "en"; uri = codes "/subs/1.vtt" }

resolver-AllAgree : AllAgree resolver
unfolding lookup
resolver-AllAgree tok s h = ground (arith, h)

close_once_lem_example :
    ((set_sub_renditions resolver token [] 7).2 ≢ panicked)
    × ((attach_ladder_sub_renditions resolver token [] 7).2 ≢ panicked)
    × (((set_sub_renditions resolver token [] 7).2 ≡ signaled) ↔ (subs_none ≢ subs_done))
    × (((attach_ladder_sub_renditions resolver token [] 7).2 ≡ signaled)
        ↔ (subs_none ≡ subs_pending))
close_once_lem_example = close_once_lem token [] 7 session resolver-AllAgree here found_token refl
