-- ===== src/Session.antt =====
-- Proxy sessions: internal/mediaresolver/session.go, with the parts of resolver.go (the sweep, the
-- close, the settings) and proxy.go (the gate) that work on them. The random token of a new session
-- is an argument; times are nanoseconds. A read-ahead pipeline is the number under which it was
-- started, and `canceled` lists the pipelines whose context was cancelled.
pub mod Control
pub mod Block
pub mod Admin
pub mod Renditions
pub mod Subs
pub mod Cap
pub mod Gate
pub mod Events
pub mod Leak
mod Examples
use goflix.Base.{
  ℕ, suc, ◌+◌, ◌*◌, Bool, true, false, not, List, [], ◌∷◌, ◌++◌, Option, none, some, Text, codes,
  text_eq, text_key, length, ltb, leb, if◌then◌else◌, is_some,
}
use goflix.Base.Map.{Map, lookup, insert, erase, retain}

-- `http.Header`
abbrev pub Header : Type 0
Header = Map Text (List Text)

-- `h.Get(k)`: the first value, or "".
unfoldable pub header_get : Text → Header → Text
header_get k h = elim (lookup k h) [ none ↦ [] | some vs ↦ elim vs [ [] ↦ [] | v ∷ _ ↦ v ] ]

unfoldable pub header_set : Text → Text → Header → Header
header_set k v h = insert k (v ∷ []) h

-- `subsNone`, `subsPending`, `subsDone`
pub data SubsState : Type 0 where
  subs_none subs_pending subs_done : SubsState

pub record SubRendition : Type 0 where
  pub label : Text
  pub language : Text
  pub uri : Text

-- `subs_closed` says that the channel `subsDone` is closed. An address that was never learned is "".
pub record ProxySession : Type 0 where
  pub source : Text
  pub req_key : Text
  pub headers : Header
  pub allowed : Map Text Bool
  pub expires_at : ℕ
  pub warmer : Option ℕ
  pub subs : List SubRendition
  pub subs_state : SubsState
  pub subs_closed : Bool
  pub created_at : ℕ
  pub client_ip : Text
  pub last_seen_at : ℕ
  pub paused : Bool

-- The part of `Resolver` that concerns sessions. A setting of 0 is one that is not set.
pub record Resolver : Type 0 where
  pub cfg_session_ttl : ℕ
  pub cfg_max_sessions : ℕ
  pub closed : Bool
  pub sessions : Map Text ProxySession
  pub blocked_ips : Map Text ℕ
  pub started : ℕ
  pub canceled : List ℕ

-- `defaultSessionTTL` and `defaultMaxSessions`
abbrev pub default_session_ttl : ℕ
default_session_ttl = 4 * 3600 * 1_000_000_000

abbrev pub default_max_sessions : ℕ
default_max_sessions = 200

abbrev pub session_ttl : Resolver → ℕ
session_ttl r = if ltb 0 r.cfg_session_ttl then r.cfg_session_ttl else default_session_ttl

abbrev pub max_sessions : Resolver → ℕ
max_sessions r = if ltb 0 r.cfg_max_sessions then r.cfg_max_sessions else default_max_sessions

-- `now.After(session.expiresAt)`
abbrev pub is_expired : ℕ → ProxySession → Bool
is_expired now s = ltb s.expires_at now

abbrev pub warmer_list : Option ℕ → List ℕ
warmer_list none = []
warmer_list (some w) = w ∷ []

-- The pipelines of the sessions that a test picks.
unfoldable pub warmers_of : (Text → ProxySession → Bool) → Map Text ProxySession → List ℕ
warmers_of p [] = []
warmers_of p ((tok, s) ∷ m) =
    if p tok s then warmer_list s.warmer ++ warmers_of p m else warmers_of p m

-- The loop that deletes sessions and collects their cancel functions, and the calls of these.
unfoldable pub drop_sessions : (Text → ProxySession → Bool) → Resolver → Resolver
drop_sessions p r = record r {
  sessions = retain (λ tok s. not (p tok s)) r.sessions;
  canceled = warmers_of p r.sessions ++ r.canceled;
}

-- The periodic sweep of `New`.
unfoldable pub sweep_expired : Resolver → ℕ → Resolver
unfolding drop_sessions
sweep_expired r now = drop_sessions (λ _ s. is_expired now s) r

pub data SessionError : Type 0 where
  no_randomness resolver_closed cap_reached : SessionError

pub data Created : Type 0 where
  created : Text → Created
  refused : SessionError → Created

abbrev pub user_agent_key : Text
user_agent_key = codes "User-Agent"

-- The headers of a new session: those given, with the default agent where they name none.
unfoldable pub session_headers : Text → Header → Header
session_headers agent h =
    if text_eq (header_get user_agent_key h) [] then header_set user_agent_key agent h else h

unfoldable pub fresh_session :
    Resolver → Text → Text → Text → Header → Map Text Bool → ℕ → ProxySession
fresh_session r agent req_key source headers allowed now = record {
  source = source;
  req_key = req_key;
  headers = session_headers agent headers;
  allowed = allowed;
  expires_at = now + session_ttl r;
  warmer = none;
  subs = [];
  subs_state = subs_none;
  subs_closed = false;
  created_at = now;
  client_ip = [];
  last_seen_at = 0;
  paused = false;
}

-- The part of `newSession` that runs on an open resolver. The cap's error returns before the
-- collected pipelines are cancelled, while their sessions are gone.
unfoldable pub admit_session :
    Resolver → Text → Text → Text → Text → Header → Map Text Bool → ℕ → Resolver × Created
unfolding drop_sessions
admit_session r token agent req_key source headers allowed now =
    let swept = drop_sessions (λ _ s. is_expired now s) r in
    if leb (max_sessions r) (length swept.sessions)
    then (record swept { canceled = r.canceled }, refused cap_reached)
    else (
      record swept {
        sessions =
            insert token (fresh_session r agent req_key source headers allowed now) swept.sessions;
      },
      created token,
    )

-- `newSession`; `random` is the token, `none` if `rand.Read` failed.
unfoldable pub new_session :
    Resolver → Option Text → Text → Text → Text → Header → Map Text Bool → ℕ → Resolver × Created
new_session r none agent req_key source headers allowed now = (r, refused no_randomness)
new_session r (some token) agent req_key source headers allowed now =
    if r.closed
    then (r, refused resolver_closed)
    else admit_session r token agent req_key source headers allowed now

-- `findSession`, in the map of sessions
unfoldable pub find_live : Map Text ProxySession → Text → ℕ → Option ProxySession
find_live m token now = elim (lookup token m) [
  | none ↦ none
  | some s ↦ if is_expired now s then none else some s
]

abbrev pub find_session : Resolver → Text → ℕ → Option ProxySession
find_session r token now = find_live r.sessions token now

-- `Close`, for the sessions
unfoldable pub close : Resolver → Resolver
close r = if r.closed then r else record r {
  closed = true;
  sessions = [];
  canceled = warmers_of (λ _ _. true) r.sessions ++ r.canceled;
}

-- A change of the session behind a token, made through its pointer.
abbrev pub update_session : Resolver → Text → ProxySession → Resolver
update_session r token s = record r { sessions = insert token s r.sessions }

-- `ensureWarmer`: starts a pipeline unless there is one.
unfoldable pub ensure_warmer : Resolver → Text → Resolver
ensure_warmer r token = elim (lookup token r.sessions) [
  | none ↦ r
  | some s ↦ if is_some s.warmer then r else if r.closed then r else record r {
    sessions = insert token (record s { warmer = some r.started }) r.sessions;
    started = suc r.started;
  }
]
