-- ===== src/Session/Renditions.antt =====
-- The operations on the external subtitle renditions of a session:
-- internal/mediaresolver/renditions.go. The channel `subsDone` is closed once.
use goflix.Base.{
  ℕ, Bool, true, false, not, List, [], none, some, Text, codes, text_eq, text_key, take,
  if◌then◌else◌, ◌||◌,
}
use goflix.Base.Map.{lookup}
use goflix.Base.Strings.{trim_space, to_lower}
use goflix.Session.{
  ProxySession, Resolver, SubRendition, SubsState, subs_none, subs_pending, subs_done, is_expired,
  update_session,
}

-- `maxSubRenditions`
abbrev pub max_sub_renditions : ℕ
max_sub_renditions = 32

-- `subs[:maxSubRenditions]`
abbrev pub cap_subs : List SubRendition → List SubRendition
cap_subs = take max_sub_renditions

-- What may happen to the channel: nothing, a close, or the panic of a second close.
pub data Signal : Type 0 where
  silent signaled panicked : Signal

-- `close(ch)`
unfoldable pub close_channel : Bool → Signal
close_channel true = panicked
close_channel false = signaled

-- `select { case <-ch: default: close(ch) }`
unfoldable pub close_once : Bool → Signal
unfolding close_channel
close_once closed = if closed then silent else close_channel closed

abbrev pub with_subs : ProxySession → List SubRendition → ProxySession
with_subs s subs = record s { subs = subs; subs_state = subs_done; subs_closed = true }

-- `SetSubRenditions`: whether the session was there, and what happens to the channel.
unfoldable pub set_sub_renditions :
    Resolver → Text → List SubRendition → ℕ → Resolver × Bool × Signal
unfolding close_once
set_sub_renditions r token subs now = elim (lookup token r.sessions) [
  | none ↦ (r, false, silent)
  | some s ↦
      if is_expired now s
      then (r, false, silent)
      else (update_session r token (with_subs s (cap_subs subs)), true, close_once s.subs_closed)
]

abbrev pub is_pending : SubsState → Bool
is_pending subs_pending = true
is_pending subs_none = false
is_pending subs_done = false

-- `attachLadderSubRenditions`
unfoldable pub attach_ladder_sub_renditions :
    Resolver → Text → List SubRendition → ℕ → Resolver × Bool × Signal
unfolding close_once
attach_ladder_sub_renditions r token subs now = elim (lookup token r.sessions) [
  | none ↦ (r, false, silent)
  | some s ↦
      if is_expired now s
      then (r, false, silent)
      else if not (is_pending s.subs_state)
      then (r, false, silent)
      else (update_session r token (with_subs s (cap_subs subs)), true, close_once s.subs_closed)
]

abbrev pub is_none : SubsState → Bool
is_none subs_none = true
is_none subs_pending = false
is_none subs_done = false

-- The providers without renditions of their own.
unfoldable pub is_eligible : Text → Bool
is_eligible provider =
    let p = to_lower (trim_space provider) in
    text_eq p (codes "movish")
    || text_eq p (codes "movy")
    || text_eq p (codes "cinesrc")
    || text_eq p (codes "vidsrcme")

-- `maybeAttachSubRenditions`, up to the start of the goroutine; the result says whether it starts.
-- `hooked` says that `SubRenditionProvider` is set.
unfoldable pub maybe_attach_sub_renditions : Resolver → Bool → Text → Text → Resolver × Bool
maybe_attach_sub_renditions r hooked token provider =
    if not hooked
    then (r, false)
    else if not (is_eligible provider)
    then (r, false)
    else elim (lookup token r.sessions) [
      | none ↦ (r, false)
      | some s ↦
          if is_none s.subs_state
          then (update_session r token (record s { subs_state = subs_pending }), true)
          else (r, false)
    ]

-- The renditions that `subRenditions` reads, "" and none where the session is gone.
unfoldable pub sub_renditions : Resolver → Text → ℕ → List SubRendition
sub_renditions r token now = elim (lookup token r.sessions) [
  | none ↦ []
  | some s ↦ if is_expired now s then [] else s.subs
]
