-- ===== src/Session/Control.antt =====
-- The administrator's operations on streams and addresses: internal/mediaresolver/streams.go.
-- The block list's file is not modelled.
use goflix.Base.{
  ℕ, Bool, true, false, [], ◌++◌, Option, none, some, Text, text_eq, text_key, if◌then◌else◌,
}
use goflix.Base.Map.{lookup, insert, erase}
use goflix.Session.{Resolver, find_session, drop_sessions, warmer_list, update_session}

unfoldable pub pause_stream : Resolver → Text → ℕ → Resolver × Bool
pause_stream r token now = elim (find_session r token now) [
  | none ↦ (r, false)
  | some s ↦ (update_session r token (record s { paused = true }), true)
]

unfoldable pub resume_stream : Resolver → Text → ℕ → Resolver × Bool
resume_stream r token now = elim (find_session r token now) [
  | none ↦ (r, false)
  | some s ↦ (update_session r token (record s { paused = false }), true)
]

-- `StopStream`, and `RetireStream`, which calls it
unfoldable pub stop_stream : Resolver → Text → Resolver × Bool
stop_stream r token = elim (lookup token r.sessions) [
  | none ↦ (r, false)
  | some s ↦ (
    record r { sessions = erase token r.sessions; canceled = warmer_list s.warmer ++ r.canceled },
    true,
  )
]

-- `blockIP`
unfoldable pub block_ip : Resolver → Text → ℕ → Resolver
unfolding drop_sessions
block_ip r ip now =
    drop_sessions (λ _ s. text_eq s.client_ip ip)
      (record r { blocked_ips = insert ip now r.blocked_ips })

-- `BlockStream`: the address blocked, if there was one.
unfoldable pub block_stream : Resolver → Text → ℕ → Resolver × Option Text
block_stream r token now = elim (find_session r token now) [
  | none ↦ (r, none)
  | some s ↦
      if text_eq s.client_ip [] then (r, none) else (block_ip r s.client_ip now, some s.client_ip)
]

-- `UnblockIP`
unfoldable pub unblock_ip : Resolver → Text → Resolver
unblock_ip r ip = if text_eq ip [] then r else record r { blocked_ips = erase ip r.blocked_ips }
