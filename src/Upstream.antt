-- ===== src/Upstream.antt =====
-- The pacing of upstream fetches: internal/mediaresolver/netutil.go.
pub mod Throttle
pub mod Retry
pub mod Hosts
