-- ===== src/Upstream/Hosts/Examples.antt =====
-- Concrete hosts and addresses.
use goflix.Base.{[], ◌∷◌, Option, none, Text, codes, text_eq, text_key, ◌≡◌, ◌≢◌, refl, arith}
use goflix.Base.Map.{lookup, insert}
use goflix.Base.Strings.{trim_space, to_lower}
use goflix.Upstream.Hosts.{Ip, v4, is_blocked_ip, host_name, blocked_upstream_host}
use goflix.Upstream.Hosts.Ranges.{address, within_one, blocked_ranges, is_blocked_ip-v4}
use goflix.Upstream.Hosts.Verdicts.{Call, run, IsCleared, admitted_host}

is_blocked_ip-v4_example :
    is_blocked_ip (v4 100 64 1 2) ≡ within_one (address 100 64 1 2) blocked_ranges
is_blocked_ip-v4_example =
    is_blocked_ip-v4 100 64 1 2 (ground arith) (ground arith) (ground arith) (ground arith)

abbrev no_literal : Text → Option Ip
no_literal s = none

abbrev earlier : Call
earlier = record { now = 5; raw = codes " CDN.net"; lookup_ip = λ s. v4 8 8 8 8 ∷ [] }

abbrev later : Call
later = record { now = 900; raw = codes "cdn.net"; lookup_ip = λ s. [] }

admitted_host_example :
    (host_name later.raw ≢ [])
    × (host_name later.raw ≢ codes "localhost")
    × IsCleared (later ∷ earlier ∷ []) (host_name later.raw) later.now none
unfolding blocked_upstream_host run text_eq trim_space to_lower lookup insert
admitted_host_example = admitted_host no_literal (earlier ∷ []) later refl
