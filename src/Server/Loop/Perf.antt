-- ===== src/Server/Loop/Perf.antt =====
-- The totals of `perf_dumper`.
use rust_http.Base.{◌+◌, ◌%◌, ◌≤◌, ◌<◌, ◌≡◌, List, [], ◌∷◌, All, arith}
use rust_http.Server.Loop.{Totals, PerfData, u64_mod, perf_step, perf_dumper}

-- Times of a `u64`, one not before the other.
pub record IsOrdered (d : PerfData) : Type 0 where
  pub spawned_after : d.start ≤ d.spawned
  pub request_after : d.spawned ≤ d.request_made
  pub response_after : d.request_made ≤ d.response_made
  pub finished_after : d.response_made ≤ d.finished
  pub fits : d.finished < u64_mod

-- The four parts add up to the total, as `u64`.
pub record IsBalanced (t : Totals) : Type 0 where
  pub balance : (t.td_spawn + t.td_request + t.td_response + t.td_handle) % u64_mod ≡ t.td_total
  pub fits : t.td_total < u64_mod

perf_step-IsBalanced :
    (t : Totals) (d : PerfData) → IsBalanced t → IsOrdered d → IsBalanced (perf_step t d)
unfolding perf_step
perf_step-IsBalanced t d b o = omega arith

-- From balanced totals, such as all zero, and with the times of each request in order: after any
-- number of requests the total time is the sum of the four parts modulo 2 ^ 64, even where the sums
-- wrap around.
pub perf_dumper-IsBalanced :
    (ds : List PerfData) (t : Totals)
    → IsBalanced t
    → All IsOrdered ds
    → IsBalanced (perf_dumper ds t)
unfolding perf_dumper
perf_dumper-IsBalanced [] t b os = b
perf_dumper-IsBalanced (d ∷ ds) t b (o, os) =
    perf_dumper-IsBalanced ds (perf_step t d) (perf_step-IsBalanced t d b o) os
