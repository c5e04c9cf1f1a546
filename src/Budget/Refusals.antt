-- ===== src/Budget/Refusals.antt =====
-- crates/cbr-provider/src/budget.rs: the limits, the refusals and the settlements.
use cbr.Prelude.{ℕ, ◌+◌, ◌*◌, Bool, true, false, Option, none, some, Bytes, Text, codes, length}

abbrev pub window_tokens : ℕ
window_tokens = 20000000

abbrev pub month_tokens : ℕ
month_tokens = 200000000

-- five hours
abbrev pub window_seconds : ℕ
window_seconds = 18000

abbrev pub per_request_tokens : ℕ
per_request_tokens = 250000

abbrev pub per_job_tokens : ℕ
per_job_tokens = 1000000

abbrev pub message_overhead_tokens : ℕ
message_overhead_tokens = 8

abbrev pub safety_margin_tokens : ℕ
safety_margin_tokens = 1024

pub data Refusal : Type 0 where
  window_exhausted month_exhausted per_request per_job run_ceiling overrun bound_unsound : Refusal

unfoldable pub a_tighter_figure_could_admit : Refusal → Bool
a_tighter_figure_could_admit window_exhausted = true
a_tighter_figure_could_admit month_exhausted = true
a_tighter_figure_could_admit per_job = true
a_tighter_figure_could_admit run_ceiling = true
a_tighter_figure_could_admit per_request = false
a_tighter_figure_could_admit overrun = false
a_tighter_figure_could_admit bound_unsound = false

unfoldable pub reason : Refusal → Text
reason window_exhausted = codes "budget_exhausted"
reason month_exhausted = codes "budget_exhausted"
reason per_request = codes "request_over_ceiling"
reason per_job = codes "job_over_ceiling"
reason run_ceiling = codes "run_over_ceiling"
reason overrun = codes "reservation_overrun"
reason bound_unsound = codes "local_bound_unsound"

-- How a reserved call ended.
pub data Settlement : Type 0 where
  usage : ℕ → Settlement
  usage_unknown nothing_spent provider_exhausted : Settlement

unfoldable pub settlement_reason : Settlement → Option Text
settlement_reason (usage tokens) = none
settlement_reason usage_unknown = some (codes "model_call_failed")
settlement_reason nothing_spent = some (codes "model_not_sent")
settlement_reason provider_exhausted = some (codes "provider_quota_exhausted")

unfoldable pub worst_case_tokens : Bytes → ℕ
worst_case_tokens text = length text

unfoldable pub input_bound : Bytes → ℕ → ℕ
unfolding worst_case_tokens
input_bound serialized messages = worst_case_tokens serialized + message_overhead_tokens * messages

-- The additions saturate at the top of `u64`, which no amount here comes near.
unfoldable pub reservation : Bytes → ℕ → ℕ → ℕ
unfolding input_bound
reservation serialized messages generation =
    input_bound serialized messages + generation + safety_margin_tokens
