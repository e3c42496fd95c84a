-- ===== src/Tests/Manager.antt =====
-- The start of the operator, with a manager whose health check cannot be set up.
use llm_d_scheduler_sim_oper.Base.{Bool, true, false, if◌then◌else◌, ◌≡◌, []}
use llm_d_scheduler_sim_oper.Kube.Objects.{GroupVersionKind}
use llm_d_scheduler_sim_oper.Main.{default_flags, main}
use llm_d_scheduler_sim_oper.Main.Start.{
  Event, made, controller, healthz, readyz, started, noting, start_events, until_refused,
  any_refused, main-until_refused,
}

abbrev no_healthz : Event → Bool
no_healthz (made o) = false
no_healthz (controller b r) = false
no_healthz (healthz n) = true
no_healthz (readyz n) = false
no_healthz started = false

abbrev maps_all : GroupVersionKind → Bool
maps_all k = true

main-until_refused_example : main (noting no_healthz maps_all) default_flags [] ≡ (
  if any_refused no_healthz (start_events maps_all default_flags) then 1 else 0,
  until_refused no_healthz (start_events maps_all default_flags),
)
main-until_refused_example = main-until_refused no_healthz maps_all default_flags
