-- ===== src/Scheduler/Network/Labels.antt =====
-- The labels that name the SchedulerInstall on an object of another namespace, `crossNamespaceLabels`
-- of controllers/schedulerinstall_controller.go, and the loop that merges them into what is there.
use llm_d_scheduler_sim_oper.Base.{
  String, str_eq, str_eq_iff, false, some, ◌≡◌, refl, ap, lookup, merge, merge_same, lookup-insert,
  Labels, arith, if◌then◌else◌,
}
use llm_d_scheduler_sim_oper.Api.{SchedulerInstall}
use llm_d_scheduler_sim_oper.Kube.Objects.{ObjectMeta}
use llm_d_scheduler_sim_oper.Scheduler.EppContent.{cross_namespace_labels}
use llm_d_scheduler_sim_oper.Scheduler.Epp.Installed.{Selects}
use llm_d_scheduler_sim_oper.Scheduler.NetworkContent.{add_owner_labels}

abbrev install_label : String
install_label = "sim.llm-d.io/schedulerInstall"

abbrev namespace_label : String
namespace_label = "sim.llm-d.io/schedulerNamespace"

labels_differ : str_eq install_label namespace_label ≡ false
unfolding str_eq
labels_differ = refl

lookup-merge :
    (i : SchedulerInstall) (m : Labels) (k : String)
    → lookup k (merge (cross_namespace_labels i) m) ≡ (
        if str_eq namespace_label k
        then some i.namespace
        else if str_eq install_label k
        then some i.name
        else lookup k m)
unfolding cross_namespace_labels merge
lookup-merge i m k = simp lookup-insert

-- The labels that name the resource are there after a merge, whatever was there before.
pub merge-Selects :
    (i : SchedulerInstall) (m : Labels)
    → Selects (cross_namespace_labels i) (merge (cross_namespace_labels i) m)
unfolding cross_namespace_labels lookup
merge-Selects i m k v h = ground (
  arith,
  lookup-merge i m k,
  labels_differ,
  str_eq_iff install_label k,
  str_eq_iff namespace_label k,
  str_eq_iff install_label namespace_label,
)

-- So a second merge changes nothing.
pub labels_same :
    (i : SchedulerInstall) (m : ObjectMeta)
    → Selects (cross_namespace_labels i) m.labels
    → add_owner_labels i m ≡ m
unfolding cross_namespace_labels lookup str_eq
labels_same i m h =
    ap (λ l. record m { labels = l })
      (merge_same "sim.llm-d.io/schedulerInstall" i.name "sim.llm-d.io/schedulerNamespace"
        i.namespace m.labels (h "sim.llm-d.io/schedulerInstall" i.name refl)
        (h "sim.llm-d.io/schedulerNamespace" i.namespace refl))
