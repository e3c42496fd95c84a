-- ===== src/Scheduler/Reconcile/Total.antt =====
-- A reconcile of a `SchedulerInstall` on a healthy cluster.
use mathlib.Core.Path.{subst, ◌∙◌}
use mathlib.Core.Option.{some-injective}
use llm_d_scheduler_sim_oper.Base.{
  ℕ, String, Bool, true, false, str_eq, str_eq_iff, Option, none, some, ◌≡◌, ◌≢◌, refl, sym, arith,
  if◌then◌else◌,
}
use llm_d_scheduler_sim_oper.Api.{
  SchedulerGatewayConfig, SchedulerRoutingConfig, SchedulerEnvoyFilterConfig, SchedulerInstall,
}
use llm_d_scheduler_sim_oper.Kube.Objects.{Kind, Object}
use llm_d_scheduler_sim_oper.Kube.Calls.{ok, Call, lift, ◌>>=◌, branch, on_enabled, when}
use llm_d_scheduler_sim_oper.Kube.Triples.{Keeps}
use llm_d_scheduler_sim_oper.Kube.Client.{Client, IsLawful}
use llm_d_scheduler_sim_oper.Kube.Client.Writes.{Keeps-Holds, kind_ne}
use llm_d_scheduler_sim_oper.Kube.Client.Healthy.{
  IsHealthy, Returns, Returns-return, Returns-seq, Returns-when, Returns-enabled,
  Returns-on_enabled, Returns-branch, Returns-owned, Returns-mutate,
}
use llm_d_scheduler_sim_oper.Scheduler.EppContent.{owner_key}
use llm_d_scheduler_sim_oper.Conditions.{update_conditions}
use llm_d_scheduler_sim_oper.Scheduler.Network.{
  reconcile_proxy_service, reconcile_gateway, reconcile_http_route, reconcile_reference_grant,
  reconcile_destination_rule,
}
use llm_d_scheduler_sim_oper.Scheduler.Network.Frame.{
  reconcile_reference_grant-Keeps, reconcile_proxy_service-Keeps,
}
use llm_d_scheduler_sim_oper.Scheduler.Reconcile.{
  filter_step, pool_named, routing_step, update_status, reconcile_install, checked, fetched,
  reconcile, with_defaults, ready_condition,
}
use llm_d_scheduler_sim_oper.Kube.Leads.{Leads, Returns-lead, Returns-weaken}
use llm_d_scheduler_sim_oper.Scheduler.NetworkContent.{proxy_key}
use llm_d_scheduler_sim_oper.Scheduler.EppContent.{epp_key}
use llm_d_scheduler_sim_oper.Scheduler.Reconcile.Poised.{
  Stored, Starting, Poised, EppReady, FilterReady, Keeps-Poised, epp_block-Poised,
}
use llm_d_scheduler_sim_oper.Scheduler.Reconcile.EppTotal.{epp_Returns}
use llm_d_scheduler_sim_oper.Scheduler.Reconcile.FilterTotal.{HasTarget, filter_Returns}
use llm_d_scheduler_sim_oper.Scheduler.Reconcile.Steps.{
  gateway_block-Keeps, routing_block-Keeps, rule_block-Keeps, filter_block-Keeps,
}

-- What the spec must say for a run to get through: the objects that the resource owns lie in its own
-- namespace, a route to an inference pool names it, and an enabled EnvoyFilter has an EPP and a
-- selector.
pub record IsServable (i : SchedulerInstall) : Type 0 where
  pub simulator : i.spec.simulator_namespace ≢ ""
  pub near : i.namespace ≡ i.spec.scheduler_namespace
  pub pool :
      (p : SchedulerRoutingConfig)
      → i.spec.routing ≡ some p
      → (if str_eq p.backend_type "InferencePool" then pool_named p.inference_pool else true) ≡ true
  pub target :
      (f : SchedulerEnvoyFilterConfig)
      → i.spec.envoy_filter ≡ some f
      → f.enabled ≡ true
      → HasTarget i f

module _ {C : Client} (H : IsHealthy C) (L : IsLawful C) (now : ℕ) (i : SchedulerInstall)
    (V : IsServable i) where
  gateway_Returns : (g : SchedulerGatewayConfig) → Returns (Stored C i) (reconcile_gateway C i g)
  unfolding reconcile_gateway
  gateway_Returns g =
      Returns-when _ (Returns-owned H _ _ _ _ V.near refl (λ b. Returns-mutate H _ _ _ (λ x. tt)))

  route_Returns : (p : SchedulerRoutingConfig) → Returns (Stored C i) (reconcile_http_route C i p)
  unfolding reconcile_http_route
  route_Returns p =
      Returns-when _ (Returns-owned H _ _ _ _ V.near refl (λ b. Returns-mutate H _ _ _ (λ x. tt)))

  routing_Returns :
      (o : Option SchedulerRoutingConfig)
      → i.spec.routing ≡ o
      → Returns (Stored C i) (on_enabled o (λ p. p.enabled) (routing_step C i))
  unfolding routing_step reconcile_reference_grant on_enabled when
  routing_Returns none there = Returns-return
  routing_Returns (some p) there = Returns-when p.enabled (
      Returns-branch _ _ _ (V.pool p there) (
        Returns-seq (Returns-when _ (Returns-mutate H _ _ _ (λ x. tt)))
          (Keeps-Holds _ _ _ λ r. reconcile_reference_grant-Keeps L i (kind_ne (λ x. cc)))
          (route_Returns p)))

  status_Returns :
      (ready : Bool) (reason message : String)
      → Returns (Stored C i) (update_status C now i ready reason message)
  unfolding update_status ◌>>=◌
  status_Returns ready reason message = record {
    at = λ s p.
        subst
          (λ r.
            ((lift r >>= λ latest. C.update_status (owner_key i) (record {
              conditions =
                  update_conditions (ready_condition C now ready reason message)
                    latest.status.conditions;
            }))
              s).0
            ≡ ok tt)
          (sym p.stored) (H.update_status_ok (owner_key i) _ p.object s p.stored);
  }

  gateway_block_Poised :
      Keeps (Poised C i) (on_enabled i.spec.gateway (λ g. g.enabled) (reconcile_gateway C i))
  gateway_block_Poised =
      Keeps-Poised i _ (λ r. gateway_block-Keeps L now i (λ x. cc))
        (λ f e r on there. gateway_block-Keeps L now i (λ x. cc))
        (λ f r. gateway_block-Keeps L now i (λ x. cc))

  proxy_Poised : Keeps (Poised C i) (reconcile_proxy_service C i)
  proxy_Poised =
      Keeps-Poised i _ (λ r. reconcile_proxy_service-Keeps L i (kind_ne (λ x. cc)))
        (λ f e r on there. reconcile_proxy_service-Keeps L i (
          let t = V.target f on.0 on.1 in
          subst (λ e. proxy_key i ≢ epp_key i e Kind.service)
            (some-injective _ _ (sym t.there ∙ there)) t.separate))
        (λ f r. reconcile_proxy_service-Keeps L i (kind_ne (λ x. cc)))

  routing_block_Poised :
      Keeps (Poised C i) (on_enabled i.spec.routing (λ p. p.enabled) (routing_step C i))
  routing_block_Poised =
      Keeps-Poised i _ (λ r. routing_block-Keeps L now i (λ x. cc) (λ x. cc))
        (λ f e r on there. routing_block-Keeps L now i (λ x. cc) (λ x. cc))
        (λ f r. routing_block-Keeps L now i (λ x. cc) (λ x. cc))

  rule_block_Poised :
      Keeps
        (Poised C i)
        (on_enabled i.spec.destination_rule (λ d. d.enabled) (reconcile_destination_rule C i))
  rule_block_Poised =
      Keeps-Poised i _ (λ r. rule_block-Keeps L now i (λ x. cc))
        (λ f e r on there. rule_block-Keeps L now i (λ x. cc))
        (λ f r. rule_block-Keeps L now i (λ x. cc))

  -- The EnvoyFilter's block leaves the resource stored.
  filter_leads : Leads (Poised C i) (filter_step C i i.spec.envoy_filter) (Stored C i)
  filter_leads = record {
    at = λ s p x. (Keeps-Holds _ _ _ (λ r. filter_block-Keeps L now i (λ y. cc))).at s p.stored;
  }

  poised : {m : Call C.State (Unit {0})} → Returns (Stored C i) m → Returns (Poised C i) m
  poised = Returns-weaken (λ s p. p.stored)

  pub install_Returns : Returns (Starting C i) (reconcile_install C now i)
  unfolding reconcile_install reconcile_proxy_service reconcile_destination_rule
  install_Returns =
      Returns-lead
        (Returns-on_enabled i.spec.epp _ _
          λ e there on. Returns-weaken (λ s p. p.fits e there on) (epp_Returns H L i V.near e))
        (epp_block-Poised H L now i)
        (Returns-seq (poised (Returns-enabled i.spec.gateway _ _ gateway_Returns))
          gateway_block_Poised
          (Returns-seq (Returns-mutate H _ _ _ (λ x. tt)) proxy_Poised (
            Returns-seq (poised (routing_Returns i.spec.routing refl)) routing_block_Poised (
              Returns-seq
                (Returns-enabled i.spec.destination_rule _ _
                  (λ d. Returns-when _ (Returns-mutate H _ _ _ (λ x. tt))))
                rule_block_Poised
                (Returns-lead (filter_Returns H L i V.near i.spec.envoy_filter refl V.target)
                  filter_leads (status_Returns true _ _))))))

given : (t : String) → t ≢ "" → str_eq t "" ≡ false
given t ne = ground (arith, str_eq_iff t "")

past_guard :
    {S : Type 0} (b : Bool) (m n : Call S (Unit {0})) (s : S)
    → b ≡ false
    → (n s).0 ≡ ok tt
    → (branch b m n s).0 ≡ ok tt
unfolding branch
past_guard true m n s e h = cc
past_guard false m n s e h = h

-- On a cluster where no call fails for a reason of its own, with the values that are sent taken to be
-- valid, a reconcile of a SchedulerInstall returns no error: if the simulator's namespace is given, the scheduler's namespace is the resource's own, a
-- route to an inference pool has the pool's name, and, for an enabled EnvoyFilter, the EPP is enabled,
-- there is a selector, and the Services of the EPP and of the proxy are two objects. Of the objects
-- that are there, four matter. If the EPP is enabled, a Deployment of its name has its selector and a
-- RoleBinding of its name binds its Role, since no update changes these. If an EnvoyFilter is enabled,
-- the EPP's Service has an address, and the EnvoyFilter has no other controller.
pub reconcile-succeeds :
    {C : Client} (H : IsHealthy C) (L : IsLawful C) (now : ℕ) (namespace name : String)
    (o : Object Kind.scheduler_install) (s : C.State)
    → C.get s (record { kind = Kind.scheduler_install; namespace = namespace; name = name }) ≡ ok o
    → IsServable (with_defaults namespace name o.body.spec)
    → EppReady C (with_defaults namespace name o.body.spec) s
    → FilterReady C (with_defaults namespace name o.body.spec) s
    → (reconcile C now namespace name s).0 ≡ ok tt
unfolding reconcile fetched checked ◌>>=◌
reconcile-succeeds {C} H L now namespace name o s there V fits ready =
    subst (λ r. (fetched C now namespace name r s).0 ≡ ok tt) (sym there)
      (past_guard _ _ _ s (given _ V.simulator) (
        (install_Returns H L now (with_defaults namespace name o.body.spec) V).at s (record {
          stored = record { object = o; stored = there; meets = tt };
          fits = fits;
          ready = ready;
        })))
