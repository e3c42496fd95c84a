-- ===== src/Cluster/SharedStage.antt =====
-- Two SimulatorDeployments of one namespace, which share the Deployment and the Service of their
-- decode stages: `reconcileStage` of controllers/simulatordeployment_controller.go names them for the
-- stage alone.
use mathlib.Core.Path.{subst, ap}
use llm_d_scheduler_sim_oper.Base.{
  ℕ, ℤ, String, Bool, true, false, not, ◌&&◌, some, ◌≡◌, ◌≢◌, refl, sym, ◌∙◌, ◌⊎◌, inl, inr,
}
use llm_d_scheduler_sim_oper.Api.{StageConfig, SimulatorDeployment}
use llm_d_scheduler_sim_oper.Kube.Objects.{Kind, Key, Body, Object}
use llm_d_scheduler_sim_oper.Kube.Calls.{Result, ok, err, not_found}
use llm_d_scheduler_sim_oper.Kube.Client.{Client, IsLawful, Holds}
use llm_d_scheduler_sim_oper.Kube.Client.Healthy.{IsHealthy}
use llm_d_scheduler_sim_oper.Kube.Client.Writes.{ok_injective}
use llm_d_scheduler_sim_oper.Simulator.Defaults.{default_stage}
use llm_d_scheduler_sim_oper.Simulator.Content.{
  simulator_key, stage_key, stage_deployment, stage_service,
}
use llm_d_scheduler_sim_oper.Simulator.Writes.{scaled}
use llm_d_scheduler_sim_oper.Simulator.Writes.Settled.{IsBuilt, Settled}
use llm_d_scheduler_sim_oper.Simulator.Steps.Outcome.{Scaled, Placed}
use llm_d_scheduler_sim_oper.Simulator.Reconcile.{
  is_legacy, reconcile_request, simulator_with_defaults,
}
use llm_d_scheduler_sim_oper.Simulator.Reconcile.Provisioned.{IsApart}
use llm_d_scheduler_sim_oper.Simulator.Reconcile.Success.{reconcile_request-Provisioned}
use llm_d_scheduler_sim_oper.Simulator.Reconcile.Total.{reconcile_request-succeeds}
use llm_d_scheduler_sim_oper.Simulator.Reconcile.Additive.{reconcile_request_keeps_present}

-- The decode stage of a resource, with its defaults, if it is enabled.
pub record HasDecode (d : SimulatorDeployment) (c : StageConfig) : Type 0 where
  pub there : d.spec.decode ≡ some c
  pub enabled : c.enabled ≡ true

no_legacy : (b : Bool) → (b && not true) ≡ false
no_legacy true = refl
no_legacy false = refl

-- With a decode stage there is no single Deployment.
decode-IsApart : (d : SimulatorDeployment) (c : StageConfig) → HasDecode d c → IsApart d
decode-IsApart d c h =
    let off : is_legacy d ≡ false = rw (h.there, h.enabled) (no_legacy _) in
    record { deployment = λ n on. cc; service = λ n on. cc }

-- The objects of the first resource's decode stage, with `n` replicas.
pub record IsFirst (C : Client) (d : SimulatorDeployment) (c : StageConfig) (n : ℤ) (s : C.State)
    : Type 0 where
  pub deployment :
      Holds C
        (stage_key d Kind.deployment "decode")
        (λ b.
          (x : Body Kind.deployment) × IsBuilt (simulator_key d) (stage_deployment d "decode" c) x
          × (b ≡ scaled x n))
        s
  pub service :
      Holds C
        (stage_key d Kind.service "decode")
        (IsBuilt (simulator_key d) (stage_service d "decode" c))
        s

-- What the second of two resources finds is the first one's.
first_stays :
    {k : Kind} (owner other : Key) (b b' : Body k) (change change' : Body k → Body k)
    (r r' r'' : Result (Object k))
    → r ≡ err not_found
    → Settled owner b change r r'
    → Settled other b' change' r' r''
    → (x : Body k) × IsBuilt owner b x × (p : Object k) × (r'' ≡ ok p) × (p.body ≡ change' x)
first_stays {k} owner other b b' change change' r r' r'' gone h h' = go h.how h'.how
  where
    go :
        ((r ≡ err not_found) × IsBuilt owner b h.object.body)
          ⊎ ((p : Object k) × (r ≡ ok p) × (h.object.body ≡ change p.body))
        → ((r' ≡ err not_found) × IsBuilt other b' h'.object.body)
          ⊎ ((p : Object k) × (r' ≡ ok p) × (h'.object.body ≡ change' p.body))
        → (x : Body k) × IsBuilt owner b x × (p : Object k) × (r'' ≡ ok p) × (p.body ≡ change' x)
    go (inl (_, built)) (inr (q, found, changed)) = (
      h.object.body,
      built,
      h'.object,
      h'.stored,
      subst (λ (x : Object k). h'.object.body ≡ change' x.body)
          (ok_injective (sym found ∙ h.stored)) changed,
    )
    go (inl _) (inl (lost, _)) = cc (h.stored)
    go (inr (p, found, _)) _ = cc

module _ {C : Client} (H : IsHealthy C) (L : IsLawful C) (now : ℕ) (namespace : String) where
  abbrev key : String → Key
  key name = record { kind = Kind.simulator_deployment; namespace = namespace; name = name }

  abbrev after : String → C.State → C.State
  after name s = (reconcile_request C now namespace name s).1

  abbrev resource : String → Object Kind.simulator_deployment → SimulatorDeployment
  resource name o = simulator_with_defaults namespace name o.body.spec

  -- What became of the two objects of the decode stage.
  abbrev pub StageSettled : SimulatorDeployment → StageConfig → C.State → C.State → Type 0
  StageSettled d c s t =
      Scaled d (stage_deployment d "decode" c) c.replicas
        (C.get s (stage_key d Kind.deployment "decode"))
        (C.get t (stage_key d Kind.deployment "decode"))
      × Placed d (stage_service d "decode" c) (C.get s (stage_key d Kind.service "decode"))
          (C.get t (stage_key d Kind.service "decode"))

  pub decode-StageSettled :
      (name : String) (o : Object Kind.simulator_deployment) (c : StageConfig) (s : C.State)
      → C.get s (key name) ≡ ok o
      → HasDecode (resource name o) c
      → StageSettled (resource name o) (default_stage (resource name o) c) s (after name s)
  decode-StageSettled name o c s there h =
      let (same, provisioned) =
        reconcile_request-Provisioned L now namespace name o s there (decode-IsApart _ c h) in
      let moved = provisioned.decode c (h.there, h.enabled) in
      let done =
        ap (λ (r : Result (Unit {0}) × C.State). r.0) (sym same)
        ∙ reconcile_request-succeeds H L now namespace name s in
      subst
        (λ (r : Result (Unit {0}) × C.State).
          StageSettled (resource name o) (default_stage (resource name o) c) s r.1)
        (sym same) (moved.deployment.at s done, moved.service.at s done)

  StageSettled-IsFirst :
      (d e : SimulatorDeployment) (c c' : StageConfig) (s t u : C.State)
      → C.get s (stage_key d Kind.deployment "decode") ≡ err not_found
      → C.get s (stage_key d Kind.service "decode") ≡ err not_found
      → StageSettled d c s t
      → Scaled e
          (stage_deployment e "decode" c')
          c'.replicas
          (C.get t (stage_key d Kind.deployment "decode"))
          (C.get u (stage_key d Kind.deployment "decode"))
      → Placed e
          (stage_service e "decode" c')
          (C.get t (stage_key d Kind.service "decode"))
          (C.get u (stage_key d Kind.service "decode"))
      → IsFirst C d c c'.replicas u
  StageSettled-IsFirst d e c c' s t u gone gone' first deployed served =
      let (x, built, p, stored, changed) =
        first_stays (simulator_key d) (simulator_key e) (stage_deployment d "decode" c)
          (stage_deployment e "decode" c') (λ b. scaled b c.replicas) (λ b. scaled b c'.replicas) _
          _ _ gone first.0 deployed in
      let (y, built', q, stored', same) =
        first_stays (simulator_key d) (simulator_key e) (stage_service d "decode" c)
          (stage_service e "decode" c') (λ b. b) (λ b. b) _ _ _ gone' first.1 served in
      record {
        deployment = record { object = p; stored = stored; meets = (x, built, changed) };
        service = record {
          object = q;
          stored = stored';
          meets = subst (IsBuilt (simulator_key d) (stage_service d "decode" c)) (sym same) built';
        };
      }

  -- On a healthy cluster, let two SimulatorDeployments of one namespace both enable a decode stage,
  -- and let neither its Deployment nor its Service be there. After a reconcile of the first and then
  -- of the second, the Deployment is that of the first, which controls it, with the replicas of the
  -- second, and the Service is that of the first: nothing else of the second one's stage is there.
  pub second_simulator-IsFirst :
      (name other : String) (o o' : Object Kind.simulator_deployment) (c c' : StageConfig)
      (s : C.State)
      → name ≢ other
      → C.get s (key name) ≡ ok o
      → C.get s (key other) ≡ ok o'
      → HasDecode (resource name o) c
      → HasDecode (resource other o') c'
      → C.get s (stage_key (resource name o) Kind.deployment "decode") ≡ err not_found
      → C.get s (stage_key (resource name o) Kind.service "decode") ≡ err not_found
      → IsFirst C
          (resource name o)
          (default_stage (resource name o) c)
          (default_stage (resource other o') c').replicas
          (after other (after name s))
  second_simulator-IsFirst name other o o' c c' s apart there there' h h' gone gone' =
      let kept =
        reconcile_request_keeps_present L now namespace name s (key other) o' there' λ spec.
          record {
            prefill = λ x. cc;
            decode = λ x. cc;
            single = λ x. cc;
            resource = λ x. apart (ap (λ (k : Key). k.name) x);
          } in
      let second = decode-StageSettled other o' c' (after name s) kept h' in
      StageSettled-IsFirst (resource name o) (resource other o') _
        (default_stage (resource other o') c') s (after name s) _ gone gone'
        (decode-StageSettled name o c s there h) second.0 second.1
