-- ===== src/Scheduler/Defaults/KeptParts.antt =====
-- That `setDefaults` of controllers/schedulerinstall_controller.go overwrites no field that is set
-- in the proxy Service, the EPP and the gateway.
use llm_d_scheduler_sim_oper.Base.{
  ℤ, pos, String, [], ◌∷◌, Labels, is_empty_map, str_eq_iff, int_eq_iff, true, ◌≡◌, ◌⊎◌, inl, inr,
  refl, arith,
}
use llm_d_scheduler_sim_oper.Api.{ProxyServiceConfig, SchedulerEppConfig, SchedulerGatewayConfig}
use llm_d_scheduler_sim_oper.Scheduler.Defaults.{
  text_or, int_or, labels_or, default_proxy_service, default_epp, default_gateway,
}

-- The first is what was given, the second what it has become.
abbrev pub KeptText : String → String → Type 0
KeptText s t = (s ≡ "") ⊎ (t ≡ s)

abbrev pub KeptInt : ℤ → ℤ → Type 0
KeptInt n m = (n ≡ pos 0) ⊎ (m ≡ n)

abbrev pub KeptLabels : Labels → Labels → Type 0
KeptLabels l m = (is_empty_map l ≡ true) ⊎ (m ≡ l)

pub record KeptProxy (p q : ProxyServiceConfig) : Type 0 where
  pub name : KeptText p.name q.name
  pub port : KeptInt p.port q.port
  pub target_port : KeptInt p.target_port q.target_port
  pub selector : KeptLabels p.selector q.selector

pub record KeptEpp (e f : SchedulerEppConfig) : Type 0 where
  pub name : KeptText e.name f.name
  pub image : KeptText e.image f.image
  pub replicas : KeptInt e.replicas f.replicas
  pub port : KeptInt e.port f.port
  pub pool_name : KeptText e.pool_name f.pool_name
  pub pool_namespace : KeptText e.pool_namespace f.pool_namespace
  pub config_profile : KeptText e.config_profile f.config_profile
  pub enabled : f.enabled ≡ e.enabled
  pub verbosity : f.verbosity ≡ e.verbosity
  pub args : f.args ≡ e.args
  pub resources : f.resources ≡ e.resources

pub record KeptGateway (g h : SchedulerGatewayConfig) : Type 0 where
  pub enabled : h.enabled ≡ g.enabled
  pub name : KeptText g.name h.name
  pub class_name : KeptText g.class_name h.class_name
  pub listener_port : KeptInt g.listener_port h.listener_port
  pub listener_protocol : KeptText g.listener_protocol h.listener_protocol

pub text_kept : (s d : String) → KeptText s (text_or s d)
unfolding text_or
text_kept s d = ground (arith, str_eq_iff s "")

int_kept : (n d : ℤ) → KeptInt n (int_or n d)
unfolding int_or
int_kept n d = ground (arith, int_eq_iff n (pos 0))

pub labels_kept : (m d : Labels) → KeptLabels m (labels_or m d)
unfolding labels_or
labels_kept [] d = inl refl
labels_kept (x ∷ m) d = inr refl

pub proxy_kept : (p : ProxyServiceConfig) → KeptProxy p (default_proxy_service p)
unfolding default_proxy_service
proxy_kept p = record {
  name = text_kept p.name _;
  port = int_kept p.port _;
  target_port = int_kept p.target_port _;
  selector = labels_kept p.selector _;
}

pub epp_kept : (n : String) (e : SchedulerEppConfig) → KeptEpp e (default_epp n e)
unfolding default_epp
epp_kept n e = record {
  name = text_kept e.name _;
  image = text_kept e.image _;
  replicas = int_kept e.replicas _;
  port = int_kept e.port _;
  pool_name = text_kept e.pool_name _;
  pool_namespace = text_kept e.pool_namespace _;
  config_profile = text_kept e.config_profile _;
  enabled = refl;
  verbosity = refl;
  args = refl;
  resources = refl;
}

pub gateway_kept : (g : SchedulerGatewayConfig) → KeptGateway g (default_gateway g)
unfolding default_gateway
gateway_kept g = record {
  enabled = refl;
  name = text_kept g.name _;
  class_name = text_kept g.class_name _;
  listener_port = int_kept g.listener_port _;
  listener_protocol = text_kept g.listener_protocol _;
}
