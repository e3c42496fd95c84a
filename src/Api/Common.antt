-- ===== src/Api/Common.antt =====
-- Structs that both custom resources use: the load balancing settings of
-- api/v1alpha1/simulatordeployment_types.go, and the Kubernetes types that the resources embed.
use llm_d_scheduler_sim_oper.Base.{ℕ, ℤ, String, Bool, Option, Labels}

-- `corev1.ResourceRequirements`, which the operator only passes on: quantities by resource name.
pub record ResourceRequirements : Type 0 where
  pub limits : Labels
  pub requests : Labels

-- `metav1.ConditionStatus`, of which the operator writes two values.
pub data ConditionStatus : Type 0 where
  condition_true condition_false condition_unknown : ConditionStatus

-- `metav1.Condition`; a time stamp is a number of seconds.
pub record Condition : Type 0 where
  pub type_name : String
  pub status : ConditionStatus
  pub reason : String
  pub message : String
  pub last_transition_time : ℕ

pub record ConnectionPoolConfig : Type 0 where
  pub http1_max_pending_requests : ℤ
  pub max_requests_per_connection : ℤ

pub record LoadBalancingConfig : Type 0 where
  pub enabled : Bool
  pub algorithm : String
  pub connection_pool : Option ConnectionPoolConfig
