-- ===== src/Simulator/Writes.antt =====
-- How the SimulatorDeployment controller writes an object: it sets the owner of what it built, reads
-- the object, creates it if there is none, and of one that is there changes at most the replicas.
pub mod Moves
pub mod Settled
pub mod Healthy
pub mod Additive
pub mod Owned
use llm_d_scheduler_sim_oper.Base.{ℤ, String, int_eq, not, Bool, true, Option, none, some}
use llm_d_scheduler_sim_oper.Kube.Objects.{Kind, Key, Body, Object}
use llm_d_scheduler_sim_oper.Kube.Calls.{
  Result, ok, err, not_found, failed, Call, return, fail, lift, attempt, ◌>>=◌, branch,
}
use llm_d_scheduler_sim_oper.Kube.Client.{Client, set_owner}

module _ (C : Client) where
  -- `err := r.Get(...)`, then `Create` on `errors.IsNotFound`, or the error, or the branch for an
  -- object that is there.
  unfoldable pub settle :
      (k : Key)
      → Body k.kind
      → (Object k.kind → Call C.State (Unit {0}))
      → Result (Object k.kind)
      → Call C.State (Unit {0})
  settle k b on_found (ok o) = on_found o
  settle k b on_found (err not_found) = C.create k b
  settle k b on_found (err (failed m)) = fail (failed m)

  unfoldable pub create_or :
      (owner k : Key)
      → Body k.kind
      → (Object k.kind → Call C.State (Unit {0}))
      → Call C.State (Unit {0})
  unfolding settle
  create_or owner k b on_found = do
    owned ← lift (set_owner C owner k b)
    found ← attempt (λ s. C.get s k)
    settle k owned on_found found

  unfoldable pub create_if_missing : (owner k : Key) → Body k.kind → Call C.State (Unit {0})
  unfolding create_or
  create_if_missing owner k b = create_or owner k b (λ o. return tt)

-- `found.Spec.Replicas == nil || *found.Spec.Replicas != n`
abbrev pub replicas_differ : Option ℤ → ℤ → Bool
replicas_differ none n = true
replicas_differ (some m) n = not (int_eq m n)

abbrev pub scaled : Body Kind.deployment → ℤ → Body Kind.deployment
scaled b n = record b { spec = record (b.spec) { replicas = some n } }

module _ (C : Client) where
  -- The update of a Deployment that is there, with `Update` if the replicas differ.
  unfoldable pub scale :
      (namespace name : String) → ℤ → Object Kind.deployment → Call C.State (Unit {0})
  scale namespace name n o =
      branch (replicas_differ o.body.spec.replicas n)
        (C.update (record { kind = Kind.deployment; namespace = namespace; name = name })
          (scaled o.body n))
        (return tt)
