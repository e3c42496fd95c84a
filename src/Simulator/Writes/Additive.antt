-- ===== src/Simulator/Writes/Additive.antt =====
-- A write of the SimulatorDeployment controller leaves an object alone that is there.
use mathlib.Core.Path.{subst}
use llm_d_scheduler_sim_oper.Base.{◌≡◌, ◌≢◌, refl, ◌∙◌}
use llm_d_scheduler_sim_oper.Kube.Objects.{Key, Body, Object}
use llm_d_scheduler_sim_oper.Kube.Calls.{
  Result, ok, err, not_found, failed, Call, attempt, fail, ◌>>=◌,
}
use llm_d_scheduler_sim_oper.Kube.Triples.{Keeps, Keeps-bind, Keeps-lift, Keeps-return}
use llm_d_scheduler_sim_oper.Kube.Client.{Client, IsLawful}
use llm_d_scheduler_sim_oper.Kube.Client.Writes.{Reads}
use llm_d_scheduler_sim_oper.Simulator.Writes.{create_or, create_if_missing, settle}

module _ {C : Client} (L : IsLawful C) {j : Key} {o : Object j.kind} where
  -- What is missing is none of the objects that are there.
  missing_ne : (k : Key) (s : C.State) → C.get s k ≡ err not_found → Reads C j (ok o) s → k ≢ j
  missing_ne k s gone h e = absurd_read (subst (λ (x : Key). C.get s x ≡ err not_found) e gone)
    where
      absurd_read : C.get s j ≡ err not_found → ⊥
      absurd_read x = cc (h.reads)

  settle-Keeps_present :
      (k : Key) (b : Body k.kind) (f : Object k.kind → Call C.State (Unit {0})) (s : C.State)
      (found : Result (Object k.kind))
      → C.get s k ≡ found
      → ((p : Object k.kind) → Keeps (Reads C j (ok o)) (f p))
      → Reads C j (ok o) s
      → Reads C j (ok o) (settle C k b f found s).1
  unfolding settle fail
  settle-Keeps_present k b f s (ok p) there kf h = (kf p).at s h
  settle-Keeps_present k b f s (err not_found) there kf h = record {
    reads = L.get-create_ne k j b s (missing_ne k s there h) ∙ h.reads;
  }
  settle-Keeps_present k b f s (err (failed m)) there kf h = h

  lookup-Keeps_present :
      (k : Key) (b : Body k.kind) (f : Object k.kind → Call C.State (Unit {0}))
      → ((p : Object k.kind) → Keeps (Reads C j (ok o)) (f p))
      → Keeps
          (Reads C j (ok o))
          (attempt (λ (s : C.State). C.get s k) >>= λ found. settle C k b f found)
  unfolding attempt ◌>>=◌
  lookup-Keeps_present k b f kf = record {
    at = λ s h. settle-Keeps_present k b f s (C.get s k) refl kf h;
  }

  pub create_or-Keeps_present :
      (owner k : Key) (b : Body k.kind) (f : Object k.kind → Call C.State (Unit {0}))
      → ((p : Object k.kind) → Keeps (Reads C j (ok o)) (f p))
      → Keeps (Reads C j (ok o)) (create_or C owner k b f)
  unfolding create_or
  create_or-Keeps_present owner k b f kf =
      Keeps-bind _ _ (Keeps-lift _) (λ owned. lookup-Keeps_present k owned f kf)

  pub create_if_missing-Keeps_present :
      (owner k : Key) (b : Body k.kind) → Keeps (Reads C j (ok o)) (create_if_missing C owner k b)
  unfolding create_if_missing
  create_if_missing-Keeps_present owner k b =
      create_or-Keeps_present owner k b _ (λ p. Keeps-return tt)
