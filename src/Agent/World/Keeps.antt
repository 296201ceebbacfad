-- ===== src/Agent/World/Keeps.antt =====
-- Invariants of the agent's world: rules for the actions that the agent is built of.
use dysonsphere.Common.{ℕ, suc, Bool, true, false, Bool-cases, inl, inr, if◌then◌else◌}
use dysonsphere.Agent.World.{AgentEnv, Buckets, World, Action, pure, ask, ◌>>=◌, update}

-- An action keeps `P`.
pub record Keeps {ℓ κ} {env : AgentEnv} {A : Type ℓ} (P : World env → Type κ) (m : Action env A)
    : Type κ where
  pub after : (w : World env) → P w → P (m w).1

module _ {ℓ κ} {env : AgentEnv} {A : Type ℓ} {P : World env → Type κ} where
  pub Keeps-pure : (a : A) → Keeps P (pure a)
  Keeps-pure a = record { after = λ w h. h }

  pub Keeps-if :
      (b : Bool) (m n : Action env A) → Keeps P m → Keeps P n → Keeps P (if b then m else n)
  Keeps-if true m n k l = k
  Keeps-if false m n k l = l

  -- A step that leaves the buckets and the uploads alone.
  pub Keeps-ask :
      (f : ℕ → A) → ((w : World env) → P w → P (record w { steps = suc w.steps })) → Keeps P (ask f)
  Keeps-ask f t = record { after = t }

module _ {ℓ κ μ} {env : AgentEnv} {A : Type ℓ} {B : Type κ} {P : World env → Type μ} where
  pub Keeps-bind :
      (m : Action env A) (f : A → Action env B)
      → Keeps P m
      → ((a : A) → Keeps P (f a))
      → Keeps P (m >>= f)
  Keeps-bind m f k l = record { after = λ w h. (l (m w).0).after (m w).1 (k.after w h) }

module _ {κ} (env : AgentEnv) (P : World env → Type κ) where
  -- A transaction keeps what its step and its change keep.
  pub Keeps-update :
      (f : Buckets env.bolt → Buckets env.bolt)
      → ((w : World env) → P w → P (record w { steps = suc w.steps }))
      → ((w : World env) → P w → P (record w { steps = suc w.steps; buckets = f w.buckets }))
      → Keeps P (update env f)
  unfolding update
  Keeps-update f t k = record {
    after = λ w h. elim (Bool-cases (env.store_fails w.steps)) [
      | inl down ↦ rw down (t w h)
      | inr up ↦ rw up (k w h)
    ];
  }
