-- ===== src/Cluster/Within.antt =====
-- Bounds on what a run returns: its RequeueAfter, in nanoseconds.
use op_stack_operator.Prelude.{ℕ, ◌≡◌, ◌≤◌, Bool, true, false, if◌then◌else◌}
use op_stack_operator.Prelude.Int.{pos}
use op_stack_operator.Runtime.{Result, ok, err, Eff, or_return}
use op_stack_operator.Cluster.{Outcome}

-- An outcome asks for a delay that is not negative and at most that long; an error asks for none.
abbrev pub Within : ℕ → Result Outcome → Type 0
Within limit (ok outcome) = (n : ℕ) × (outcome.requeue_after ≡ pos n) × (n ≤ limit)
Within limit (err e) = Unit {0}

pub Within-or_return :
    {W A : Type 0} (limit : ℕ) (r : Result A) (outcome : Outcome) (w : W)
    → Within limit (ok outcome)
    → Within limit (or_return r (λ _ v. (ok outcome, v)) w).0
Within-or_return limit (ok _) outcome w h = h
Within-or_return limit (err _) outcome w h = tt

pub Within-if :
    {W : Type 0} (limit : ℕ) (b : Bool) (m n : Eff W (Result Outcome)) (w : W)
    → Within limit (m w).0
    → Within limit (n w).0
    → Within limit ((if b then m else n) w).0
Within-if limit true m n w h k = h
Within-if limit false m n w h k = k
