-- ===== src/Cluster/Retries.antt =====
-- How the runs of an action under RetryOnConflict end.
use op_stack_operator.Prelude.{◌≡◌, refl, subst}
use op_stack_operator.Runtime.{Result, Eff}
use op_stack_operator.Cluster.{Retried, last, again, Keeps}

-- The outcome is that of an attempt.
pub Retried-ends :
    {W : Type 0} (backoff : W → W) (f : Eff W (Result (Unit {0}))) (w : W)
    (run : Result (Unit {0}) × W)
    → Retried backoff f w run
    → (v : W) × (f v ≡ run)
Retried-ends backoff f w run (last) = (w, refl)
Retried-ends backoff f w run (again {w' = w'} _ _ rest) =
    Retried-ends backoff f (backoff w') run rest

-- What an attempt and the time between two of them do not end, the whole does not.
pub Retried-Keeps :
    {W : Type 0} (I : W → Type 0) (backoff : W → W) (f : Eff W (Result (Unit {0})))
    → Keeps I f
    → ((w : W) → I w → I (backoff w))
    → (w : W) (run : Result (Unit {0}) × W) → Retried backoff f w run
    → I w
    → I run.1
Retried-Keeps I backoff f keeps waits w run (last) h = keeps w h
Retried-Keeps I backoff f keeps waits w run (again {w' = w'} failed _ rest) h =
    Retried-Keeps I backoff f keeps waits (backoff w') run rest
      (waits w' (subst (λ r. I r.1) failed (keeps w h)))
