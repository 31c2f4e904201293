-- ===== src/Cluster/Keeps.antt =====
-- How a property of the world passes through the steps of a run.
use op_stack_operator.Prelude.{String, ◌≡◌, refl, Bool, true, false, if◌then◌else◌}
use op_stack_operator.Api.Meta.{NamespacedName, ObjectMeta}
use op_stack_operator.Runtime.{Result, ok, err, Eff, or_return, or_wrap}
use op_stack_operator.Cluster.{Client, Cluster, Keeps}

module _ {W : Type 0} (I : W → Type 0) where
  pub Keeps-or_return :
      {A B : Type 0} (r : Result A) (k : A → Eff W (Result B)) (w : W)
      → I w
      → ((a : A) → Keeps I (k a))
      → I (or_return r k w).1
  Keeps-or_return (ok a) k w h keeps = keeps a w h
  Keeps-or_return (err e) k w h keeps = h

  pub Keeps-or_wrap :
      {A B : Type 0} (prefix : String) (r : Result A) (k : A → Eff W (Result B)) (w : W)
      → I w
      → ((a : A) → Keeps I (k a))
      → I (or_wrap prefix r k w).1
  Keeps-or_wrap prefix (ok a) k w h keeps = keeps a w h
  Keeps-or_wrap prefix (err e) k w h keeps = h

  pub Keeps-if :
      {A : Type 0} (b : Bool) (m n : Eff W A) (w : W)
      → I (m w).1
      → I (n w).1
      → I ((if b then m else n) w).1
  Keeps-if true m n w h k = h
  Keeps-if false m n w h k = k

  -- A call that is followed by another one where it succeeds, on what it returned.
  pub Keeps-or_return_of :
      {A B : Type 0} (run : Result A × W) (k : A → Eff W (Result B))
      → I run.1
      → ((a : A) (v : W) → run ≡ (ok a, v) → I v → I (k a v).1)
      → I (or_return run.0 k run.1).1
  Keeps-or_return_of (ok a, v) k h keeps = keeps a v refl h
  Keeps-or_return_of (err e, v) k h keeps = h

  -- Writing back, in the state that the look-up left, what was just read under that key.
  abbrev pub WritesBack :
      {A : Type 0}
      → Client W A
      → (A → Eff W (Result (Unit {0})))
      → (A → A → Type 0)
      → NamespacedName
      → Type 0
  WritesBack {A} client write Change key =
      (w v : W) (a a' : A) → client.get key w ≡ (ok a, v) → Change a a' → I v → I (write a' v).1

-- What SetControllerReference made of metadata with that name in the owner's namespace.
abbrev pub Owned :
    {W EthClient Q : Type 0}
    → Cluster W EthClient Q
    → String
    → ObjectMeta
    → String
    → ObjectMeta
    → Type 0
Owned cluster kind owner name meta =
    (base : ObjectMeta) × (base.name ≡ name)
    × (base.namespace ≡ owner.namespace)
    × (cluster.set_controller_reference kind owner base ≡ ok meta)
