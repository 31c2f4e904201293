-- ===== src/Api/Meta.antt =====
-- The parts of k8s.io/apimachinery's object metadata and conditions that the operator reads or
-- writes.
use op_stack_operator.Prelude.{String, Option, List}
use op_stack_operator.Prelude.Int.{ℤ}

pub record NamespacedName : Type 0 where
  pub name : String
  pub namespace : String

-- metav1.ObjectMeta
pub record ObjectMeta : Type 0 where
  pub name : String
  pub namespace : String
  pub generation : ℤ
  pub deletion_timestamp : Option ℤ
  pub finalizers : List String
  pub labels : List (String × String)
  pub annotations : List (String × String)
  -- the UID-free part of the owner references: kind and name
  pub owner_references : List (String × String)

pub data ConditionStatus : Type 0 where
  condition_true condition_false condition_unknown : ConditionStatus

-- metav1.Condition
pub record Condition : Type 0 where
  pub type : String
  pub status : ConditionStatus
  pub observed_generation : ℤ
  pub last_transition_time : ℤ
  pub reason : String
  pub message : String

abbrev pub name_of : ObjectMeta → NamespacedName
name_of meta = record { name = meta.name; namespace = meta.namespace }
