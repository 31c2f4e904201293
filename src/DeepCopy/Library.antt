-- ===== src/DeepCopy/Library.antt =====
-- What the generated functions call of k8s.io/api and k8s.io/apimachinery: the types that the API
-- types embed, and their own deep copies.
use op_stack_operator.Prelude.{String, List, ℕ}
use op_stack_operator.DeepCopy.Memory.{Alloc}
use op_stack_operator.DeepCopy.Copies.{Copies}

-- A type of those modules as it stands in memory, with its DeepCopyInto (for resource.Quantity and
-- the keys of a map, DeepCopy). What is relied on is what their documentation says of a deep copy:
-- the same contents, in memory of its own.
pub record Foreign : Type 1 where
  pub Carrier : Type 0
  pub contents : Carrier → Carrier
  pub addresses : Carrier → List ℕ
  pub deep_copy : Carrier → Alloc Carrier
  pub copies : Copies contents addresses deep_copy

pub record Library : Type 1 where
  -- metav1
  pub object_meta : Foreign
  pub list_meta : Foreign
  pub condition : Foreign
  pub time : Foreign
  -- resource
  pub quantity : Foreign
  -- corev1
  pub secret_key_selector : Foreign
  pub config_map_key_selector : Foreign
  pub resource_requirements : Foreign
  pub seccomp_profile : Foreign

-- metav1.TypeMeta, which is assigned
pub record TypeMeta : Type 0 where
  pub kind : String
  pub api_version : String
