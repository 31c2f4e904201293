-- ===== src/Resources/Objects.antt =====
-- The fields of k8s.io/api objects that the operator fills in. `Q` stands for resource.Quantity.
use op_stack_operator.Prelude.{String, Bool, Option, List}
use op_stack_operator.Prelude.Int.{ℤ}
use op_stack_operator.Api.Meta.{ObjectMeta}
use op_stack_operator.Api.Network.{ResourceList, SeccompProfile}
use op_stack_operator.Api.Node.{ResourceRequirements, IntOrString}

pub record ContainerPort : Type 0 where
  pub name : String
  pub container_port : ℤ
  pub protocol : String

pub record VolumeMount : Type 0 where
  pub name : String
  pub mount_path : String
  pub read_only : Bool

pub data VolumeSource : Type 0 where
  secret : String → VolumeSource
  config_map : String → VolumeSource

pub record Volume : Type 0 where
  pub name : String
  pub source : VolumeSource

-- An HTTP probe.
pub record Probe : Type 0 where
  pub path : String
  pub port : ℤ
  pub http_headers : List (String × String)
  pub initial_delay_seconds : ℤ
  pub period_seconds : ℤ
  pub failure_threshold : ℤ
  pub timeout_seconds : ℤ

pub record Container (Q : Type 0) : Type 0 where
  pub name : String
  pub image : String
  pub image_pull_policy : String
  pub command : List String
  pub args : List String
  pub resources : ResourceRequirements Q
  pub ports : List ContainerPort
  pub volume_mounts : List VolumeMount
  pub liveness_probe : Probe
  pub readiness_probe : Probe

pub record PodSecurityContext : Type 0 where
  pub run_as_non_root : Option Bool
  pub run_as_user : Option ℤ
  pub fs_group : Option ℤ
  pub seccomp_profile : Option SeccompProfile

pub record PersistentVolumeClaim (Q : Type 0) : Type 0 where
  pub name : String
  pub labels : List (String × String)
  pub access_modes : List String
  pub requests : ResourceList Q
  pub storage_class_name : String

pub record PodTemplateSpec (Q : Type 0) : Type 0 where
  pub labels : List (String × String)
  pub containers : List (Container Q)
  pub volumes : List Volume
  pub security_context : PodSecurityContext

pub record StatefulSetSpec (Q : Type 0) : Type 0 where
  pub replicas : ℤ
  pub service_name : String
  pub match_labels : List (String × String)
  pub template : PodTemplateSpec Q
  pub volume_claim_templates : List (PersistentVolumeClaim Q)

pub record StatefulSet (Q : Type 0) : Type 0 where
  pub meta : ObjectMeta
  pub spec : StatefulSetSpec Q

pub record ServicePort : Type 0 where
  pub name : String
  pub port : ℤ
  pub target_port : IntOrString
  pub protocol : String

pub record ServiceSpec : Type 0 where
  pub type : String
  pub selector : List (String × String)
  pub ports : List ServicePort

pub record Service : Type 0 where
  pub meta : ObjectMeta
  pub spec : ServiceSpec

pub record Secret : Type 0 where
  pub meta : ObjectMeta
  pub type : String
  pub contents : List (String × String)

pub record ConfigMap : Type 0 where
  pub meta : ObjectMeta
  pub contents : List (String × String)
