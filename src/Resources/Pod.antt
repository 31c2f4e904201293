-- ===== src/Resources/Pod.antt =====
-- The pod of the StatefulSet: createOpGethContainer, createOpNodeContainer, createVolumes and
-- createPodSecurityContext of pkg/resources/statefulset.go. `must_parse` stands for
-- resource.MustParse at the texts below, all of which it accepts.
use op_stack_operator.Prelude.{
  String, ◌<>◌, Bool, true, false, Option, none, some, List, [], ◌∷◌, if◌then◌else◌, non_empty,
  and_then, on_some, or_default,
}
use op_stack_operator.Prelude.Int.{ℤ, pos}
use op_stack_operator.Api.Network.{OptimismNetwork, ResourceList, ResourceConfig, SecurityConfig}
use op_stack_operator.Api.Node.{OpNode, ResourceRequirements, SecretKeyRef}
use op_stack_operator.Images.{default_images}
use op_stack_operator.Resources.Objects.{
  ContainerPort, VolumeMount, Volume, secret, config_map, Container, PodSecurityContext,
}
use op_stack_operator.Resources.Config.{p2p_key}
use op_stack_operator.Resources.Args.{data_dir, op_geth_args, op_node_args}

abbrev pub tcp : String → ℤ → ContainerPort
tcp name port = record { name = name; container_port = port; protocol = "TCP" }

abbrev pub mount : String → String → Bool → VolumeMount
mount name path read_only = record { name = name; mount_path = path; read_only = read_only }

abbrev pub json_headers : List (String × String)
json_headers = ("Content-Type", "application/json") ∷ []

module _ {Q : Type 0} where
  unfoldable pub default_requirements :
      (String → Q) → String → String → String → String → ResourceRequirements Q
  default_requirements must_parse cpu memory cpu_limit memory_limit = record {
    requests = ("cpu", must_parse cpu) ∷ ("memory", must_parse memory) ∷ [];
    limits = ("cpu", must_parse cpu_limit) ∷ ("memory", must_parse memory_limit) ∷ [];
  }

  abbrev pub or_list : ResourceList Q → ResourceList Q → ResourceList Q
  or_list shared default_list = if non_empty shared then shared else default_list

  unfoldable pub share_requirements :
      ResourceRequirements Q → ResourceConfig Q → ResourceRequirements Q
  share_requirements resources shared = record {
    requests = or_list shared.requests resources.requests;
    limits = or_list shared.limits resources.limits;
  }

module _ {Q : Type 0} (must_parse : String → Q) (op_node : OpNode Q)
    (network : OptimismNetwork Q) where
  unfoldable pub op_geth_resources : ResourceRequirements Q
  unfolding default_requirements share_requirements
  op_geth_resources =
      let resources = default_requirements must_parse "2000m" "8Gi" "8000m" "32Gi" in
      on_some (and_then op_node.spec.resources (λ r. r.op_geth))
        (on_some (and_then network.spec.shared_config (λ c. c.resources)) resources
          (share_requirements resources))
        (λ own. own)

  unfoldable pub create_op_geth_container : Container Q
  create_op_geth_container = record {
    name = "op-geth";
    image = default_images.op_geth;
    image_pull_policy = "IfNotPresent";
    command = "geth" ∷ [];
    args = op_geth_args op_node network;
    resources = op_geth_resources;
    ports =
        tcp "http" (pos 8545)
        ∷ tcp "ws" (pos 8546)
        ∷ tcp "authrpc" (pos 8551)
        ∷ tcp "p2p" (pos 30303)
        ∷ [];
    volume_mounts =
        mount "geth-data" (data_dir op_node) false
        ∷ mount "jwt-secret" "/secrets/jwt" true
        ∷ mount "rollup-config" "/config" true
        ∷ [];
    liveness_probe = record {
      path = "/";
      port = pos 8545;
      http_headers = json_headers;
      initial_delay_seconds = pos 60;
      period_seconds = pos 30;
      failure_threshold = pos 3;
      timeout_seconds = pos 0;
    };
    readiness_probe = record {
      path = "/";
      port = pos 8545;
      http_headers = json_headers;
      initial_delay_seconds = pos 30;
      period_seconds = pos 10;
      failure_threshold = pos 3;
      timeout_seconds = pos 0;
    };
  }

  unfoldable pub op_node_resources : ResourceRequirements Q
  unfolding default_requirements
  op_node_resources =
      or_default (and_then op_node.spec.resources (λ r. r.op_node))
        (default_requirements must_parse "500m" "1Gi" "2000m" "4Gi")

  unfoldable pub create_op_node_container : Container Q
  create_op_node_container = record {
    name = "op-node";
    image = default_images.op_node;
    image_pull_policy = "IfNotPresent";
    command = "op-node" ∷ [];
    args = op_node_args op_node network;
    resources = op_node_resources;
    ports = tcp "rpc" (pos 9545) ∷ tcp "p2p" (pos 9003) ∷ tcp "metrics" (pos 7300) ∷ [];
    volume_mounts =
        mount "jwt-secret" "/secrets/jwt" true
        ∷ mount "rollup-config" "/config" true
        ∷ on_some (p2p_key op_node) [] (λ _. mount "p2p-key" "/secrets/p2p" true ∷ []);
    liveness_probe = record {
      path = "/healthz";
      port = pos 9545;
      http_headers = [];
      initial_delay_seconds = pos 60;
      period_seconds = pos 30;
      failure_threshold = pos 5;
      timeout_seconds = pos 10;
    };
    readiness_probe = record {
      path = "/healthz";
      port = pos 9545;
      http_headers = [];
      initial_delay_seconds = pos 30;
      period_seconds = pos 10;
      failure_threshold = pos 3;
      timeout_seconds = pos 5;
    };
  }

abbrev pub default_security_context : PodSecurityContext
default_security_context = record {
  run_as_non_root = some true;
  run_as_user = some (pos 1000);
  fs_group = some (pos 1000);
  seccomp_profile = some (record { type = "RuntimeDefault"; localhost_profile = none });
}

abbrev pub or_pointer {ℓ} : {A : Type ℓ} → Option A → Option A → Option A
or_pointer none old = old
or_pointer (some a) old = some a

unfoldable pub override_security : PodSecurityContext → SecurityConfig → PodSecurityContext
override_security context security = record {
  run_as_non_root = or_pointer security.run_as_non_root context.run_as_non_root;
  run_as_user = or_pointer security.run_as_user context.run_as_user;
  fs_group = or_pointer security.fs_group context.fs_group;
  seccomp_profile = or_pointer security.seccomp_profile context.seccomp_profile;
}

module _ {Q : Type 0} (op_node : OpNode Q) where
  -- The name of the secret with the P2P key; `secretName` stays "" in no case that is reached.
  unfoldable pub p2p_secret_name : SecretKeyRef → String
  p2p_secret_name key =
      if key.generate
      then op_node.meta.name <> "-p2p"
      else on_some key.secret_ref "" (λ ref. ref.name)

module _ {Q : Type 0} (op_node : OpNode Q) (network : OptimismNetwork Q) where
  unfoldable pub create_volumes : List Volume
  unfolding p2p_secret_name
  create_volumes =
      record { name = "jwt-secret"; source = secret (op_node.meta.name <> "-jwt") }
      ∷ record {
        name = "rollup-config";
        source = config_map (network.meta.name <> "-rollup-config");
      }
      ∷ on_some (p2p_key op_node) []
          (λ key. record { name = "p2p-key"; source = secret (p2p_secret_name op_node key) } ∷ [])

module _ {Q : Type 0} (network : OptimismNetwork Q) where
  unfoldable pub create_pod_security_context : PodSecurityContext
  unfolding override_security
  create_pod_security_context =
      on_some (and_then network.spec.shared_config (λ c. c.security)) default_security_context
        (override_security default_security_context)
