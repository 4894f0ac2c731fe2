-- ===== src/Intent/Defaults.antt =====
-- applyDefaults of internal/intent/cluster.go, part by part in the order of the source. Each part
-- returns the cluster that the source leaves behind.
pub mod Groups
pub mod Addresses
pub mod Idempotent
pub mod Blocks
pub mod Laws
use awsbnkctl.Base.{
  String, Bool, true, false, ◌&&◌, not, Option, none, some, List, [], ◌∷◌, ℤ, pos, if◌then◌else◌,
  is_empty, or_else, or_else_ℤ,
}
use awsbnkctl.Release.{default_manifest_version, far_registry_host}
use awsbnkctl.Intent.Schema.{
  Cluster, ClusterSpec, BnkSpec, TestingSpec, JumphostSpec, DemoSpec, BigIpVeSpec,
}
use awsbnkctl.Intent.Schema.Ai.{AiSpec}
use awsbnkctl.Intent.Ai.{apply_sage_maker_defaults, apply_synthetic_defaults}
use awsbnkctl.Intent.Pattern.{normalize_pattern, is_bnk_pattern}
use Groups.{default_cluster_spec}
use Addresses.{default_azs, default_self_ips}
use Prim.Native.String

abbrev pub embedded_cert_manager_version : String
embedded_cert_manager_version = "1.21.1"

abbrev pub default_demo_ttl : String
default_demo_ttl = "24h"

abbrev pub on_some {ℓ} : {A : Type ℓ} → (A → A) → Option A → Option A
on_some f none = none
on_some f (some a) = some (f a)

unfoldable pub default_bnk : BnkSpec → BnkSpec
default_bnk b = record b {
  cert_manager_version = or_else b.cert_manager_version embedded_cert_manager_version;
  registry_host = or_else b.registry_host far_registry_host;
  deployment_size = or_else b.deployment_size "Small";
  storage_class_name = or_else b.storage_class_name "gp2";
  manifest_version = or_else b.manifest_version default_manifest_version;
  tmm_mtu = or_else_ℤ b.tmm_mtu (pos 9000);
  tmm_cpu = or_else b.tmm_cpu "2";
  tmm_memory = or_else b.tmm_memory "8Gi";
  tmm_hugepages = or_else b.tmm_hugepages "4Gi";
  pal_cpu_set = or_else b.pal_cpu_set "0,2";
}

unfoldable pub default_jumphost : JumphostSpec → JumphostSpec
default_jumphost jh = record jh { instance_type = or_else jh.instance_type "t3.small" }

unfoldable pub default_testing : TestingSpec → TestingSpec
unfolding default_jumphost
default_testing t = record t { jumphost = on_some default_jumphost t.jumphost }

unfoldable pub default_demo : DemoSpec → DemoSpec
default_demo d = if d.enabled then record d { ttl = or_else d.ttl default_demo_ttl } else d

unfoldable pub default_big_ip_ve : BigIpVeSpec → BigIpVeSpec
default_big_ip_ve ve =
    if ve.enabled
    then record ve {
      instance_type = or_else ve.instance_type "c5n.2xlarge";
      vip = or_else ve.vip "10.0.10.120";
      license_tier = or_else ve.license_tier "Good";
    }
    else ve

unfoldable pub default_ai : AiSpec → AiSpec
unfolding apply_sage_maker_defaults apply_synthetic_defaults
default_ai ai = record ai {
  sagemaker = on_some apply_sage_maker_defaults ai.sagemaker;
  synthetic = on_some apply_synthetic_defaults ai.synthetic;
}

-- The blocks whose defaults read nothing outside the block.
unfoldable pub default_blocks : Cluster → Cluster
default_blocks c = record c {
  bnk = on_some default_bnk c.bnk;
  testing = on_some default_testing c.testing;
  demo = on_some default_demo c.demo;
  big_ip_ve = on_some default_big_ip_ve c.big_ip_ve;
  ai = on_some default_ai c.ai;
}

unfoldable pub default_cluster : Cluster → Cluster
default_cluster c = record c {
  cluster_spec = on_some (default_cluster_spec (is_bnk_pattern c)) c.cluster_spec;
}

unfoldable pub default_pattern : Cluster → Cluster
default_pattern c = record c { pattern_name = normalize_pattern c.pattern_name }

unfoldable pub apply_defaults : Cluster → Cluster
unfolding default_pattern default_azs default_cluster default_blocks default_self_ips
apply_defaults c =
    default_self_ips (default_blocks (default_cluster (default_azs (default_pattern c))))
