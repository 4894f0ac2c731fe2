-- ===== src/Intent/Schema.antt =====
-- The types of internal/intent/cluster.go. A pointer to a block is an Option, since no block is
-- shared; a map is an association list, and a nil map is empty.
pub mod Ai
use awsbnkctl.Base.{ℕ, String, Bool, List, Option, ℤ}
use Ai.{AiSpec}

pub record BnkAiGatewaySpec : Type 0 where
  pub enabled : Bool
  pub ai_metrics : Bool
  pub console_url : String
  pub default_egress_route : Bool
  pub dns_resolver : Bool
  pub dssm_sentinel : Bool
  pub multi_numa_spanning : Bool

pub record BnkSpec : Type 0 where
  pub far_archive : String
  pub jwt : String
  pub registry_host : String
  pub cert_manager_version : String
  pub deployment_size : String
  pub storage_class_name : String
  pub manifest_version : String
  pub version : String
  pub flo_version : String
  pub tmm_mtu : ℤ
  pub tmm_cpu : String
  pub tmm_memory : String
  pub tmm_hugepages : String
  pub pal_cpu_set : String
  pub bgp : Bool
  pub dynamic_routing : Bool
  pub ai_gateway : Option BnkAiGatewaySpec

pub record SubnetSpec : Type 0 where
  pub cidr : String
  pub az : String

pub record SelfIpsSpec : Type 0 where
  pub external : String
  pub internal : String
  pub prefix_len : ℤ

pub record DataPathSpec : Type 0 where
  pub external : SubnetSpec
  pub internal : SubnetSpec
  pub self_ips : Option SelfIpsSpec

pub record Subnets : Type 0 where
  pub public : List SubnetSpec
  pub private : List SubnetSpec

pub record Network : Type 0 where
  pub vpc_cidr : String
  pub azs : List String
  pub subnets : Subnets
  pub nat_gateways : ℤ
  pub data_path : Option DataPathSpec

pub record Metadata : Type 0 where
  pub name : String
  pub region : String
  pub labels : List (String × String)

pub record NodeTaintSpec : Type 0 where
  pub key : String
  pub value : String
  pub effect : String

pub record NodeGroupSpec : Type 0 where
  pub name : String
  pub instance_type : String
  pub desired_size : ℤ
  pub min_size : ℤ
  pub max_size : ℤ
  pub disk_size : ℤ
  pub labels : List (String × String)
  pub gpu : Bool
  pub capacity_type : String
  pub taints : List NodeTaintSpec
  pub azs : List String
  pub on_demand_fallback : Bool

-- NodeGroupSpec.IsGPU
abbrev pub is_gpu : NodeGroupSpec → Bool
is_gpu ng = ng.gpu

pub record EndpointAccessSpec : Type 0 where
  pub public_access_cidrs : List String

pub record ClusterSpec : Type 0 where
  pub kubernetes_version : String
  pub node_groups : List NodeGroupSpec
  pub endpoint_access : Option EndpointAccessSpec

pub record ForgeSpec : Type 0 where
  pub enabled : Bool
  pub url : String
  pub mcp_url : String
  pub username : String
  pub password : String
  pub credential_template_id : ℤ
  pub environment : String
  pub project_type : String
  pub project_name : String
  pub agent_token : String
  pub agent_token_camel : String

pub record FloSpec : Type 0 where
  pub version : String
  pub enabled : Option Bool

pub record LbControllerSpec : Type 0 where
  pub enabled_flag : Option Bool
  pub version : String

pub record AddonsSpec : Type 0 where
  pub flo : Option FloSpec
  pub lb_controller : Option LbControllerSpec

pub record JumphostSpec : Type 0 where
  pub enabled : Bool
  pub instance_type : String
  pub mgmt_subnet_index : ℤ

pub record TestingSpec : Type 0 where
  pub jumphost : Option JumphostSpec

pub record DemoSpec : Type 0 where
  pub enabled : Bool
  pub ttl : String

pub record BigIpVeSpec : Type 0 where
  pub enabled : Bool
  pub instance_type : String
  pub mgmt_subnet_index : ℤ
  pub vip : String
  pub license_tier : String
  pub version : String

pub record Cluster : Type 0 where
  pub api_version : String
  pub kind : String
  pub metadata : Metadata
  pub network : Network
  pub cluster_spec : Option ClusterSpec
  pub pattern_name : String
  pub forge : Option ForgeSpec
  pub bnk : Option BnkSpec
  pub addons : Option AddonsSpec
  pub tags : List (String × String)
  pub testing : Option TestingSpec
  pub demo : Option DemoSpec
  pub big_ip_ve : Option BigIpVeSpec
  pub ai : Option AiSpec
  pub source_path : String
