-- ===== src/Samples.antt =====
-- Sample configurations, used by the tests and the instances of the theorems.
use awsbnkctl.Base.{String, true, false, none, some, [], ◌∷◌, pos}
use awsbnkctl.Platform.{Platform}
use awsbnkctl.Intent.Schema.{
  Cluster, NodeGroupSpec, JumphostSpec, BigIpVeSpec, SubnetSpec, DataPathSpec,
}

-- No variable is set, and maps are visited in the order they are written in.
abbrev pub plain : Platform
plain = record {
  getenv = λ name. "";
  fraction = λ f unit digits. 0;
  map_order = λ entries. entries;
}

abbrev subnet : String → SubnetSpec
subnet cidr = record { cidr = cidr; az = "" }

abbrev pub data_path : DataPathSpec
data_path = record {
  external = subnet "10.0.10.0/24";
  internal = subnet "10.0.20.0/24";
  self_ips = none;
}

abbrev pub workers : NodeGroupSpec
workers = record {
  name = "bnk";
  instance_type = "";
  desired_size = pos 0;
  min_size = pos 0;
  max_size = pos 0;
  disk_size = pos 0;
  labels = [];
  gpu = false;
  capacity_type = "";
  taints = [];
  azs = [];
  on_demand_fallback = false;
}

abbrev pub gpus : NodeGroupSpec
gpus = record workers { name = "gpu"; gpu = true; azs = "ap-southeast-2a" ∷ [] }

abbrev pub jumphost : JumphostSpec
jumphost = record { enabled = true; instance_type = ""; mgmt_subnet_index = pos 0 }

abbrev pub appliance : BigIpVeSpec
appliance = record {
  enabled = true;
  instance_type = "";
  mgmt_subnet_index = pos 0;
  vip = "";
  license_tier = "";
  version = "";
}

-- A demo cluster with the legacy name of its pattern, and all else left to the defaults.
abbrev pub demo_cluster : Cluster
demo_cluster = record {
  api_version = "awsbnkctl/v1";
  kind = "Cluster";
  metadata = record { name = "syd-tracer"; region = "ap-southeast-2"; labels = [] };
  network = record {
    vpc_cidr = "10.0.0.0/16";
    azs = [];
    subnets = record {
      public = subnet "10.0.1.0/24" ∷ subnet "10.0.2.0/24" ∷ [];
      private = subnet "10.0.3.0/24" ∷ [];
    };
    nat_gateways = pos 1;
    data_path = some data_path;
  };
  cluster_spec = some (record {
    kubernetes_version = "";
    node_groups = workers ∷ gpus ∷ [];
    endpoint_access = none;
  });
  pattern_name = "host-device";
  forge = none;
  bnk = none;
  addons = none;
  tags = [];
  testing = some (record { jumphost = some jumphost });
  demo = some (record { enabled = true; ttl = "" });
  big_ip_ve = some appliance;
  ai = none;
  source_path = "";
}
