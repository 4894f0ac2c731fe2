-- ===== src/Intent/Defaults/Laws.antt =====
-- applyDefaults as a whole.
use awsbnkctl.Base.{◌≡◌}
use awsbnkctl.Intent.Schema.{Cluster}
use awsbnkctl.Intent.Pattern.{
  is_bnk_pattern, has_internal_interface, is_bnk_text, normalize_pattern,
}
use awsbnkctl.Intent.Defaults.{
  default_bnk, default_testing, default_demo, default_big_ip_ve, default_ai, apply_defaults,
}
use awsbnkctl.Intent.Defaults.Groups.{default_cluster_spec}
use awsbnkctl.Intent.Defaults.Idempotent.{default_cluster_spec_idem, network_idem}
use awsbnkctl.Intent.Defaults.Blocks.{
  normalize_pattern_idem, on_some_idem, default_bnk_idem, default_testing_idem, default_demo_idem,
  default_big_ip_ve_idem, default_ai_idem,
}

-- Applying the defaults to a cluster that has them changes nothing, for every cluster.
pub apply_defaults_idem : (c : Cluster) → apply_defaults (apply_defaults c) ≡ apply_defaults c
unfolding apply_defaults is_bnk_pattern has_internal_interface
apply_defaults_idem c =
    let bnk = is_bnk_text (normalize_pattern c.pattern_name) in
    simp (
      normalize_pattern_idem,
      network_idem,
      on_some_idem (default_cluster_spec bnk) (default_cluster_spec_idem bnk),
      on_some_idem default_bnk default_bnk_idem,
      on_some_idem default_testing default_testing_idem,
      on_some_idem default_demo default_demo_idem,
      on_some_idem default_big_ip_ve default_big_ip_ve_idem,
      on_some_idem default_ai default_ai_idem,
    )
