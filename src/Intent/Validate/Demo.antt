-- ===== src/Intent/Validate/Demo.antt =====
-- The testing, bnk and demo blocks, and the demo switches.
pub mod Switch
use awsbnkctl.Base.{
  String, Bool, true, false, ◌&&◌, ◌||◌, not, Option, none, some, List, str_eq, is_empty, insert, ℤ,
  pos, ltb_ℤ, length, if◌then◌else◌, or_else,
}
use awsbnkctl.Platform.{Platform}
use awsbnkctl.Duration.{parse_duration}
use awsbnkctl.Regex.{match_string}
use awsbnkctl.Release.{is_known_release}
use awsbnkctl.Intent.Schema.{
  Cluster, TestingSpec, JumphostSpec, BnkSpec, DemoSpec, BigIpVeSpec, DataPathSpec, SubnetSpec,
}
use awsbnkctl.Intent.Names.{instance_type_re}
use awsbnkctl.Intent.Pattern.{is_bnk_pattern}
use awsbnkctl.Intent.Defaults.{default_demo_ttl, embedded_cert_manager_version}
use awsbnkctl.Intent.Check.{
  Check, jumphost_needs_data_path, jumphost_type, jumphost_subnet, far_archive_required,
  jwt_required, cert_manager_mismatch, unknown_manifest, ttl_invalid, ttl_not_positive,
  demo_needs_jumphost, pass, fail, fail_if, warn_if, when, ◌>>◌, check_some,
}

abbrev pub is_some {ℓ} : {A : Type ℓ} → Option A → Bool
is_some none = false
is_some (some _) = true

-- The index of a public subnet.
abbrev pub out_of_range : ℤ → List SubnetSpec → Bool
out_of_range idx subnets = ltb_ℤ idx (pos 0) || not (ltb_ℤ idx (pos (length subnets)))

unfoldable pub check_jumphost : Cluster → JumphostSpec → Check
unfolding match_string
check_jumphost c jh =
    fail_if (jh.enabled && (not (is_bnk_pattern c) || not (is_some c.network.data_path)))
      jumphost_needs_data_path
    >> fail_if
        (not (is_empty jh.instance_type) && not (match_string instance_type_re jh.instance_type))
        (jumphost_type jh.instance_type)
    >> fail_if (out_of_range jh.mgmt_subnet_index c.network.subnets.public)
        (jumphost_subnet jh.mgmt_subnet_index (length c.network.subnets.public))

unfoldable pub validate_testing : Cluster → TestingSpec → Check
unfolding check_jumphost
validate_testing c t = check_some t.jumphost (check_jumphost c)

unfoldable pub validate_bnk : BnkSpec → Check
unfolding is_known_release
validate_bnk b =
    fail_if (is_empty b.far_archive) far_archive_required
    >> fail_if (is_empty b.jwt) jwt_required
    >> fail_if
        (not (is_empty b.cert_manager_version)
          && not (str_eq b.cert_manager_version embedded_cert_manager_version))
        (cert_manager_mismatch b.cert_manager_version)
    >> warn_if (not (is_empty b.manifest_version) && not (is_known_release b.manifest_version))
        (unknown_manifest b.manifest_version)

abbrev pub jumphost_of : Option TestingSpec → Option JumphostSpec
jumphost_of none = none
jumphost_of (some t) = t.jumphost

abbrev pub jumphost_on : Option JumphostSpec → Bool
jumphost_on none = false
jumphost_on (some jh) = jh.enabled

-- testing.jumphost.enabled
abbrev pub jumphost_enabled : Cluster → Bool
jumphost_enabled c = jumphost_on (jumphost_of c.testing)

abbrev pub demo_on : Option DemoSpec → Bool
demo_on none = false
demo_on (some d) = d.enabled

abbrev pub big_ip_ve_on : Option BigIpVeSpec → Bool
big_ip_ve_on none = false
big_ip_ve_on (some ve) = ve.enabled

-- DemoEnabled
unfoldable pub demo_enabled : Cluster → Bool
demo_enabled c = demo_on c.demo

-- BigIPVEEnabled
unfoldable pub big_ip_ve_enabled : Cluster → Bool
big_ip_ve_enabled c = big_ip_ve_on c.big_ip_ve

abbrev pub check_duration : String → Option ℤ → Check
check_duration ttl none = fail (ttl_invalid ttl)
check_duration ttl (some d) = fail_if (ltb_ℤ d (pos 1)) (ttl_not_positive ttl)

unfoldable pub check_demo : Platform → Cluster → DemoSpec → Check
check_demo p c d = when d.enabled (
    when (not (is_empty d.ttl)) (check_duration d.ttl (parse_duration p d.ttl))
    >> fail_if (not (jumphost_enabled c)) demo_needs_jumphost)

unfoldable pub validate_demo : Platform → Cluster → Check
unfolding check_demo
validate_demo p c = check_some c.demo (check_demo p c)

abbrev demo_or_zero : Option DemoSpec → DemoSpec
demo_or_zero none = record { enabled = false; ttl = "" }
demo_or_zero (some d) = d

-- EnableDemo
unfoldable pub enable_demo : Cluster → Cluster
enable_demo c = record c {
  demo = some (record { enabled = true; ttl = or_else (demo_or_zero c.demo).ttl default_demo_ttl });
}

abbrev pub demo_tag_key : String
demo_tag_key = "awsbnkctl:demo"

abbrev pub demo_expiry_tag_key : String
demo_expiry_tag_key = "awsbnkctl:demo-expiry"

-- SetDemoTags, at the expiry time in RFC3339.
unfoldable pub set_demo_tags : String → Cluster → Cluster
set_demo_tags expiry c = record c {
  tags = insert demo_expiry_tag_key expiry (insert demo_tag_key "true" c.tags);
}
