-- ===== src/Intent/Validate/Demo/Switch.antt =====
-- The demo mode as it is switched on by the command line.
use awsbnkctl.Base.{
  ◌≡◌, ◌↔◌, refl, String, true, Option, none, some, str_eq, eq_iff, lookup, lookup-insert, insert,
  if◌then◌else◌, or_else, pos, arith,
}
use awsbnkctl.Platform.{Platform}
use awsbnkctl.Duration.{parse_duration}
use awsbnkctl.Intent.Schema.{Cluster, DemoSpec}
use awsbnkctl.Intent.Defaults.{default_demo_ttl}
use awsbnkctl.Intent.Check.{Passes}
use awsbnkctl.Intent.Validate.Demo.{
  jumphost_enabled, demo_enabled, demo_or_zero, check_demo, validate_demo, enable_demo,
  set_demo_tags, demo_tag_key, demo_expiry_tag_key,
}

day_parsed : (p : Platform) → parse_duration p "24h" ≡ some (pos 86400000000000)
unfolding parse_duration
day_parsed p = refl

day-Passes :
    (p : Platform) (c : Cluster)
    → Passes (check_demo p c (record { enabled = true; ttl = "24h" })) ↔ (jumphost_enabled c ≡ true)
unfolding check_demo
day-Passes p c = rw (day_parsed p) (λ h. ground arith, λ h. ground arith)

default_ttl :
    (o : Option DemoSpec)
    → ((d : DemoSpec) → o ≡ some d → d.ttl ≡ "")
    → or_else (demo_or_zero o).ttl default_demo_ttl ≡ "24h"
unfolding or_else
default_ttl none h = refl
default_ttl (some d) h = rw (h d refl) refl

-- Switching the demo mode on in a cluster that has no demo block, or one without a lifetime, gives
-- a cluster in demo mode, which the demo check accepts exactly when the jumphost is enabled.
pub enable_demo-Passes :
    (p : Platform) (c : Cluster)
    → ((d : DemoSpec) → c.demo ≡ some d → d.ttl ≡ "")
    → (demo_enabled (enable_demo c) ≡ true)
      × (Passes (validate_demo p (enable_demo c)) ↔ (jumphost_enabled c ≡ true))
unfolding enable_demo validate_demo demo_enabled
enable_demo-Passes p c h = (refl, rw (default_ttl c.demo h) (day-Passes p (enable_demo c)))

-- After the demo tags are set, the two tags have their values, also where they had others, and every
-- other tag has the value it had.
pub lookup-set_demo_tags :
    (expiry : String) (c : Cluster) (key : String)
    → lookup key (set_demo_tags expiry c).tags ≡ (
        if str_eq key demo_expiry_tag_key
        then some expiry
        else if str_eq key demo_tag_key
        then some "true"
        else lookup key c.tags)
unfolding set_demo_tags
lookup-set_demo_tags expiry c key = ground (
  arith,
  eq_iff key demo_expiry_tag_key,
  eq_iff demo_expiry_tag_key key,
  eq_iff key demo_tag_key,
  eq_iff demo_tag_key key,
  lookup-insert demo_expiry_tag_key key expiry (insert demo_tag_key "true" c.tags),
  lookup-insert demo_tag_key key "true" c.tags,
)
