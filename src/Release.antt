-- ===== src/Release.antt =====
-- internal/manifest/manifest.go: the table of BNK releases and the FLO chart of each.
pub mod Manifest
use awsbnkctl.Base.{
  String, Bool, true, false, Option, none, some, List, [], ◌∷◌, str_eq, if◌then◌else◌,
}

pub record Release : Type 0 where
  pub version : String
  pub flo_chart : String

unfoldable pub known_releases : List Release
known_releases =
    record { version = "2.3.0-3.2598.3-0.0.170"; flo_chart = "v2.21.13-0.0.28" }
    ∷ record { version = "2.3.1-3.2598.3-0.0.304"; flo_chart = "v2.21.13-0.0.53" }
    ∷ record { version = "2.3.2-3.2598.3-0.0.392"; flo_chart = "v2.21.13-0.0.58" }
    ∷ record { version = "2.3.3-3.2598.3-0.0.509"; flo_chart = "v2.21.13-0.0.64" }
    ∷ record { version = "2.4.1"; flo_chart = "v2.30.1-0.0.8" }
    ∷ record { version = "2.4.1-3.2850.1-0.0.9"; flo_chart = "v2.30.1-0.0.8" }
    ∷ record { version = "2.4.0"; flo_chart = "v2.30.0-0.5.2" }
    ∷ []

abbrev pub default_manifest_version : String
default_manifest_version = "2.4.0"

abbrev pub far_registry_host : String
far_registry_host = "repo.f5.com"

-- The loop of FLOChartFor.
unfoldable pub chart_in : List Release → String → Option String
chart_in [] v = none
chart_in (r ∷ rs) v = if str_eq r.version v then some r.flo_chart else chart_in rs v

unfoldable pub flo_chart_for : String → Option String
unfolding known_releases chart_in
flo_chart_for v = chart_in known_releases v

-- DefaultFLOChart drops `ok`, so a missing chart is the empty text.
unfoldable pub default_flo_chart : String
unfolding flo_chart_for
default_flo_chart = elim (flo_chart_for default_manifest_version) [ none ↦ "" | some chart ↦ chart ]

unfoldable pub is_known_release : String → Bool
unfolding flo_chart_for
is_known_release v = elim (flo_chart_for v) [ none ↦ false | some _ ↦ true ]
