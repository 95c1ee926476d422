-- ===== src/Health/Check/Examples.antt =====
-- internal/health/check.go on a concrete input.
use splitter.Prelude.{String, ◌≡◌, ◌⊎◌, Option, some}
use splitter.Config.Defaults.{defaults}
use splitter.Tor.Version.{Version}
use splitter.Health.Check.{
  CheckResult, passed, lacking, DependencyError, check_dependencies, HasAll, TellsOf,
  check_dependencies_lem,
}

abbrev everywhere : String → Option String
everywhere name = some name

abbrev version_output : String → Option String
version_output path = some "Tor version 0.4.8.17."

check_dependencies_lem_example :
    ((r : CheckResult) × (check_dependencies everywhere version_output defaults ≡ passed r)
      × HasAll everywhere version_output defaults r.tor_version
      × TellsOf r.tor_version r.features)
    ⊎ ((e : DependencyError) × (check_dependencies everywhere version_output defaults ≡ lacking e)
        × ((v : Version) → HasAll everywhere version_output defaults v → ⊥))
check_dependencies_lem_example = check_dependencies_lem everywhere version_output defaults
