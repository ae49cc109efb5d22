-- ===== src/Tests/Versions.antt =====
-- Stable versions and their order.
use zimaos_monitor.Base.{◌≡◌, ◌↔◌, true, ◌∷◌, some, codes, arith}
use zimaos_monitor.SelfUpdate.Version.{Version, parse_version, is_newer}
use zimaos_monitor.SelfUpdate.Version.Parse.{Spells, print, parse_version_iff, parse_version-print}
use zimaos_monitor.SelfUpdate.Version.Order.{GivesWay, is_newer_iff}

abbrev version : Version
version = record { major = 1; minor = 10; patch = 0 }

is_newer_iff_example :
    (is_newer (codes "v1.9.12") (codes "1.10.0") ≡ true)
    ↔ ((l : Version) × (parse_version (codes "1.10.0") ≡ some l) × GivesWay (codes "v1.9.12") l)
is_newer_iff_example = is_newer_iff (codes "v1.9.12") (codes "1.10.0")

parse_version_iff_example :
    (parse_version (codes "1.10.0") ≡ some version) ↔ Spells (codes "1.10.0") version
parse_version_iff_example = parse_version_iff (codes "1.10.0") version

parse_version-print_example :
    (parse_version (print version) ≡ some version)
    × (parse_version (b'v' ∷ print version) ≡ some version)
parse_version-print_example = parse_version-print version (omega arith) (omega arith) (omega arith)
