-- ===== src/Update/Tests.antt =====
-- internal/update/checker.go: some tags.
use flightdeck.Base.{◌≡◌, refl, some, List, [], ◌∷◌, nat_eq, string_eq}
use flightdeck.Base.Bytes.{Bytes, codes}
use flightdeck.Update.{Semver, parse_semver, latest_tag, Release, Checker}
use flightdeck.Update.Latest.{Picks, latest_tag-Picks}

abbrev some_tags : List Bytes
some_tags = codes "v1.2.3" ∷ codes "nightly" ∷ codes "v1.10.0" ∷ codes "v1.9.9" ∷ []

latest_of_some : latest_tag some_tags ≡ some (codes "v1.10.0")
unfolding latest_tag
latest_of_some = refl

parsed_suffix :
    parse_semver (codes "v1.2.3-4-gabc") ≡ some (record { major = 1; minor = 2; patch = 3 })
unfolding parse_semver
parsed_suffix = refl

latest_tag-Picks_example : Picks some_tags (latest_tag some_tags)
latest_tag-Picks_example = latest_tag-Picks some_tags

abbrev older : Semver
older = record { major = 1; minor = 9; patch = 9 }

abbrev newer : Semver
newer = record { major = 1; minor = 10; patch = 0 }

abbrev a_release : Release
a_release = record { tag = codes "v1.2.3"; url = [] }

abbrev a_checker : Checker
a_checker = record { version = codes "v1.2.3-4-gabc"; latest = some a_release }
