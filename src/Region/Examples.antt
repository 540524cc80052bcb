-- ===== src/Region/Examples.antt =====
-- Runs of the folding.
use yu_clash.Prelude.{◌≡◌, refl, []}
use yu_clash.Text.{Text, bytes}
use yu_clash.Region.{normalize_region}
use yu_clash.Region.Table.{normalize_region_lem, region_by_scan, folded}

hong_kong : normalize_region (bytes " hkg ") ≡ bytes "HK"
unfolding normalize_region yu_clash.Text.trim_left
hong_kong = refl

unknown : normalize_region (bytes "QQQ") ≡ []
unfolding normalize_region yu_clash.Text.trim_left
unknown = refl

normalize_region_lem_example :
    normalize_region (bytes "hkg") ≡ region_by_scan (folded (bytes "hkg"))
normalize_region_lem_example = normalize_region_lem (bytes "hkg")
