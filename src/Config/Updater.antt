-- ===== src/Config/Updater.antt =====
-- core/geo.go: the links and the settings of the geo updater.
use yu_clash.Prelude.{
  Bool, true, false, not, ◌&&◌, ◌||◌, Option, none, some, String, List, [], ◌∷◌, str_eq,
  if◌then◌else◌, string_equality,
}
use yu_clash.Prelude.Maps.{lookup, insert}
use yu_clash.Config.{ℤ, same_int, given, same_flag, Platform, Geo}

-- The names of `geoResources`.
abbrev pub is_geo_resource : String → Bool
is_geo_resource name =
    str_eq name "MMDB" || str_eq name "ASN" || str_eq name "GEOIP" || str_eq name "GEOSITE"

abbrev link_is : String → Option String → Bool
link_is link none = false
link_is link (some old) = str_eq link old

-- `setGeoResourceUrl`.
unfoldable pub set_geo_resource_url : Platform → String → String → Geo → Geo
unfolding lookup insert
set_geo_resource_url m geo_type link geo =
    let name = m.to_upper geo_type in
    if is_geo_resource name && not (str_eq link "") && not (link_is link (lookup name geo.links))
    then record geo { links = insert name link geo.links }
    else geo

unfoldable pub set_geo_urls : Platform → List (String × String) → Geo → Geo
unfolding set_geo_resource_url
set_geo_urls m [] geo = geo
set_geo_urls m ((geo_type, link) ∷ more) geo =
    set_geo_urls m more (set_geo_resource_url m geo_type link geo)

-- `reconcileGeoUpdater`.
unfoldable pub reconcile_geo_updater : Geo → Geo
reconcile_geo_updater geo = record geo { is_registered = geo.auto_update }

abbrev keeps_flag : Option Bool → Bool → Bool
keeps_flag none old = true
keeps_flag (some new) old = same_flag new old

abbrev keeps_int : Option ℤ → ℤ → Bool
keeps_int none old = true
keeps_int (some new) old = same_int new old

-- `syncGeoUpdater`.
unfoldable pub sync_geo_updater : Option Bool → Option ℤ → Geo → Geo
unfolding reconcile_geo_updater
sync_geo_updater auto_update interval geo =
    let geo' = record geo {
      auto_update = given auto_update geo.auto_update;
      update_interval = given interval geo.update_interval;
    } in
    if keeps_flag auto_update geo.auto_update && keeps_int interval geo.update_interval
    then geo
    else reconcile_geo_updater geo'
