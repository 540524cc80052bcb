-- ===== src/Profile/Examples.antt =====
-- A profile that takes its proxies from a merge key, and the theorem on its merge.
use yu_clash.Prelude.{◌≡◌, refl, String, inl, if◌then◌else◌}
use yu_clash.Profile.{
  Node, scalar, sequence, mapping, alias, nil, cons, Entries, end, entry, profile_base_sections,
  or_else, mapping_value, append, merge_profile_base,
}
use yu_clash.Profile.Values.{is_one_of}
use yu_clash.Profile.Rules.{items_of}
use yu_clash.Profile.Merge.{merged_values}

abbrev text : String → Node
text s = scalar "!!str" s

abbrev shared : Entries
shared = entry (text "proxies") (sequence (cons (text "node") nil)) end

abbrev profile : Entries
profile =
    entry (scalar "!!merge" "<<") (alias (mapping shared))
      (entry (text "rules") (sequence (cons (text "MATCH,DIRECT") nil)) end)

abbrev overlay : Entries
overlay = entry (text "mode") (text "rule") (
    entry (text "proxies") (sequence nil)
      (entry (text "rules") (sequence (cons (text "DOMAIN,a,DIRECT") nil)) end))

abbrev merged : Entries
merged = entry (text "mode") (text "rule") (
    entry (text "proxies") (sequence (cons (text "node") nil)) (
      entry (text "rules")
        (sequence (cons (text "DOMAIN,a,DIRECT") (cons (text "MATCH,DIRECT") nil))) end))

merges : merge_profile_base profile overlay ≡ inl merged
unfolding merge_profile_base
merges = refl

merged_values_example :
    (mapping_value "proxies" merged ≡ (
      if is_one_of profile_base_sections "proxies"
      then or_else (mapping_value "proxies" profile) (mapping_value "proxies" overlay)
      else mapping_value "proxies" overlay))
    × (items_of (mapping_value "rules" merged)
        ≡ append
            (items_of (mapping_value "rules" overlay))
            (items_of (mapping_value "rules" profile)))
merged_values_example =
    merged_values profile overlay merged (refl, (refl, (refl, tt))) merges "proxies" refl
