-- ===== src/Profile/Merge.antt =====
-- What a merge gives for every key.
use yu_clash.Prelude.{
  ◌≡◌, refl, sym, ap, ◌∙◌, false, Option, String, str_eq, if◌then◌else◌, ◌⊎◌, inl, inr, All, arith,
}
use yu_clash.Profile.{
  Node, Entries, profile_base_sections, or_else, mapping_value, append, append_rules, with_section,
  with_sections, merge_profile_base,
}
use yu_clash.Profile.Values.{
  HasPlainMerges, IsNoMerge, chosen, is_one_of, with_sections-HasPlainMerges,
  mapping_value-with_section, mapping_value-with_sections,
}
use yu_clash.Profile.Rules.{items_of, append_rules-items_of}

sections-IsNoMerge : All IsNoMerge profile_base_sections
sections-IsNoMerge = (refl, (refl, (refl, tt)))

abbrev overlaid : Entries → Entries → Entries
overlaid profile overlay = with_sections profile_base_sections profile overlay

-- A merge that succeeds gives every section of the base from the profile, where the profile has it, directly or through
-- its merge keys, every other key but the rules as the overlay has it, and the overlay's rules followed by the profile's.
-- This holds for any profile, and for an overlay whose merge keys are written `<<`.
pub merged_values :
    (profile overlay es : Entries)
    → HasPlainMerges overlay
    → merge_profile_base profile overlay ≡ inl es
    → (key : String) → str_eq "rules" key ≡ false
    → (mapping_value key es ≡ (
        if is_one_of profile_base_sections key
        then or_else (mapping_value key profile) (mapping_value key overlay)
        else mapping_value key overlay))
      × (items_of (mapping_value "rules" es)
          ≡ append
              (items_of (mapping_value "rules" overlay))
              (items_of (mapping_value "rules" profile)))
unfolding merge_profile_base
merged_values profile overlay es p h key n =
    go
      (append_rules (mapping_value "rules" (overlaid profile overlay))
        (mapping_value "rules" profile))
      refl h
  where
    mid : Entries
    mid = overlaid profile overlay

    plain : HasPlainMerges mid
    plain = with_sections-HasPlainMerges profile_base_sections profile overlay p

    values :
        (k : String)
        → mapping_value k mid
          ≡ or_else
              (chosen (is_one_of profile_base_sections k) (mapping_value k profile))
              (mapping_value k overlay)
    values k =
        mapping_value-with_sections k profile_base_sections profile overlay sections-IsNoMerge p

    go :
        (x : Option Node ⊎ String)
        → append_rules (mapping_value "rules" mid) (mapping_value "rules" profile) ≡ x
        → ◌≡◌ {A = Entries ⊎ String}
            (elim x [ inl rules ↦ inl (with_section "rules" rules mid) | inr e ↦ inr e ])
            (inl es)
        → (mapping_value key es ≡ (
            if is_one_of profile_base_sections key
            then or_else (mapping_value key profile) (mapping_value key overlay)
            else mapping_value key overlay))
          × (items_of (mapping_value "rules" es)
              ≡ append
                  (items_of (mapping_value "rules" overlay))
                  (items_of (mapping_value "rules" profile)))
    go (inl rules) e q =
        let w : with_section "rules" rules mid ≡ es = ground (arith, q) in
        (
          ap (mapping_value key) (sym w)
              ∙ ground (
                arith,
                n,
                values key,
                mapping_value-with_section key "rules" rules mid refl plain,
              ),
          ap (λ x. items_of (mapping_value "rules" x)) (sym w)
              ∙ ap items_of (mapping_value-with_section "rules" "rules" rules mid refl plain)
              ∙ append_rules-items_of (mapping_value "rules" mid) (mapping_value "rules" profile)
                  rules e
              ∙ ap (λ x. append (items_of x) (items_of (mapping_value "rules" profile)))
                  (values "rules"),
        )
    go (inr s) e q = ground (arith, q)
