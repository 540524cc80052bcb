-- ===== src/RuleSet/Paths.antt =====
-- The path of a cached rule set stays in its directory.
use yu_clash.Prelude.{
  ℕ, ◌≡◌, refl, Bool, true, false, not, ◌&&◌, some, [], ◌∷◌, ◌++◌, ◌==◌, Bool-cases, inl, inr,
  arith,
}
use yu_clash.Text.{Text, is_empty, every_byte}
use yu_clash.RuleSet.{rule_set_cache_path, rules_directory, is_name_byte}

-- Neither a separator of any system nor the end of a C string.
abbrev pub is_plain : ℕ → Bool
is_plain c = not (c == 47) && not (c == 92) && not (c == 58) && not (c == 0)

abbrev pub begins_with_dot : Text → Bool
begins_with_dot [] = false
begins_with_dot (c ∷ _) = c == 46

name_byte-plain : (c : ℕ) → is_name_byte c ≡ true → is_plain c ≡ true
name_byte-plain c e = ground (arith, e)

name-plain : (s : Text) → every_byte is_name_byte s ≡ true → every_byte is_plain s ≡ true
name-plain [] e = refl
name-plain (c ∷ s) e = elim (Bool-cases (is_name_byte c)) [
  | inl t ↦ ground (arith, t, e, name_byte-plain c t, name-plain s)
  | inr t ↦ ground (arith, t, e)
]

-- A name that gets a path is not empty, does not begin with a dot and has no separator, and the path is that name in
-- the directory of rule sets: no name leads out of it.
pub cache_path_stays_inside :
    (home name path : Text)
    → rule_set_cache_path home name ≡ some path
    → (path ≡ rules_directory home ++ name)
      × (every_byte is_plain name ≡ true)
      × (begins_with_dot name ≡ false)
      × (is_empty name ≡ false)
unfolding rule_set_cache_path
cache_path_stays_inside home [] path e = ground (arith, e)
cache_path_stays_inside home (c ∷ s) path e = elim (Bool-cases (every_byte is_name_byte (c ∷ s))) [
  | inl t ↦ (ground (arith, t, e), name-plain (c ∷ s) t, ground (arith, t, e), refl)
  | inr t ↦ absurd (ground (arith, t, e))
]
