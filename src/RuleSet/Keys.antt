-- ===== src/RuleSet/Keys.antt =====
-- The key of an entry, and the keys of plain and of classical entries.
use yu_clash.Prelude.{
  String, ◌≡◌, ◌≢◌, refl, none, some, List, [], ◌∷◌, ◌++◌, map, append_assoc, append-nil, arith,
  Option, Bool, true, false, ◌||◌, Bool-cases, inl, inr, ◌⊎◌, sym, subst, ◌∙◌, if◌then◌else◌,
}
use yu_clash.Text.{Text, bytes, equal, upper, trim_space, cut}
use yu_clash.RuleSet.{
  Packages, RuleBehavior, domain, ipcidr, classical, Key, domain_key, cidr_key, other_key,
  plain_domain, parse_cidr, key_of_type, has_comma, classical_key, classical_keys, classify_keys,
}

-- The type of a classical rule, as it is compared.
abbrev is_type : Text → String → Bool
is_type kind name = equal (map upper (trim_space kind)) (bytes name)

-- The key of an entry: itself for a prefix of a plain list, the prefix of an address of one, and itself for what is neither; the value of a DOMAIN, a
-- DOMAIN-SUFFIX behind "+.", and the value of an IP-CIDR or IP-CIDR6.
pub data IsKeyOf (p : Packages) : RuleBehavior → Text → Text → Type 0 where
  plain :
      {entry : Text}
      → has_comma entry ≡ false
      → p.is_prefix entry ≡ false
      → p.address_prefix entry ≡ none
      → IsKeyOf p domain entry entry
  plain_prefix :
      {entry : Text}
      → has_comma entry ≡ false
      → p.is_prefix entry ≡ true
      → IsKeyOf p ipcidr entry entry
  plain_address :
      {entry key : Text}
      → has_comma entry ≡ false
      → p.is_prefix entry ≡ false
      → p.address_prefix entry ≡ some key
      → IsKeyOf p ipcidr entry key
  exact :
      {entry kind value key : Text}
      → cut 44 entry ≡ some (kind, value)
      → is_type kind "DOMAIN" ≡ true
      → plain_domain (trim_space value) ≡ true
      → key ≡ trim_space value
      → IsKeyOf p domain entry key
  suffix :
      {entry kind value key : Text}
      → cut 44 entry ≡ some (kind, value)
      → is_type kind "DOMAIN-SUFFIX" ≡ true
      → plain_domain (trim_space value) ≡ true
      → key ≡ bytes "+." ++ trim_space value
      → IsKeyOf p domain entry key
  range :
      {entry kind value key : Text}
      → cut 44 entry ≡ some (kind, value)
      → (is_type kind "IP-CIDR" || is_type kind "IP-CIDR6") ≡ true
      → p.is_prefix (trim_space value) ≡ true
      → key ≡ trim_space value
      → IsKeyOf p ipcidr entry key

pub data KeysOf (p : Packages) (b : RuleBehavior) : List Text → List Text → Type 0 where
  no_more : KeysOf p b [] []
  also :
      {entry key : Text} {entries keys : List Text}
      → IsKeyOf p b entry key
      → KeysOf p b entries keys
      → KeysOf p b (entry ∷ entries) (key ∷ keys)

module _ (p : Packages) where
  typed_domain :
      (kind value d : Text)
      → key_of_type p kind value ≡ domain_key d
      → ((equal kind (bytes "DOMAIN") ≡ true) × (plain_domain value ≡ true) × (d ≡ value))
        ⊎ ((equal kind (bytes "DOMAIN-SUFFIX") ≡ true)
            × (plain_domain value ≡ true)
            × (d ≡ bytes "+." ++ value))
  unfolding key_of_type
  typed_domain kind value d e = elim (Bool-cases (equal kind (bytes "DOMAIN"))) [
    | inl x ↦ inl (x, ground (arith, e, x), ground (arith, e, x))
    | inr x ↦ elim (Bool-cases (equal kind (bytes "DOMAIN-SUFFIX"))) [
      | inl y ↦ inr (y, ground (arith, e, x, y), ground (arith, e, x, y))
      | inr y ↦ ground (arith, e, x, y)
    ]
  ]

  typed_range :
      (kind value c : Text)
      → key_of_type p kind value ≡ cidr_key c
      → ((equal kind (bytes "IP-CIDR") || equal kind (bytes "IP-CIDR6")) ≡ true)
        × (p.is_prefix value ≡ true)
        × (c ≡ value)
  unfolding key_of_type
  typed_range kind value c e = (ground (arith, e), ground (arith, e), ground (arith, e))

  abbrev rule_key : Option (Text × Text) → Key
  rule_key none = other_key
  rule_key (some (kind, value)) =
      if has_comma value
      then other_key
      else key_of_type p (map upper (trim_space kind)) (trim_space value)

  domain-IsKeyOf :
      (entry d : Text) → classical_key p entry ≡ domain_key d → IsKeyOf p domain entry d
  unfolding classical_key
  domain-IsKeyOf entry d e = go (cut 44 entry) refl e
    where
      found :
          (kind value : Text)
          → cut 44 entry ≡ some (kind, value)
          → key_of_type p (map upper (trim_space kind)) (trim_space value) ≡ domain_key d
          → IsKeyOf p domain entry d
      found kind value c q =
          elim (typed_domain (map upper (trim_space kind)) (trim_space value) d q) [
            | inl (x, y, z) ↦ exact c x y z
            | inr (x, y, z) ↦ suffix c x y z
          ]

      go :
          (o : Option (Text × Text))
          → cut 44 entry ≡ o
          → rule_key o ≡ domain_key d
          → IsKeyOf p domain entry d
      go none c q = ground (arith, q)
      go (some (kind, value)) c q = found kind value c (ground (arith, q))

  range-IsKeyOf : (entry k : Text) → classical_key p entry ≡ cidr_key k → IsKeyOf p ipcidr entry k
  unfolding classical_key
  range-IsKeyOf entry k e = go (cut 44 entry) refl e
    where
      found :
          (kind value : Text)
          → cut 44 entry ≡ some (kind, value)
          → key_of_type p (map upper (trim_space kind)) (trim_space value) ≡ cidr_key k
          → IsKeyOf p ipcidr entry k
      found kind value c q =
          let (x, y, z) = typed_range (map upper (trim_space kind)) (trim_space value) k q in
          range c x y z

      go :
          (o : Option (Text × Text))
          → cut 44 entry ≡ o
          → rule_key o ≡ cidr_key k
          → IsKeyOf p ipcidr entry k
      go none c q = ground (arith, q)
      go (some (kind, value)) c q = found kind value c (ground (arith, q))

  abbrev Domains : List Text → List Text → List Text → List Text → Type 0
  Domains entries domains cidrs ds =
      (cidrs ≡ []) × (keys : List Text) × (ds ≡ domains ++ keys) × KeysOf p domain entries keys

  abbrev Ranges : List Text → List Text → List Text → List Text → Type 0
  Ranges entries domains cidrs cs =
      (domains ≡ []) × (keys : List Text) × (cs ≡ cidrs ++ keys) × KeysOf p ipcidr entries keys

  abbrev next_keys : List Text → List Text → List Text → Key → Option (List Text × List Text)
  next_keys entries domains cidrs (domain_key d) =
      classical_keys p entries (domains ++ d ∷ []) cidrs
  next_keys entries domains cidrs (cidr_key c) = classical_keys p entries domains (cidrs ++ c ∷ [])
  next_keys entries domains cidrs other_key = none

  snoc-ne-nil : (xs : List Text) (x : Text) → xs ++ x ∷ [] ≢ []
  snoc-ne-nil [] x e = ground (arith, e)
  snoc-ne-nil (y ∷ xs) x e = ground (arith, e)

  classical_keys-Domains :
      (entries domains cidrs ds : List Text)
      → classical_keys p entries domains cidrs ≡ some (ds, [])
      → Domains entries domains cidrs ds
  unfolding classical_keys
  classical_keys-Domains [] domains cidrs ds e =
      (ground (arith, e), [], sym (ground (arith, e, append-nil domains)), no_more)
  classical_keys-Domains (entry ∷ entries) domains cidrs ds e =
      go (classical_key p entry) refl e
        (λ d. classical_keys-Domains entries (domains ++ d ∷ []) cidrs ds)
        (λ c. classical_keys-Domains entries domains (cidrs ++ c ∷ []) ds)
    where
      go :
          (k : Key)
          → classical_key p entry ≡ k
          → next_keys entries domains cidrs k ≡ some (ds, [])
          → ((d : Text)
              → classical_keys p entries (domains ++ d ∷ []) cidrs ≡ some (ds, [])
              → Domains entries (domains ++ d ∷ []) cidrs ds)
          → ((c : Text)
              → classical_keys p entries domains (cidrs ++ c ∷ []) ≡ some (ds, [])
              → Domains entries domains (cidrs ++ c ∷ []) ds)
          → Domains (entry ∷ entries) domains cidrs ds
      go (domain_key d) q h ihd ihc =
          let (z, keys, f, ks) = ihd d h in
          (z, d ∷ keys, f ∙ append_assoc domains (d ∷ []) keys, also (domain-IsKeyOf entry d q) ks)
      go (cidr_key c) q h ihd ihc = let (z, keys, f, ks) = ihc c h in absurd (snoc-ne-nil cidrs c z)
      go other_key q h ihd ihc = ground (arith, h)

  classical_keys-Ranges :
      (entries domains cidrs cs : List Text)
      → classical_keys p entries domains cidrs ≡ some ([], cs)
      → Ranges entries domains cidrs cs
  unfolding classical_keys
  classical_keys-Ranges [] domains cidrs cs e =
      (ground (arith, e), [], sym (ground (arith, e, append-nil cidrs)), no_more)
  classical_keys-Ranges (entry ∷ entries) domains cidrs cs e =
      go (classical_key p entry) refl e
        (λ d. classical_keys-Ranges entries (domains ++ d ∷ []) cidrs cs)
        (λ c. classical_keys-Ranges entries domains (cidrs ++ c ∷ []) cs)
    where
      go :
          (k : Key)
          → classical_key p entry ≡ k
          → next_keys entries domains cidrs k ≡ some ([], cs)
          → ((d : Text)
              → classical_keys p entries (domains ++ d ∷ []) cidrs ≡ some ([], cs)
              → Ranges entries (domains ++ d ∷ []) cidrs cs)
          → ((c : Text)
              → classical_keys p entries domains (cidrs ++ c ∷ []) ≡ some ([], cs)
              → Ranges entries domains (cidrs ++ c ∷ []) cs)
          → Ranges (entry ∷ entries) domains cidrs cs
      go (domain_key d) q h ihd ihc =
          let (z, keys, f, ks) = ihd d h in absurd (snoc-ne-nil domains d z)
      go (cidr_key c) q h ihd ihc =
          let (z, keys, f, ks) = ihc c h in
          (z, c ∷ keys, f ∙ append_assoc cidrs (c ∷ []) keys, also (range-IsKeyOf entry c q) ks)
      go other_key q h ihd ihc = ground (arith, h)

  pub classify_keys-KeysOf :
      (entries : List Text) (o : Option (List Text × List Text))
      → classical_keys p entries [] [] ≡ o
      → (classify_keys o).0 ≢ classical
      → KeysOf p (classify_keys o).0 entries (classify_keys o).1
  classify_keys-KeysOf entries none e c = absurd (c refl)
  classify_keys-KeysOf entries (some (ds, [])) e c =
      let (z, keys, f, ks) = classical_keys-Domains entries [] [] ds e in
      subst (KeysOf p domain entries) (sym f) ks
  classify_keys-KeysOf entries (some ([], x ∷ cs)) e c =
      let (z, keys, f, ks) = classical_keys-Ranges entries [] [] (x ∷ cs) e in
      subst (KeysOf p ipcidr entries) (sym f) ks
  classify_keys-KeysOf entries (some (d ∷ ds, x ∷ cs)) e c = absurd (c refl)

  pub parse_cidr-IsKeyOf :
      (entry key : Text)
      → has_comma entry ≡ false
      → parse_cidr p entry ≡ some key
      → IsKeyOf p ipcidr entry key
  unfolding parse_cidr
  parse_cidr-IsKeyOf entry key n e = elim (Bool-cases (p.is_prefix entry)) [
    | inl y ↦ subst (IsKeyOf p ipcidr entry) (ground (arith, e, y)) (plain_prefix n y)
    | inr y ↦ plain_address n y (ground (arith, e, y))
  ]

  pub no_cidr-IsKeyOf :
      (entry : Text)
      → has_comma entry ≡ false
      → parse_cidr p entry ≡ none
      → IsKeyOf p domain entry entry
  unfolding parse_cidr
  no_cidr-IsKeyOf entry n e = elim (Bool-cases (p.is_prefix entry)) [
    | inl y ↦ ground (arith, e, y)
    | inr y ↦ plain n y (ground (arith, e, y))
  ]
