-- ===== src/RuleSet/Classes.antt =====
-- The keys of a classification are those of its entries, one for each and in their order.
use yu_clash.Prelude.{
  suc, ◌≤◌, ◌≡◌, ◌≢◌, refl, none, some, List, [], ◌∷◌, length, arith, Option, Bool, true, false,
  ◌==◌, sym, ap, subst, ◌∙◌, if◌then◌else◌,
}
use yu_clash.Text.{Text}
use yu_clash.RuleSet.{
  Packages, RuleBehavior, domain, ipcidr, classical, parse_cidr, classical_keys, cidrs_of,
  classify_classical, classify_rule_set, Classified, classes, refused, RuleSetError, any_comma,
  by_count,
}
use yu_clash.RuleSet.Keys.{
  KeysOf, no_more, also, classify_keys-KeysOf, parse_cidr-IsKeyOf, no_cidr-IsKeyOf,
}

module _ (p : Packages) where
  length-cidrs_of : (entries : List Text) → length (cidrs_of p entries) ≤ length entries
  unfolding cidrs_of
  length-cidrs_of [] = omega arith
  length-cidrs_of (entry ∷ entries) = ground (arith, length-cidrs_of entries)

  abbrev with_cidr : Option Text → List Text → List Text
  with_cidr none rest = rest
  with_cidr (some cidr) rest = cidr ∷ rest

  cidrs_of-cons :
      (entry : Text) (entries : List Text)
      → cidrs_of p (entry ∷ entries) ≡ with_cidr (parse_cidr p entry) (cidrs_of p entries)
  unfolding cidrs_of
  cidrs_of-cons entry entries = go (parse_cidr p entry)
    where
      go :
          (o : Option Text)
          → (elim o as (λ _. List Text) [
            | none ↦ cidrs_of p entries
            | some cidr ↦ cidr ∷ cidrs_of p entries
          ])
            ≡ with_cidr o (cidrs_of p entries)
      go none = refl
      go (some cidr) = refl

  cidrs_of-KeysOf :
      (entries : List Text)
      → any_comma entries ≡ false
      → length (cidrs_of p entries) ≡ length entries
      → KeysOf p ipcidr entries (cidrs_of p entries)
  cidrs_of-KeysOf [] n e = unfold cidrs_of in no_more
  cidrs_of-KeysOf (entry ∷ entries) n e =
      subst (KeysOf p ipcidr (entry ∷ entries)) (sym (cidrs_of-cons entry entries)) (
        go (parse_cidr p entry) refl (ap length (sym (cidrs_of-cons entry entries)) ∙ e)
          (cidrs_of-KeysOf entries (ground (arith, n))))
    where
      go :
          (o : Option Text)
          → parse_cidr p entry ≡ o
          → length (with_cidr o (cidrs_of p entries)) ≡ suc (length entries)
          → (length (cidrs_of p entries) ≡ length entries
              → KeysOf p ipcidr entries (cidrs_of p entries))
          → KeysOf p ipcidr (entry ∷ entries) (with_cidr o (cidrs_of p entries))
      go none q l ih = absurd (omega (arith, l, length-cidrs_of entries))
      go (some cidr) q l ih =
          also (parse_cidr-IsKeyOf p entry cidr (ground (arith, n)) q) (ih (omega (arith, l)))

  plain-KeysOf :
      (entries : List Text)
      → any_comma entries ≡ false
      → length (cidrs_of p entries) ≡ 0
      → KeysOf p domain entries entries
  plain-KeysOf [] n e = no_more
  plain-KeysOf (entry ∷ entries) n e =
      go (parse_cidr p entry) refl (ap length (sym (cidrs_of-cons entry entries)) ∙ e)
        (plain-KeysOf entries (ground (arith, n)))
    where
      go :
          (o : Option Text)
          → parse_cidr p entry ≡ o
          → length (with_cidr o (cidrs_of p entries)) ≡ 0
          → (length (cidrs_of p entries) ≡ 0 → KeysOf p domain entries entries)
          → KeysOf p domain (entry ∷ entries) (entry ∷ entries)
      go none q l ih = also (no_cidr-IsKeyOf p entry (ground (arith, n)) q) (ih l)
      go (some cidr) q l ih = absurd (omega (arith, l))

  abbrev behavior_of : Classified → RuleBehavior
  behavior_of (classes b keys) = b
  behavior_of (refused e) = classical

  abbrev keys_of : Classified → List Text
  keys_of (classes b keys) = keys
  keys_of (refused e) = []

  Keeps : List Text → Classified → Type 0
  Keeps entries r = behavior_of r ≢ classical → KeysOf p (behavior_of r) entries (keys_of r)

  classify_classical-Keeps :
      (entries : List Text)
      → Keeps entries (classes (classify_classical p entries).0 (classify_classical p entries).1)
  unfolding Keeps classify_classical
  classify_classical-Keeps entries c =
      classify_keys-KeysOf p entries (classical_keys p entries [] []) refl c

  by_count-Keeps :
      (entries : List Text)
      → any_comma entries ≡ false
      → Keeps entries (by_count entries (cidrs_of p entries))
  unfolding Keeps
  by_count-Keeps entries n =
      go (length (cidrs_of p entries) == 0) (length (cidrs_of p entries) == length entries) refl
        refl
    where
      go :
          (z w : Bool)
          → (length (cidrs_of p entries) == 0) ≡ z
          → (length (cidrs_of p entries) == length entries) ≡ w
          → Keeps entries (
              if z
              then classes domain entries
              else if w
              then classes ipcidr (cidrs_of p entries)
              else refused RuleSetError.mixed)
      go true w z q c = plain-KeysOf entries n (ground (arith, z))
      go false true z q c = cidrs_of-KeysOf entries n (ground (arith, q))
      go false false z q c = absurd (c refl)

  classify_rule_set-Keeps : (entries : List Text) → Keeps entries (classify_rule_set p entries)
  unfolding Keeps classify_rule_set
  classify_rule_set-Keeps [] c = absurd (c refl)
  classify_rule_set-Keeps (entry ∷ entries) c = go (any_comma (entry ∷ entries)) refl c
    where
      go :
          (b : Bool)
          → any_comma (entry ∷ entries) ≡ b
          → Keeps (entry ∷ entries) (
              if b
              then classes
                  (classify_classical p (entry ∷ entries)).0
                  (classify_classical p (entry ∷ entries)).1
              else by_count (entry ∷ entries) (cidrs_of p (entry ∷ entries)))
      go true e = classify_classical-Keeps (entry ∷ entries)
      go false e = by_count-Keeps (entry ∷ entries) e

-- A rule set that is classified as domains or as ranges keeps every entry: it has one key for each, in their order, and
-- each is the key of its entry. In a plain list that is the entry itself where it is a prefix, the prefix of the address
-- where it is an address, and for domains the entry itself, which is then neither; in a list of classical rules, the trimmed value of a DOMAIN, that of a DOMAIN-SUFFIX behind
-- "+.", or that of an IP-CIDR or IP-CIDR6, with a plain domain or a prefix as its value.
pub no_entry_dropped :
    (p : Packages) (entries keys : List Text) (b : RuleBehavior)
    → classify_rule_set p entries ≡ classes b keys
    → b ≢ classical
    → KeysOf p b entries keys
unfolding Keeps
no_entry_dropped p entries keys b e c =
    subst (Keeps p entries) e (classify_rule_set-Keeps p entries) c
