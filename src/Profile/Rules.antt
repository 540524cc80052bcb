-- ===== src/Profile/Rules.antt =====
-- The rules of `appendRules`.
use yu_clash.Prelude.{
  ◌≡◌, refl, sym, ap, ◌∙◌, subst, Bool, true, false, Option, none, some, String, if◌then◌else◌, ◌⊎◌,
  inl, inr, arith,
}
use yu_clash.Profile.{
  Node, scalar, sequence, mapping, alias, Nodes, nil, cons, resolve_alias, is_null, or_else, append,
  joined, adds_nothing, rules_of, resolved, append_rules,
}

abbrev items : Node → Nodes
items (sequence ns) = ns
items _ = nil

-- The rules that a value lists: those of a sequence, and none of any other value.
pub items_of : Option Node → Nodes
unfolding resolve_alias
items_of none = nil
items_of (some n) = items (resolve_alias n)

append-nil : (ns : Nodes) → append ns nil ≡ ns
unfolding append
append-nil nil = refl
append-nil (cons n ns) = ap (cons n) (append-nil ns)

resolve_alias_twice : (n : Node) → resolve_alias (resolve_alias n) ≡ resolve_alias n
unfolding resolve_alias
resolve_alias_twice (scalar tag value) = refl
resolve_alias_twice (sequence ns) = refl
resolve_alias_twice (mapping es) = refl
resolve_alias_twice (alias n) = resolve_alias_twice n

joined-items : (m n r : Node) → joined m n ≡ inl r → items r ≡ append (items m) (items n)
joined-items (sequence ms) (sequence ns) r e =
    sym (ap items {x = sequence (append ms ns)} {y = r} (ground (arith, e)))
joined-items (sequence ms) (scalar t s) r e = ground (arith, e)
joined-items (sequence ms) (mapping es) r e = ground (arith, e)
joined-items (sequence ms) (alias a) r e = ground (arith, e)
joined-items (scalar t s) n r e = ground (arith, e)
joined-items (mapping es) n r e = ground (arith, e)
joined-items (alias a) n r e = ground (arith, e)

null-items : (n : Node) → is_null n ≡ true → items n ≡ nil
unfolding is_null
null-items (scalar t s) e = refl
null-items (sequence ns) e = ground (arith, e)
null-items (mapping es) e = refl
null-items (alias a) e = refl

nothing-items : (n : Node) → adds_nothing n ≡ true → items n ≡ nil
nothing-items (scalar t s) e = refl
nothing-items (sequence nil) e = refl
nothing-items (sequence (cons n ns)) e = ground (arith, e)
nothing-items (mapping es) e = refl
nothing-items (alias a) e = refl

rules_of-items :
    (added profile r : Node)
    → rules_of (some added) profile ≡ inl r
    → items r ≡ append (items added) (items profile)
unfolding append
rules_of-items added profile r h = go (adds_nothing added) (is_null profile) refl refl h
  where
    go :
        (a n : Bool)
        → adds_nothing added ≡ a
        → is_null profile ≡ n
        → ◌≡◌ {A = Node ⊎ String}
            (if a then inl profile else if n then inl added else joined added profile)
            (inl r)
        → items r ≡ append (items added) (items profile)
    go true n e f q =
        ap items {x = r} {y = profile} (ground (arith, q))
        ∙ ap (λ x. append x (items profile)) (sym (nothing-items added e))
    go false true e f q =
        ap items {x = r} {y = added} (ground (arith, q))
        ∙ sym (append-nil (items added))
        ∙ ap (append (items added)) (sym (null-items profile f))
    go false false e f q = joined-items added profile r q

IsResolved : Node → Type 0
unfolding resolve_alias
IsResolved n = resolve_alias n ≡ n

joined-IsResolved : (m n r : Node) → joined m n ≡ inl r → IsResolved r
unfolding IsResolved
joined-IsResolved (sequence ms) (sequence ns) r e =
    subst IsResolved {x = sequence (append ms ns)} {y = r} (ground (arith, e)) refl
joined-IsResolved (sequence ms) (scalar t s) r e = ground (arith, e)
joined-IsResolved (sequence ms) (mapping es) r e = ground (arith, e)
joined-IsResolved (sequence ms) (alias a) r e = ground (arith, e)
joined-IsResolved (scalar t s) n r e = ground (arith, e)
joined-IsResolved (mapping es) n r e = ground (arith, e)
joined-IsResolved (alias a) n r e = ground (arith, e)

rules_of-IsResolved :
    (added profile r : Node)
    → IsResolved added
    → IsResolved profile
    → rules_of (some added) profile ≡ inl r
    → IsResolved r
rules_of-IsResolved added profile r u v h = go (adds_nothing added) (is_null profile) h
  where
    go :
        (a n : Bool)
        → ◌≡◌ {A = Node ⊎ String}
            (if a then inl profile else if n then inl added else joined added profile)
            (inl r)
        → IsResolved r
    go true n q = subst IsResolved {x = profile} {y = r} (ground (arith, q)) v
    go false true q = subst IsResolved {x = added} {y = r} (ground (arith, q)) u
    go false false q = joined-IsResolved added profile r q

made-items :
    (o : Option Node) (p r : Node)
    → rules_of (resolved o) (resolve_alias p) ≡ inl r
    → items (resolve_alias r) ≡ append (items_of o) (items (resolve_alias p))
unfolding items_of IsResolved append
made-items none p r e =
    ap (λ x. items (resolve_alias x)) {x = r} {y = resolve_alias p} (ground (arith, e))
    ∙ ap items (resolve_alias_twice p)
made-items (some a) p r e =
    ap items (
      rules_of-IsResolved (resolve_alias a) (resolve_alias p) r (resolve_alias_twice a)
        (resolve_alias_twice p) e)
    ∙ rules_of-items (resolve_alias a) (resolve_alias p) r e

-- The rules after a merge: those of the overlay, then those of the profile.
pub append_rules-items_of :
    (added profile rules : Option Node)
    → append_rules added profile ≡ inl rules
    → items_of (or_else rules added) ≡ append (items_of added) (items_of profile)
unfolding append_rules items_of
append_rules-items_of added none rules h =
    ap (λ r. items_of (or_else r added)) {x = rules} {y = none} (ground (arith, h))
    ∙ sym (append-nil (items_of added))
append_rules-items_of added (some p) rules h =
    go (rules_of (resolved added) (resolve_alias p)) refl h
  where
    go :
        (x : Node ⊎ String)
        → rules_of (resolved added) (resolve_alias p) ≡ x
        → ◌≡◌ {A = Option Node ⊎ String}
            (elim x [ inl r ↦ inl (some r) | inr e ↦ inr e ])
            (inl rules)
        → items_of (or_else rules added) ≡ append (items_of added) (items (resolve_alias p))
    go (inl r) e q =
        ap (λ t. items_of (or_else t added)) {x = rules} {y = some r} (ground (arith, q))
        ∙ made-items added p r e
    go (inr s) e q = ground (arith, q)
