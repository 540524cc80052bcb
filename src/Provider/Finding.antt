-- ===== src/Provider/Finding.antt =====
-- core/provider.go: the provider of a name and the list of all external providers agree.
use yu_clash.Prelude.{
  ◌≡◌, refl, sym, ap, ◌∙◌, Bool, true, false, Option, none, some, String, List, [], ◌∷◌, str_eq,
  str_eq_iff, if◌then◌else◌, string_equality, ◌⊎◌, ◌↔◌, inl, inr, arith,
}
use yu_clash.Prelude.Maps.{lookup, insert, HasUniqueKeys, lookup-insert, insert-HasUniqueKeys}
use mathlib.Core.List.Memᴰ.{Memᴰ, head, tail, cases_cons}
use yu_clash.Text.{before}
use yu_clash.Provider.{
  Provider, Snapshot, add_external, external_providers, if_external, or_else,
  lookup_external_provider, ExternalProvider, to_external_provider, with_shown, shown_all,
  insert_by_name, sort_by_name, handle_get_external_providers, handle_get_external_provider,
}

lookup-add_external :
    (k : String) (m eps : Snapshot)
    → HasUniqueKeys m
    → lookup k (add_external m eps) ≡ or_else (if_external (lookup k m)) (lookup k eps)
unfolding lookup add_external insert
lookup-add_external k [] eps u = refl
lookup-add_external k ((n, p) ∷ more) eps (e, u) =
    lookup-add_external k more (if p.is_compatible then eps else insert n p eps) u
    ∙ entered (str_eq n k) p.is_compatible refl refl
  where
    entered :
        (s c : Bool)
        → str_eq n k ≡ s
        → p.is_compatible ≡ c
        → or_else (if_external (lookup k more)) (lookup k (if c then eps else insert n p eps))
          ≡ or_else (if_external (if s then some p else lookup k more)) (lookup k eps)
    entered s c q r =
        ground (arith, q, r, e, ap (λ x. lookup x more), str_eq_iff n k, lookup-insert n k p eps)

-- Where a provider is found, the map of external providers has it.
lookup-external_providers :
    (proxies rules : Snapshot) (name : String)
    → HasUniqueKeys proxies
    → HasUniqueKeys rules
    → lookup name (external_providers proxies rules) ≡ lookup_external_provider proxies rules name
unfolding external_providers lookup_external_provider lookup
lookup-external_providers proxies rules name u v =
    lookup-add_external name rules (add_external proxies []) v
    ∙ ground (arith, lookup-add_external name proxies [] u)

add_external-HasUniqueKeys :
    (m eps : Snapshot) → HasUniqueKeys eps → HasUniqueKeys (add_external m eps)
unfolding add_external
add_external-HasUniqueKeys [] eps u = u
add_external-HasUniqueKeys ((n, p) ∷ more) eps u =
    add_external-HasUniqueKeys more _ (go p.is_compatible)
  where
    go : (b : Bool) → HasUniqueKeys (if b then eps else insert n p eps)
    go true = u
    go false = insert-HasUniqueKeys n p eps u

to_insert_by_name :
    (e f : ExternalProvider) (eps : List ExternalProvider)
    → (e ≡ f) ⊎ Memᴰ e eps
    → Memᴰ e (insert_by_name f eps)
unfolding insert_by_name
to_insert_by_name e f [] (inl q) = head q
to_insert_by_name e f [] (inr k) = elim k [ ]
to_insert_by_name e f (g ∷ eps) h = go (before g.name f.name) (to_insert_by_name e f eps) h
  where
    go :
        (b : Bool)
        → ((e ≡ f) ⊎ Memᴰ e eps → Memᴰ e (insert_by_name f eps))
        → (e ≡ f) ⊎ Memᴰ e (g ∷ eps)
        → Memᴰ e (if b then g ∷ insert_by_name f eps else f ∷ g ∷ eps)
    go true ih (inl q) = tail (ih (inl q))
    go true ih (inr (head q)) = head q
    go true ih (inr (tail k)) = tail (ih (inr k))
    go false ih (inl q) = head q
    go false ih (inr k) = tail k

from_insert_by_name :
    (e f : ExternalProvider) (eps : List ExternalProvider)
    → Memᴰ e (insert_by_name f eps)
    → (e ≡ f) ⊎ Memᴰ e eps
unfolding insert_by_name
from_insert_by_name e f [] h = cases_cons h
from_insert_by_name e f (g ∷ eps) h = go (before g.name f.name) (from_insert_by_name e f eps) h
  where
    further : (e ≡ f) ⊎ Memᴰ e eps → (e ≡ f) ⊎ Memᴰ e (g ∷ eps)
    further (inl q) = inl q
    further (inr k) = inr (tail k)

    go :
        (b : Bool)
        → (Memᴰ e (insert_by_name f eps) → (e ≡ f) ⊎ Memᴰ e eps)
        → Memᴰ e (if b then g ∷ insert_by_name f eps else f ∷ g ∷ eps)
        → (e ≡ f) ⊎ Memᴰ e (g ∷ eps)
    go true ih (head q) = inr (head q)
    go true ih (tail k) = further (ih k)
    go false ih k = cases_cons k

to_sort_by_name :
    (e : ExternalProvider) (eps : List ExternalProvider) → Memᴰ e eps → Memᴰ e (sort_by_name eps)
unfolding sort_by_name
to_sort_by_name e [] k = elim k [ ]
to_sort_by_name e (f ∷ eps) (head q) = to_insert_by_name e f (sort_by_name eps) (inl q)
to_sort_by_name e (f ∷ eps) (tail k) =
    to_insert_by_name e f (sort_by_name eps) (inr (to_sort_by_name e eps k))

from_sort_by_name :
    (e : ExternalProvider) (eps : List ExternalProvider) → Memᴰ e (sort_by_name eps) → Memᴰ e eps
unfolding sort_by_name
from_sort_by_name e [] k = elim k [ ]
from_sort_by_name e (f ∷ eps) h =
    go (from_sort_by_name e eps) (from_insert_by_name e f (sort_by_name eps) h)
  where
    go :
        (Memᴰ e (sort_by_name eps) → Memᴰ e eps)
        → (e ≡ f) ⊎ Memᴰ e (sort_by_name eps)
        → Memᴰ e (f ∷ eps)
    go ih (inl q) = head q
    go ih (inr k) = tail (ih k)

Shown : Snapshot → ExternalProvider → Type 0
Shown m e =
    (n : String) × (p : Provider) × (lookup n m ≡ some p) × (to_external_provider p ≡ some e)

to_shown_all :
    (m : Snapshot) (n : String) (p : Provider) (e : ExternalProvider)
    → lookup n m ≡ some p
    → to_external_provider p ≡ some e
    → Memᴰ e (shown_all m)
unfolding shown_all lookup
to_shown_all [] n p e l q = ground (arith, l)
to_shown_all ((j, r) ∷ more) n p e l q = go (str_eq j n) (to_shown_all more n p e) l
  where
    rest :
        (o : Option ExternalProvider)
        → Memᴰ e (shown_all more)
        → Memᴰ e (with_shown o (shown_all more))
    rest none k = k
    rest (some f) k = tail k

    here : (o : Option ExternalProvider) → o ≡ some e → Memᴰ e (with_shown o (shown_all more))
    here none i = ground (arith, i)
    here (some f) i = head (ground (arith, i))

    go :
        (b : Bool)
        → (lookup n more ≡ some p → to_external_provider p ≡ some e → Memᴰ e (shown_all more))
        → (if b then some r else lookup n more) ≡ some p
        → Memᴰ e (with_shown (to_external_provider r) (shown_all more))
    go true ih i =
        here (to_external_provider r)
          (ap to_external_provider {x = r} {y = p} (ground (arith, i)) ∙ q)
    go false ih i = rest (to_external_provider r) (ih i q)

deeper :
    (j : String) (r : Provider) (more : Snapshot) (e : ExternalProvider)
    → lookup j more ≡ none
    → Shown more e
    → Shown ((j, r) ∷ more) e
unfolding Shown lookup
deeper j r more e u (n, p, l, q) =
    (n, p, ground (arith, l, u, str_eq_iff j n, ap (λ x. lookup x more)), q)

from_shown_all :
    (m : Snapshot) (e : ExternalProvider) → HasUniqueKeys m → Memᴰ e (shown_all m) → Shown m e
unfolding shown_all Shown lookup
from_shown_all [] e u k = elim k [ ]
from_shown_all ((j, r) ∷ more) e (u, v) k =
    go (to_external_provider r) refl (from_shown_all more e v) k
  where
    go :
        (o : Option ExternalProvider)
        → to_external_provider r ≡ o
        → (Memᴰ e (shown_all more) → Shown more e)
        → Memᴰ e (with_shown o (shown_all more))
        → Shown ((j, r) ∷ more) e
    go none q ih i = deeper j r more e u (ih i)
    go (some f) q ih (head i) = (j, r, ground (arith, str_eq_iff j j), q ∙ ap some (sym i))
    go (some f) q ih (tail i) = deeper j r more e u (ih i)

found :
    (proxies rules : Snapshot) (n : String) (p : Provider) (e : ExternalProvider)
    → lookup_external_provider proxies rules n ≡ some p
    → to_external_provider p ≡ some e
    → handle_get_external_provider proxies rules n ≡ some e
unfolding handle_get_external_provider
found proxies rules n p e l q = ap shown l ∙ q
  where
    shown : Option Provider → Option ExternalProvider
    shown o = elim o [ none ↦ none | some p ↦ to_external_provider p ]

found_shown :
    (proxies rules : Snapshot) (n : String) (e : ExternalProvider)
    → handle_get_external_provider proxies rules n ≡ some e
    → (p : Provider) × (lookup_external_provider proxies rules n ≡ some p)
      × (to_external_provider p ≡ some e)
unfolding handle_get_external_provider
found_shown proxies rules n e h = go (lookup_external_provider proxies rules n) refl h
  where
    go :
        (o : Option Provider)
        → lookup_external_provider proxies rules n ≡ o
        → (elim o as (λ _. Option ExternalProvider) [
          | none ↦ none
          | some p ↦ to_external_provider p
        ])
          ≡ some e
        → (p : Provider) × (lookup_external_provider proxies rules n ≡ some p)
          × (to_external_provider p ≡ some e)
    go none i q = ground (arith, q)
    go (some p) i q = (p, i, q)

-- The two ways to ask for external providers agree: the list holds an entry exactly when some name is answered with it,
-- for any snapshots of mihomo's with one provider for each name, whatever names the two have in common and whichever
-- of them are compatible ones, which are left out.
pub listed_iff_found :
    (proxies rules : Snapshot) (e : ExternalProvider)
    → HasUniqueKeys proxies
    → HasUniqueKeys rules
    → Memᴰ e (handle_get_external_providers proxies rules)
      ↔ ((n : String) × (handle_get_external_provider proxies rules n ≡ some e))
unfolding handle_get_external_providers Shown external_providers
listed_iff_found proxies rules e u v = (found_in, listed)
  where
    all : Snapshot
    all = external_providers proxies rules

    unique : HasUniqueKeys all
    unique =
        add_external-HasUniqueKeys rules (add_external proxies [])
          (add_external-HasUniqueKeys proxies [] tt)

    found_in :
        Memᴰ e (sort_by_name (shown_all all))
        → (n : String) × (handle_get_external_provider proxies rules n ≡ some e)
    found_in k =
        let (n, p, l, q) = from_shown_all all e unique (from_sort_by_name e (shown_all all) k) in
        (n, found proxies rules n p e (sym (lookup-external_providers proxies rules n u v) ∙ l) q)

    listed :
        (n : String) × (handle_get_external_provider proxies rules n ≡ some e)
        → Memᴰ e (sort_by_name (shown_all all))
    listed (n, h) =
        let (p, l, q) = found_shown proxies rules n e h in
        to_sort_by_name e (shown_all all)
          (to_shown_all all n p e (lookup-external_providers proxies rules n u v ∙ l) q)
