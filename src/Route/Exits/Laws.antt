-- ===== src/Route/Exits/Laws.antt =====
-- The loop of `exitThrough`, and its agreement with `exitOfChains`.
use yu_clash.Prelude.{
  ℕ, zero, suc, ◌<◌, String, ◌≡◌, sym, true, false, Option, none, some, List, [], ◌∷◌, map, reverse,
  All, inl, inr, Option-cases, arith,
}
use mathlib.Core.List.{reverse-reverse}
use yu_clash.Route.Exits.{
  Tunnel, lookup_proxy, walk, exit_through, first_load_balance, exit_or, exit_of_chains,
}

module _ (tunnel : Tunnel) where
  open tunnel use {
    Proxy, Metadata, is_load_balance, unwrap, exit_name, depth, unwrap_descends, name as name_of,
  }

  -- Any bound above the depth gives the same exit.
  walk_stable :
      (n k : ℕ) (p : Proxy) (m : Option Metadata)
      → depth p < n
      → depth p < k
      → walk tunnel n p m ≡ walk tunnel k p m
  unfolding walk
  walk_stable zero k p m h l = absurd (omega arith)
  walk_stable (suc n) zero p m h l = absurd (omega arith)
  walk_stable (suc n) (suc k) p m h l = elim (Option-cases (unwrap p m)) [
    | inl f ↦ ground arith
    | inr (q, f) ↦ ground (arith, unwrap_descends p m q f, walk_stable n k q m)
  ]

  -- One round of the loop.
  abbrev round : Proxy → Option Metadata → String
  round p m = elim (is_load_balance p) [
    | true ↦ exit_name p
    | false ↦ elim (unwrap p m) [
      | none ↦ exit_name p
      | some next ↦ exit_through tunnel (some next) m
    ]
  ]

  -- The bound on the rounds is never met: the exit satisfies the equation of the unbounded loop. A load
  -- balancer and a proxy that unwraps to nothing give their own name, any other the exit of the next
  -- proxy.
  exit_through_loop : (p : Proxy) (m : Option Metadata) → exit_through tunnel (some p) m ≡ round p m
  unfolding exit_through
  exit_through_loop p m =
      unfold walk in
      elim (Option-cases (unwrap p m)) [
        | inl f ↦ ground arith
        | inr (q, f) ↦
            ground (arith, unwrap_descends p m q f, walk_stable (depth p) (suc (depth q)) q m)
      ]

  -- `hops` are the proxies that unwrapping `p` again and again leads to, down to one that dials.
  abbrev pub LeadsTo : Option Metadata → Proxy → List Proxy → Type 0
  LeadsTo m p [] = unwrap p m ≡ none
  LeadsTo m p (q ∷ hops) = (unwrap p m ≡ some q) × LeadsTo m q hops

  abbrev pub dialer : Proxy → List Proxy → Proxy
  dialer p [] = p
  dialer p (q ∷ hops) = dialer q hops

  abbrev pub groups_of : Proxy → List Proxy → List Proxy
  groups_of p [] = []
  groups_of p (q ∷ hops) = p ∷ groups_of q hops

  -- The tunnel knows the proxy by its name.
  abbrev pub IsKnown : Proxy → Type 0
  IsKnown p = lookup_proxy tunnel (name_of p) ≡ some p

  -- The chains of a connection that went out along the hops: the name of the proxy that dialed, then
  -- those of the groups, the outermost last.
  abbrev pub chains_of : Proxy → List Proxy → List String
  chains_of p hops = name_of (dialer p hops) ∷ reverse (map name_of (groups_of p hops))

  exit_of_hops :
      (m : Option Metadata) (p : Proxy) (hops : List Proxy)
      → LeadsTo m p hops
      → All IsKnown (p ∷ hops)
      → exit_through tunnel (some p) m
        ≡ exit_or tunnel
            (first_load_balance tunnel (map name_of (groups_of p hops)))
            (exit_or tunnel (lookup_proxy tunnel (name_of (dialer p hops))) "")
  unfolding first_load_balance exit_or
  exit_of_hops m p [] h k = ground (arith, exit_through_loop p m, k.0)
  exit_of_hops m p (q ∷ hops) h k =
      ground (arith, exit_through_loop p m, k.0, exit_of_hops m q hops h.1 k.1)

  -- The exit read from the chains of a connection is the one that the live route shows: if unwrapping
  -- the proxy leads through the groups down to the one that dials, and the tunnel knows each of them
  -- by its name, then `exitOfChains` of those names is `exitThrough` of the proxy, a load balancer
  -- among the groups included.
  pub exit_of_chains-exit_through :
      (m : Option Metadata) (p : Proxy) (hops : List Proxy)
      → LeadsTo m p hops
      → All IsKnown (p ∷ hops)
      → exit_of_chains tunnel (chains_of p hops) ≡ exit_through tunnel (some p) m
  unfolding exit_of_chains
  exit_of_chains-exit_through m p hops h k = rw reverse-reverse (sym (exit_of_hops m p hops h k))
