-- ===== src/Route/Exits/Check.antt =====
-- What `handleCheckRoutes` answers; its cache of exits does not show.
use yu_clash.Prelude.{
  String, ◌≡◌, ◌≢◌, ◌↔◌, refl, sym, Bool, true, some, List, [], ◌∷◌, All, inl, inr, ◌∙◌, Bool-cases,
  Option-cases, str_eq, str_eq_iff, arith,
}
use mathlib.Core.List.{cons-ne-nil}
use yu_clash.Prelude.Maps.{lookup, insert, lookup-insert}
use yu_clash.Route.{World}
use yu_clash.Route.Exits.{
  Tunnel, RouteHit, pair_equality, Exits, exit_of, check_hits, check_route, check_each,
  handle_check_routes, resolve_exit,
}

module _ (resolve : String → String → String) where
  -- Every exit in the cache is the one that resolving gives.
  IsRight : Exits resolve → Type 0
  IsRight exits =
      (host proxy exit : String)
      → lookup (host, proxy) exits ≡ some exit
      → exit ≡ resolve host proxy

  IsRight-insert :
      (host proxy : String) (exits : Exits resolve)
      → IsRight exits
      → IsRight (insert (host, proxy) (resolve host proxy) exits)
  unfolding IsRight
  IsRight-insert host proxy exits r h p x e = ground (
    arith,
    lookup-insert (host, proxy) (h, p) (resolve host proxy) exits,
    str_eq_iff host h,
    str_eq_iff proxy p,
    r h p x,
  )

  exit_of_lem :
      (hit : RouteHit) (exits : Exits resolve)
      → IsRight exits
      → ((exit_of resolve hit exits).0 ≡ resolve hit.host hit.proxy)
        × IsRight (exit_of resolve hit exits).1
  unfolding exit_of
  exit_of_lem hit exits r = elim (Option-cases (lookup (hit.host, hit.proxy) exits)) [
    | inl e ↦ rw e (refl, IsRight-insert hit.host hit.proxy exits r)
    | inr (x, e) ↦ rw e (unfold IsRight in (r hit.host hit.proxy x e, r))
  ]

  abbrev pub Holds : RouteHit → Type 0
  Holds hit = resolve hit.host hit.proxy ≡ hit.exit

  check_hits_lem :
      (route : List RouteHit) (exits : Exits resolve)
      → IsRight exits
      → (((check_hits resolve route exits).0 ≡ true) ↔ All Holds route)
        × IsRight (check_hits resolve route exits).1
  unfolding check_hits
  check_hits_lem [] exits r = ((λ _. tt, λ _. refl), r)
  check_hits_lem (hit ∷ route) exits r =
      let (x, exits') = exit_of resolve hit exits in
      let (e, r') = exit_of_lem hit exits r in
      let (f, r'') = check_hits_lem route exits' r' in
      let same_iff = str_eq_iff x hit.exit in
      elim (Bool-cases (str_eq x hit.exit)) [
        | inl same ↦ rw same ((λ h. (sym e ∙ same_iff.0 same, f.0 h), λ h. f.1 h.1), r'')
        | inr other ↦ rw other ((λ h. cc, λ h. cc (other, same_iff.1 (e ∙ h.0))), r')
      ]

  abbrev pub RouteHolds : List RouteHit → Type 0
  RouteHolds route = (route ≢ []) × All Holds route

  check_route_lem :
      (route : List RouteHit) (exits : Exits resolve)
      → IsRight exits
      → (((check_route resolve route exits).0 ≡ true) ↔ RouteHolds route)
        × IsRight (check_route resolve route exits).1
  unfolding check_route
  check_route_lem [] exits r = ((λ h. cc, λ h. absurd (h.0 refl)), r)
  check_route_lem (hit ∷ route) exits r =
      let (e, r') = check_hits_lem (hit ∷ route) exits r in
      ((λ h. (cons-ne-nil hit route, e.0 h), λ h. e.1 h.1), r')

  -- One answer for each route, in their order.
  abbrev pub Answers : List (List RouteHit) → List Bool → Type 0
  Answers [] [] = Unit
  Answers (route ∷ routes) (held ∷ rest) = ((held ≡ true) ↔ RouteHolds route) × Answers routes rest
  Answers _ _ = ⊥

  check_each_lem :
      (routes : List (List RouteHit)) (exits : Exits resolve)
      → IsRight exits
      → Answers routes (check_each resolve routes exits)
  unfolding check_each
  check_each_lem [] exits r = tt
  check_each_lem (route ∷ routes) exits r =
      let (e, r') = check_route_lem route exits r in (e, check_each_lem routes _ r')

-- A recorded route is reported as held exactly when it has a hit and every hit's exit is the one that
-- its host and proxy resolve to now; the answers stand in the order of the routes, and carry the epoch
-- and the version of the tracker.
pub handle_check_routes_lem :
    (tunnel : Tunnel) (w : World) (routes : List (List RouteHit))
    → let check = handle_check_routes tunnel w routes in
      Answers (resolve_exit tunnel) routes check.held
      × (check.core_epoch ≡ w.tracker.epoch)
      × (check.route_version ≡ w.tracker.version)
unfolding handle_check_routes
handle_check_routes_lem tunnel w routes = (
  check_each_lem (resolve_exit tunnel) routes [] (unfold IsRight lookup in λ h p x e. cc),
  refl,
  refl,
)
