-- ===== src/Probe/Hits.antt =====
-- The recorder of hits keeps one hit of each place, the newest one.
use yu_clash.Prelude.{
  ℕ, suc, ◌≤◌, ◌≡◌, refl, ap, ◌∙◌, Bool, ◌&&◌, ◌==◌, Option, none, some, String, List, [], ◌∷◌,
  if◌then◌else◌, str_eq, str_eq_iff, arith,
}
use yu_clash.Route.Exits.{RouteHit}
use yu_clash.Probe.{with_hit, add_hits}

abbrev pub is_at : String → String → RouteHit → Bool
is_at host proxy h = str_eq h.host host && str_eq h.proxy proxy

-- The exit that the hits name for a host through a proxy.
unfoldable pub exit_at : String → String → List RouteHit → Option String
exit_at host proxy [] = none
exit_at host proxy (h ∷ hits) =
    let rest = exit_at host proxy hits in if is_at host proxy h then some h.exit else rest

-- The exit of the last of the hits at a place, or the one before all of them.
unfoldable pub newest_exit : String → String → Option String → List RouteHit → Option String
newest_exit host proxy held [] = held
newest_exit host proxy held (h ∷ hits) =
    newest_exit host proxy (if is_at host proxy h then some h.exit else held) hits

unfoldable pub count_at : String → String → List RouteHit → ℕ
count_at host proxy [] = 0
count_at host proxy (h ∷ hits) =
    let rest = count_at host proxy hits in if is_at host proxy h then suc rest else rest

module _ (host proxy : String) where
  exit_at-with_hit :
      (hits : List RouteHit) (hit : RouteHit)
      → exit_at host proxy (with_hit hits hit)
        ≡ (if is_at host proxy hit then some hit.exit else exit_at host proxy hits)
  unfolding exit_at with_hit
  exit_at-with_hit [] hit = refl
  exit_at-with_hit (h ∷ hits) hit = ground (
    arith,
    exit_at-with_hit hits hit,
    str_eq_iff h.host hit.host,
    str_eq_iff h.proxy hit.proxy,
    str_eq_iff h.host host,
    str_eq_iff h.proxy proxy,
    str_eq_iff hit.host host,
    str_eq_iff hit.proxy proxy,
  )

  count_at-with_hit :
      (hits : List RouteHit) (hit : RouteHit)
      → count_at host proxy (with_hit hits hit) ≡ (
          if is_at host proxy hit && count_at host proxy hits == 0
          then 1
          else count_at host proxy hits)
  unfolding count_at with_hit
  count_at-with_hit [] hit = ground arith
  count_at-with_hit (h ∷ hits) hit = ground (
    arith,
    count_at-with_hit hits hit,
    str_eq_iff h.host hit.host,
    str_eq_iff h.proxy hit.proxy,
    str_eq_iff h.host host,
    str_eq_iff h.proxy proxy,
    str_eq_iff hit.host host,
    str_eq_iff hit.proxy proxy,
  )

  count_at-add_hits :
      (held hits : List RouteHit)
      → count_at host proxy held ≤ 1
      → count_at host proxy (add_hits held hits) ≤ 1
  unfolding add_hits
  count_at-add_hits held [] c = c
  count_at-add_hits held (hit ∷ hits) c =
      count_at-add_hits (with_hit held hit) hits (ground (arith, c, count_at-with_hit held hit))

  exit_at-add_hits :
      (held hits : List RouteHit)
      → exit_at host proxy (add_hits held hits)
        ≡ newest_exit host proxy (exit_at host proxy held) hits
  unfolding add_hits newest_exit
  exit_at-add_hits held [] = refl
  exit_at-add_hits held (hit ∷ hits) =
      exit_at-add_hits (with_hit held hit) hits
      ∙ ap (λ o. newest_exit host proxy o hits) (exit_at-with_hit held hit)

-- Of the hits that a fresh recorder is given, it keeps at most one of each host and proxy, and that one names the exit of
-- the newest of them.
pub recorder_keeps_newest :
    (host proxy : String) (hits : List RouteHit)
    → (count_at host proxy (add_hits [] hits) ≤ 1)
      × (exit_at host proxy (add_hits [] hits) ≡ newest_exit host proxy none hits)
unfolding count_at exit_at
recorder_keeps_newest host proxy hits =
    (count_at-add_hits host proxy [] hits (omega arith), exit_at-add_hits host proxy [] hits)
