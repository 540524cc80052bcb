-- ===== src/Traffic/Reports.antt =====
-- A closed request is let go, and a report that was not queued is made again.
use yu_clash.Prelude.{
  ℕ, suc, ◌≡◌, ◌≤◌, refl, ap, subst, Bool, true, false, Option, none, some, String, List, [], ◌∷◌,
  if◌then◌else◌, Bool-cases, inl, inr, string_equality, str_eq, str_eq_iff, arith, All,
}
use yu_clash.Prelude.Maps.{lookup, insert}
use yu_clash.Traffic.{
  RequestTraffic, WatchedRequest, Requests, Reading, close_retries, visit, visit_all, settle_one,
  settle, is_done, drop_done, remaining,
}

abbrev pub Entry : Type 0
Entry = String × WatchedRequest

module _ (P : Entry → Type 0) where
  insert-All :
      (id : String) (r : WatchedRequest) (rs : Requests)
      → P (id, r)
      → All P rs
      → All P (insert id r rs)
  unfolding insert
  insert-All id r [] h hs = (h, tt)
  insert-All id r ((j, q) ∷ rs) h (g, gs) = put (str_eq j id) (insert-All id r rs h gs)
    where
      put :
          (b : Bool)
          → All P (insert id r rs)
          → All P (if b then (id, r) ∷ rs else (j, q) ∷ insert id r rs)
      put true rest = (h, gs)
      put false rest = (g, rest)

  pub lookup-All :
      (id : String) (r : WatchedRequest) (rs : Requests)
      → All P rs
      → lookup id rs ≡ some r
      → P (id, r)
  unfolding lookup
  lookup-All id r [] h e = ground (arith, e)
  lookup-All id r ((j, q) ∷ rs) (g, gs) e = elim (Bool-cases (str_eq j id)) [
    | inl t ↦ subst P {x = (j, q)} (ground (arith, t, e, str_eq_iff j id)) g
    | inr t ↦ lookup-All id r rs gs (ground (arith, t, e))
  ]

  drop_done-All : (queued : Bool) (rs : Requests) → All P rs → All P (drop_done queued rs)
  unfolding drop_done
  drop_done-All queued [] h = tt
  drop_done-All queued ((j, q) ∷ rs) (g, gs) = put (is_done queued q) (drop_done-All queued rs gs)
    where
      put :
          (b : Bool)
          → All P (drop_done queued rs)
          → All P (if b then drop_done queued rs else (j, q) ∷ drop_done queued rs)
      put true rest = rest
      put false rest = (g, rest)

  -- A property that does not look at the recorded totals stays.
  settle-All :
      ((id : String) (r : WatchedRequest) (u d : ℕ)
        → P (id, r)
        → P (id, record r { upload = u; download = d }))
      → (ts : List RequestTraffic) (rs : Requests) → All P rs
      → All P (settle ts rs)
  unfolding settle
  settle-All keeps [] rs h = h
  settle-All keeps (t ∷ ts) rs h =
      settle-All keeps ts (settle_one (lookup t.id rs) t rs) (one (lookup t.id rs) refl)
    where
      one : (o : Option WatchedRequest) → lookup t.id rs ≡ o → All P (settle_one o t rs)
      one none e = h
      one (some r) e =
          insert-All t.id _ rs (keeps t.id r t.upload t.download (lookup-All t.id r rs h e)) h

  pub remaining-All :
      ((id : String) (r : WatchedRequest) (u d : ℕ)
        → P (id, r)
        → P (id, record r { upload = u; download = d }))
      → (ts : List RequestTraffic) (queued : Bool) (rs : Requests) → All P rs
      → All P (remaining ts queued rs)
  unfolding remaining
  remaining-All keeps ts true rs h = drop_done-All true (settle ts rs) (settle-All keeps ts rs h)
  remaining-All keeps ts false rs h = drop_done-All false rs h

abbrev pub IsRetried : Entry → Type 0
IsRetried e = e.1.closed_reports ≤ close_retries

kept :
    (queued : Bool) (r : WatchedRequest)
    → is_done queued r ≡ false
    → r.closed_reports ≤ close_retries
unfolding is_done
kept queued r e = ground (arith, e)

drop_done-IsRetried : (queued : Bool) (rs : Requests) → All IsRetried (drop_done queued rs)
unfolding drop_done
drop_done-IsRetried queued [] = tt
drop_done-IsRetried queued ((id, r) ∷ rs) =
    put (is_done queued r) refl (drop_done-IsRetried queued rs)
  where
    put :
        (b : Bool)
        → is_done queued r ≡ b
        → All IsRetried (drop_done queued rs)
        → All IsRetried (if b then drop_done queued rs else (id, r) ∷ drop_done queued rs)
    put true e rest = rest
    put false e rest = (kept queued r e, rest)

pub remaining-IsRetried :
    (ts : List RequestTraffic) (queued : Bool) (rs : Requests)
    → All IsRetried (remaining ts queued rs)
unfolding remaining
remaining-IsRetried ts queued rs = drop_done-IsRetried queued (if queued then settle ts rs else rs)

-- The connection `id` was seen closed in so many reports.
abbrev pub Aged : String → ℕ → Entry → Type 0
Aged id n e = e.0 ≡ id → (e.1.fresh ≡ false) × (n ≤ e.1.closed_reports)

pub visit_all-first :
    (now : Reading) (id : String) (rs : Requests) → All (Aged id 0) (visit_all now rs)
unfolding visit_all visit
visit_all-first now id [] = tt
visit_all-first now id ((j, r) ∷ rs) = ((λ e. (refl, omega arith)), visit_all-first now id rs)

visit-Aged :
    (now : Reading) (id : String) (n : ℕ) (j : String) (r : WatchedRequest)
    → now.is_open id ≡ false
    → Aged id n (j, r)
    → Aged id (suc n) (j, visit now j r)
unfolding visit
visit-Aged now id n j r c h e = (refl, ground (arith, h e, c, ap now.is_open e))

pub visit_all-Aged :
    (now : Reading) (id : String) (n : ℕ) (rs : Requests)
    → now.is_open id ≡ false
    → All (Aged id n) rs
    → All (Aged id (suc n)) (visit_all now rs)
unfolding visit_all
visit_all-Aged now id n [] c h = tt
visit_all-Aged now id n ((j, r) ∷ rs) c (g, gs) =
    (visit-Aged now id n j r c g, visit_all-Aged now id n rs c gs)
