-- ===== src/Config/Credentials.antt =====
-- The exemptions from authentication once an update has given credentials.
use yu_clash.Prelude.{
  ◌≡◌, refl, sym, ◌∙◌, subst, Bool, true, false, Option, none, some, String, List, [], ◌∷◌,
  if◌then◌else◌, ◌⊎◌, inl, inr, All, arith,
}
use yu_clash.Text.{Text}
use yu_clash.Config.{Platform, General, User, Config, Told, State, UpdateParams}
use yu_clash.Config.Update.{
  config_not_applied, update_listeners, users_of, is_nil, apply_authentication, authenticate,
  patch_controller, patch_general, tell_general, patch_config, update_applied, update_config,
}
use yu_clash.Config.Life.{
  handle_init_clash, handle_start_listener, handle_stop_listener, handle_shutdown, Event, init,
  setup, update, start, stop, shutdown, step, run,
}

module _ {m : Platform} where
  abbrev Guarded : Config m × Told m → Type 0
  Guarded (cfg, t) =
      (t.users ≡ cfg.users)
      × ((cfg.users ≡ []) ⊎ ((cfg.general.skip_auth_prefixes ≡ []) × (t.skip_auth_prefixes ≡ [])))

  -- With a configuration in force, mihomo checks its users, and has no exempt prefix where it has users.
  pub GuardedBy : Option (Config m) → Told m → Type 0
  GuardedBy none t = Unit
  GuardedBy (some cfg) t = Guarded (cfg, t)

  apply_authentication-Guarded :
      (lines : List Text) (ct : Config m × Told m) → Guarded (apply_authentication lines ct)
  unfolding apply_authentication
  apply_authentication-Guarded lines (cfg, t) = go (users_of lines) refl
    where
      named : General m
      named = record cfg.general { authentication = lines }

      go :
          (users : List User)
          → users_of lines ≡ users
          → Guarded (
              if is_nil users
              then (record cfg { general = named; users = users }, record t { users = users })
              else (
                record cfg { general = record named { skip_auth_prefixes = [] }; users = users },
                record t { users = users; skip_auth_prefixes = [] },
              ))
      go [] e = (refl, inl refl)
      go (u ∷ users) e = (refl, inr (refl, refl))

  patch_controller-Guarded :
      (params : UpdateParams) (ct : Config m × Told m)
      → Guarded ct
      → Guarded (patch_controller params ct)
  unfolding patch_controller
  patch_controller-Guarded params (cfg, t) h = ground (arith, h)

  authenticate-Guarded :
      (lines : Option (List Text)) (ct : Config m × Told m)
      → Guarded ct
      → Guarded (authenticate lines ct)
  authenticate-Guarded none ct h = h
  authenticate-Guarded (some lines) ct h = apply_authentication-Guarded lines ct

  patch_config-Guarded :
      (params : UpdateParams) (ct : Config m × Told m)
      → Guarded ct
      → Guarded (patch_config params ct)
  unfolding patch_config patch_general tell_general
  patch_config-Guarded params (cfg, t) h =
      authenticate-Guarded params.authentication _ (patch_controller-Guarded params _ h)

  given-Guarded :
      (params : UpdateParams) (lines : List Text) (ct : Config m × Told m)
      → params.authentication ≡ some lines
      → Guarded (patch_config params ct)
  unfolding patch_config
  given-Guarded params lines (cfg, t) e =
      subst (λ x. Guarded (authenticate x ct')) (sym e) (apply_authentication-Guarded lines ct')
    where
      ct' : Config m × Told m
      ct' =
          patch_controller params
            (record cfg { general = patch_general params cfg.general }, tell_general params t)

  update_listeners-Guarded :
      (b : Bool) (cfg : Config m) (t : Told m)
      → Guarded (cfg, t)
      → Guarded (cfg, update_listeners b (some cfg) t)
  unfolding update_listeners
  update_listeners-Guarded false cfg t h = h
  update_listeners-Guarded true cfg t (u, inl e) = (u, inl e)
  update_listeners-Guarded true cfg t (u, inr (e, f)) = (u, inr (e, e))

  pub IsGuarded : State m → Type 0
  IsGuarded s = GuardedBy s.config s.told

  -- An update leaves a guarded state where the patched configuration is guarded.
  update_applied-Guarded :
      (params : UpdateParams) (cfg : Config m) (s : State m)
      → Guarded (patch_config params (cfg, s.told))
      → IsGuarded (update_applied params cfg s)
  unfolding IsGuarded GuardedBy update_applied
  update_applied-Guarded params cfg s h =
      let (cfg', t) = patch_config params (cfg, s.told) in
      update_listeners-Guarded s.is_running cfg' t h

  abbrev updated : UpdateParams → Option (Config m) → State m → State m
  updated params none s = s
  updated params (some cfg) s = update_applied params cfg s

  update_config-updated :
      (params : UpdateParams) (s : State m) → (update_config params s).1 ≡ updated params s.config s
  unfolding update_config
  update_config-updated params s = go s.config
    where
      go :
          (c : Option (Config m))
          → (elim c as (λ _. Option String × State m) [
            | none ↦ (some config_not_applied, s)
            | some cfg ↦ (none, update_applied params cfg s)
          ]).1
            ≡ updated params c s
      go none = refl
      go (some cfg) = refl

  update_config-IsGuarded :
      (params : UpdateParams) (s : State m) → IsGuarded s → IsGuarded (update_config params s).1
  unfolding IsGuarded GuardedBy
  update_config-IsGuarded params s h =
      subst IsGuarded (sym (update_config-updated params s)) (go s.config refl)
    where
      go : (c : Option (Config m)) → s.config ≡ c → IsGuarded (updated params c s)
      go none e = h
      go (some cfg) e =
          update_applied-Guarded params cfg s
            (patch_config-Guarded params (cfg, s.told) (subst (λ c. GuardedBy c s.told) e h))

  credentials-IsGuarded :
      (params : UpdateParams) (lines : List Text) (s : State m)
      → params.authentication ≡ some lines
      → IsGuarded (update_config params s).1
  unfolding IsGuarded GuardedBy
  credentials-IsGuarded params lines s a =
      subst IsGuarded (sym (update_config-updated params s)) (go s.config refl)
    where
      go : (c : Option (Config m)) → s.config ≡ c → IsGuarded (updated params c s)
      go none e = subst (λ c. GuardedBy c s.told) (sym e) tt
      go (some cfg) e =
          update_applied-Guarded params cfg s (given-Guarded params lines (cfg, s.told) a)

  start-IsGuarded :
      (c : Option (Config m)) (t : Told m) → GuardedBy c t → GuardedBy c (update_listeners true c t)
  unfolding GuardedBy update_listeners
  start-IsGuarded none t h = h
  start-IsGuarded (some cfg) t h = update_listeners-Guarded true cfg t h

  -- Only the users and the exempt prefixes matter.
  same-IsGuarded :
      (c : Option (Config m)) (t t' : Told m)
      → t'.users ≡ t.users
      → t'.skip_auth_prefixes ≡ t.skip_auth_prefixes
      → GuardedBy c t
      → GuardedBy c t'
  unfolding GuardedBy
  same-IsGuarded none t t' u p h = tt
  same-IsGuarded (some cfg) t t' u p (e, inl q) = (u ∙ e, inl q)
  same-IsGuarded (some cfg) t t' u p (e, inr (q, r)) = (u ∙ e, inr (q, p ∙ r))

  abbrev is_setup : {B : Type 0} → Event m B → Bool
  is_setup (setup loads params) = true
  is_setup _ = false

  abbrev pub IsNoSetup : {B : Type 0} → Event m B → Type 0
  IsNoSetup e = is_setup e ≡ false

  module _ {B : Type 0} where
    step-IsGuarded :
        (e : Event m B) (s : State m) → IsNoSetup e → IsGuarded s → IsGuarded (step e s)
    unfolding step handle_init_clash handle_start_listener handle_stop_listener handle_shutdown
        IsGuarded GuardedBy
    step-IsGuarded (init params) s n h = h
    step-IsGuarded (setup loads params) s n h = ground (arith, n)
    step-IsGuarded (update params) s n h = update_config-IsGuarded params s h
    step-IsGuarded start s n h =
        same-IsGuarded s.config (update_listeners true s.config s.told) _ refl refl
          (start-IsGuarded s.config s.told h)
    step-IsGuarded stop s n h = same-IsGuarded s.config s.told _ refl refl h
    step-IsGuarded shutdown s n h = tt

    run-IsGuarded :
        (events : List (Event m B)) (s : State m)
        → All IsNoSetup events
        → IsGuarded s
        → IsGuarded (run events s)
    unfolding run
    run-IsGuarded [] s a h = h
    run-IsGuarded (e ∷ es) s (n, a) h = run-IsGuarded es (step e s) a (step-IsGuarded e s n h)

    -- Once an update has given credentials, and until another configuration is set up, the users that mihomo is told to
    -- check are those of the configuration in force, and where there are any, no prefix is exempt from the check, neither in
    -- the configuration nor at mihomo: no later update, start, stop, init or shutdown, in any order, brings an exemption back.
    pub no_exemption_with_credentials :
        (params : UpdateParams) (lines : List Text) (s : State m)
        → params.authentication ≡ some lines
        → (events : List (Event m B)) → All IsNoSetup events
        → IsGuarded (run events (update_config params s).1)
    no_exemption_with_credentials params lines s e events a =
        run-IsGuarded events (update_config params s).1 a (credentials-IsGuarded params lines s e)
