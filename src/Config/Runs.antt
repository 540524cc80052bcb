-- ===== src/Config/Runs.antt =====
-- What holds of the running configuration over every order of the handlers.
use yu_clash.Prelude.{
  ◌≡◌, refl, sym, ap, ◌∙◌, Bool, true, false, Option, none, some, String, List, [], ◌∷◌,
  if◌then◌else◌, ◌⊎◌, inl, inr, arith,
}
use yu_clash.Text.{Text}
use yu_clash.Config.{Platform, Config, Listening, Told, State, UpdateParams}
use yu_clash.Config.Update.{
  listening_of, update_listeners, apply_authentication, authenticate, patch_controller,
  patch_general, tell_general, patch_config, update_applied, update_config,
}
use yu_clash.Config.Updater.{reconcile_geo_updater}
use yu_clash.Config.Life.{
  Loads, SetupParams, set_test_url, load_setup_config, apply_chosen, fall_back, apply_config,
  handle_setup_config, handle_init_clash, handle_start_listener, handle_stop_listener,
  handle_shutdown, Event, init, setup, update, start, stop, shutdown, step, run,
}

module _ {m : Platform} where
  -- The listeners that a state should have told mihomo of.
  pub expected : Bool → Option (Config m) → Option (Listening m)
  expected false c = none
  expected true none = none
  expected true (some cfg) = some (listening_of cfg)

  pub IsServing : State m → Type 0
  IsServing s = s.told.listening ≡ expected s.is_running s.config

  pub stopped-IsServing :
      (s : State m) → s.is_running ≡ false → s.told.listening ≡ none → IsServing s
  unfolding IsServing expected
  stopped-IsServing s r l = l ∙ ap (λ b. expected b s.config) (sym r)

  listening-update_listeners :
      (b : Bool) (c : Option (Config m)) (cfg : Config m) (t : Told m)
      → t.listening ≡ expected b c
      → (update_listeners b (some cfg) t).listening ≡ expected b (some cfg)
  unfolding update_listeners expected
  listening-update_listeners false c cfg t e = e
  listening-update_listeners true c cfg t e = refl

  listening-patch_controller :
      (params : UpdateParams) (cfg : Config m) (t : Told m)
      → (patch_controller params (cfg, t)).1.listening ≡ t.listening
  unfolding patch_controller
  listening-patch_controller params cfg t = ground arith

  listening-authenticate :
      (lines : Option (List Text)) (ct : Config m × Told m)
      → (authenticate lines ct).1.listening ≡ ct.1.listening
  unfolding apply_authentication
  listening-authenticate none ct = refl
  listening-authenticate (some lines) (cfg, t) = ground arith

  listening-patch_config :
      (params : UpdateParams) (cfg : Config m) (t : Told m)
      → (patch_config params (cfg, t)).1.listening ≡ t.listening
  unfolding patch_config tell_general
  listening-patch_config params cfg t =
      let cfg' = record cfg { general = patch_general params cfg.general } in
      listening-authenticate params.authentication
        (patch_controller params (cfg', tell_general params t))
      ∙ listening-patch_controller params cfg' (tell_general params t)

  update_applied-IsServing :
      (params : UpdateParams) (cfg : Config m) (s : State m)
      → s.config ≡ some cfg
      → IsServing s
      → IsServing (update_applied params cfg s)
  unfolding IsServing update_applied
  update_applied-IsServing params cfg s e h =
      let (cfg', t) = patch_config params (cfg, s.told) in
      listening-update_listeners s.is_running s.config cfg' t
        (listening-patch_config params cfg s.told ∙ h)

  update_config-IsServing :
      (params : UpdateParams) (s : State m) → IsServing s → IsServing (update_config params s).1
  unfolding update_config
  update_config-IsServing params s h = go s.config refl
    where
      go :
          (c : Option (Config m))
          → s.config ≡ c
          → IsServing
              (elim c as (λ _. Option String × State m) [
                | none ↦ (some "config is not applied", s)
                | some cfg ↦ (none, update_applied params cfg s)
              ]).1
      go none e = h
      go (some cfg) e = update_applied-IsServing params cfg s e h

  apply_chosen-IsServing :
      (selected : List (String × String)) (cfg : Config m) (s : State m)
      → IsServing s
      → IsServing (apply_chosen selected cfg s)
  unfolding IsServing apply_chosen reconcile_geo_updater
  apply_chosen-IsServing selected cfg s h =
      listening-update_listeners s.is_running s.config cfg (record s.told { applied = some cfg }) h

  unconfigured-IsServing :
      (s s' : State m)
      → s'.told ≡ s.told
      → s'.is_running ≡ s.is_running
      → s'.config ≡ s.config
      → IsServing s
      → IsServing s'
  unfolding IsServing
  unconfigured-IsServing s s' t r c h =
      ap (λ x. x.listening) t
      ∙ h
      ∙ ap (λ x. expected x s.config) (sym r)
      ∙ ap (λ x. expected s'.is_running x) (sym c)

  started-IsServing :
      (c : Option (Config m)) (s : State m)
      → s.config ≡ c
      → IsServing s
      → (update_listeners true c s.told).listening ≡ expected true c
  unfolding update_listeners expected IsServing
  started-IsServing none s e h = go s.is_running (h ∙ ap (expected s.is_running) e)
    where
      go : (b : Bool) → s.told.listening ≡ expected b none → s.told.listening ≡ none
      go true q = q
      go false q = q
  started-IsServing (some cfg) s e h = refl

  module _ {B : Type 0} where
    apply_config-IsServing :
        (loads : Loads m B) (params : SetupParams B) (s : State m)
        → IsServing s
        → IsServing (apply_config loads params s).1
    unfolding apply_config set_test_url
    apply_config-IsServing loads params s h =
        go (load_setup_config loads params.base) loads.fallback
      where
        s' : State m
        s' = record (set_test_url params.test_url s) { skip_cert_verify = params.skip_cert_verify }

        same : IsServing s'
        same = unconfigured-IsServing s s' refl refl refl h

        fell :
            (e : String) (f : Config m ⊎ String)
            → IsServing (fall_back params.selected_map e f s').1
        fell e (inl cfg) = apply_chosen-IsServing params.selected_map cfg s' same
        fell e (inr _) = same

        go :
            (c f : Config m ⊎ String)
            → IsServing
                (elim c as (λ _. Option String × State m) [
                  | inl cfg ↦ (none, apply_chosen params.selected_map cfg s')
                  | inr e ↦ fall_back params.selected_map e f s'
                ]).1
        go (inl cfg) f = apply_chosen-IsServing params.selected_map cfg s' same
        go (inr e) f = fell e f

    step-IsServing : (e : Event m B) (s : State m) → IsServing s → IsServing (step e s)
    unfolding step handle_init_clash handle_setup_config handle_start_listener handle_stop_listener
        handle_shutdown IsServing expected
    step-IsServing (init params) s h = h
    step-IsServing (setup loads params) s h = go s.is_init
      where
        go :
            (b : Bool)
            → IsServing (if b then apply_config loads params s else (some "not initialized", s)).1
        go true = apply_config-IsServing loads params s h
        go false = h
    step-IsServing (update params) s h = update_config-IsServing params s h
    step-IsServing start s h = started-IsServing s.config s refl h
    step-IsServing stop s h = refl
    step-IsServing shutdown s h = refl

    -- Over every order of inits, setups, updates, starts, stops and shutdowns, whatever the files and the parser
    -- give: while the core runs with a configuration, the listeners that it has told mihomo of are exactly those of the
    -- configuration in force, its updates included, and while it is stopped or has none, it has told of no listener since
    -- the last stop. The start is a state in which this holds, as the first does.
    pub listeners_follow_config :
        (events : List (Event m B)) (s : State m) → IsServing s → IsServing (run events s)
    unfolding run
    listeners_follow_config [] s h = h
    listeners_follow_config (e ∷ es) s h =
        listeners_follow_config es (step e s) (step-IsServing e s h)
