-- ===== src/Config/Life.antt =====
-- core/config.go, core/lifecycle.go: loading and applying a configuration, and the life of the core from its
-- init to its shutdown.
use yu_clash.Prelude.{
  suc, ◌-◌, ◌%◌, ◌^◌, Bool, true, false, not, ◌&&◌, Option, none, some, String, List, [], ◌∷◌, ◌++◌,
  ltb, str_eq, if◌then◌else◌, ◌⊎◌, inl, inr,
}
use yu_clash.Route.{reset}
use yu_clash.Config.{ℤ, pos, negsuc, Platform, Config, Told, State, UpdateParams}
use yu_clash.Config.Update.{update_listeners, update_config}
use yu_clash.Config.Updater.{reconcile_geo_updater}

-- `int32(n)`.
unfoldable pub to_int32 : ℤ → ℤ
to_int32 (pos n) = let r = n % 2 ^ 32 in if ltb r (2 ^ 31) then pos r else negsuc (2 ^ 32 - 1 - r)
to_int32 (negsuc n) =
    let r = n % 2 ^ 32 in if ltb r (2 ^ 31) then negsuc r else pos (2 ^ 32 - 1 - r)

-- `SetupParams`; a base is named by `B`.
pub record SetupParams (B : Type 0) : Type 0 where
  pub selected_map : List (String × String)
  pub test_url : String
  pub skip_cert_verify : Bool
  pub base : Option B

-- `InitParams`.
pub record InitParams : Type 0 where
  pub home_dir : String
  pub version : ℤ

-- What reading files and parsing gives: the running configuration, one that is merged with a base, and the
-- built-in default.
pub record Loads (m : Platform) (B : Type 0) : Type 0 where
  pub file : Config m ⊎ String
  pub with_base : B → Config m ⊎ String
  pub fallback : Config m ⊎ String

module _ {m : Platform} where
  -- `withPlatformLimits`.
  unfoldable pub with_platform_limits : Config m → Config m
  with_platform_limits cfg = record cfg {
    ntp_write_to_system = cfg.ntp_write_to_system && not m.is_android;
  }

  abbrev limited : Config m ⊎ String → Config m ⊎ String
  limited (inl cfg) = inl (with_platform_limits cfg)
  limited (inr e) = inr e

  -- `loadSetupConfig`, with the end of `loadConfig` and of `loadConfigWithBase`.
  unfoldable pub load_setup_config : {B : Type 0} → Loads m B → Option B → Config m ⊎ String
  unfolding with_platform_limits
  load_setup_config loads none = limited loads.file
  load_setup_config loads (some base) = limited (loads.with_base base)

  -- `setTestURL`.
  unfoldable pub set_test_url : String → State m → State m
  set_test_url url s = record s { test_url = if str_eq url "" then s.test_url else url }

  -- The part of `applyConfig` after a configuration is chosen.
  unfoldable pub apply_chosen : List (String × String) → Config m → State m → State m
  unfolding update_listeners reconcile_geo_updater
  apply_chosen selected cfg s =
      let t = update_listeners s.is_running (some cfg) (record s.told { applied = some cfg }) in
      record s {
        config = some cfg;
        selections = s.selections ++ selected ∷ [];
        route_changes = s.route_changes ++ reset ∷ [];
        told = record t { geo = reconcile_geo_updater t.geo };
      }

  abbrev pub fall_back :
      List (String × String) → String → Config m ⊎ String → State m → Option String × State m
  fall_back selected e (inl cfg) s = (some e, apply_chosen selected cfg s)
  fall_back selected e (inr _) s = (some e, s)

  -- `applyConfig`.
  unfoldable pub apply_config :
      {B : Type 0} → Loads m B → SetupParams B → State m → Option String × State m
  unfolding load_setup_config set_test_url apply_chosen
  apply_config loads params s =
      let s' = record (set_test_url params.test_url s) {
        skip_cert_verify = params.skip_cert_verify;
      } in
      elim (load_setup_config loads params.base) [
        | inl cfg ↦ (none, apply_chosen params.selected_map cfg s')
        | inr e ↦ fall_back params.selected_map e loads.fallback s'
      ]

  -- `handleSetupConfig`.
  unfoldable pub handle_setup_config :
      {B : Type 0} → Loads m B → SetupParams B → State m → Option String × State m
  unfolding apply_config
  handle_setup_config loads params s =
      if s.is_init then apply_config loads params s else (some "not initialized", s)

  -- `handleInitClash`.
  unfoldable pub handle_init_clash : InitParams → State m → State m
  unfolding to_int32
  handle_init_clash params s = record s {
    is_init = true;
    sdk_version = to_int32 params.version;
    home_dir = params.home_dir;
  }

  abbrev pub reset_connection : Told m → Told m
  reset_connection t = record t { connection_resets = suc t.connection_resets }

  abbrev pub stop_listener : Told m → Told m
  stop_listener t = record t { listening = none }

  -- `handleStartListener`.
  unfoldable pub handle_start_listener : State m → State m
  unfolding update_listeners
  handle_start_listener s = record s {
    is_running = true;
    told = reset_connection (update_listeners true s.config s.told);
    route_changes = s.route_changes ++ reset ∷ [];
  }

  -- `handleStopListener`.
  unfoldable pub handle_stop_listener : State m → State m
  handle_stop_listener s = record s {
    is_running = false;
    told = reset_connection (stop_listener s.told);
  }

  abbrev stop_geo_updater : Told m → Told m
  stop_geo_updater t = record t { geo = record t.geo { is_registered = false } }

  -- The critical section of `handleShutdown`.
  unfoldable pub handle_shutdown : State m → State m
  handle_shutdown s = record s {
    is_running = false;
    is_init = false;
    config = none;
    told = stop_geo_updater (stop_listener s.told);
  }

-- The handlers that hold `configMu`, in the order in which they run.
pub data Event (m : Platform) (B : Type 0) : Type 0 where
  init : InitParams → Event m B
  setup : Loads m B → SetupParams B → Event m B
  update : UpdateParams → Event m B
  start stop shutdown : Event m B

module _ {m : Platform} {B : Type 0} where
  unfoldable pub step : Event m B → State m → State m
  unfolding handle_init_clash handle_setup_config update_config handle_start_listener
      handle_stop_listener handle_shutdown
  step (init params) s = handle_init_clash params s
  step (setup loads params) s = (handle_setup_config loads params s).1
  step (update params) s = (update_config params s).1
  step start s = handle_start_listener s
  step stop s = handle_stop_listener s
  step shutdown s = handle_shutdown s

  unfoldable pub run : List (Event m B) → State m → State m
  unfolding step
  run [] s = s
  run (e ∷ es) s = run es (step e s)
