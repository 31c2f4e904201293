-- ===== src/Manager/Main.antt =====
-- main of cmd/main.go: the manager is made, given its controllers, runnables and checks, and started;
-- the first error ends the process with status 1. What it calls of controller-runtime is a record.
use op_stack_operator.Prelude.{
  ℕ, String, Option, none, some, List, [], ◌∷◌, is_empty, if◌then◌else◌,
}
use op_stack_operator.Runtime.{Result, ok, err, Eff, pure, ◌>>=◌, or_return}
use op_stack_operator.Manager.Options.{Flags, ManagerOptions, manager_options}
use op_stack_operator.Manager.Controllers.{ControllerOptions, controllers}

pub record Library (W Config Manager Watcher : Type 0) : Type 0 where
  -- filepath.Join of two elements
  pub join : String → String → String
  -- certwatcher.New of a certificate and a key file
  pub new_watcher : String → String → Eff W (Result Watcher)
  -- ctrl.GetConfigOrDie, which ends the process itself where it fails
  pub get_config : Eff W (Result Config)
  pub new_manager : Config → ManagerOptions Watcher → Eff W (Result Manager)
  -- Complete of the builder
  pub complete : Manager → ControllerOptions → Eff W (Result (Unit {0}))
  pub add : Manager → Watcher → Eff W (Result (Unit {0}))
  -- AddHealthzCheck and AddReadyzCheck of healthz.Ping under that name
  pub add_healthz_check : Manager → String → Eff W (Result (Unit {0}))
  pub add_readyz_check : Manager → String → Eff W (Result (Unit {0}))
  pub start : Manager → Eff W (Result (Unit {0}))

-- `if err != nil { os.Exit(1) }`
abbrev pub or_exit : {W A : Type 0} → Result A → (A → Eff W ℕ) → Eff W ℕ
or_exit (ok a) k = k a
or_exit (err e) k = pure 1

module _ {W Config Manager Watcher : Type 0} (library : Library W Config Manager Watcher) where
  -- The watcher of the certificates in a directory, nil for "".
  unfoldable pub cert_watcher : String → String → String → Eff W (Result (Option Watcher))
  cert_watcher path name key = if is_empty path then pure (ok none) else do
    watcher ← library.new_watcher (library.join path name) (library.join path key)
    or_return watcher λ w. pure (ok (some w))

  module _ (manager : Manager) where
    -- SetupWithManager of each.
    unfoldable pub set_up : List ControllerOptions → Eff W (Result (Unit {0}))
    set_up [] = pure (ok tt)
    set_up (c ∷ cs) = do completed ← library.complete manager c; or_return completed λ _. set_up cs

    -- `if watcher != nil { mgr.Add(watcher) }`
    unfoldable pub add_watcher : Option Watcher → Eff W (Result (Unit {0}))
    add_watcher none = pure (ok tt)
    add_watcher (some watcher) = library.add manager watcher

    -- From the checks on.
    unfoldable pub serve : Eff W ℕ
    serve = do
      healthz ← library.add_healthz_check manager "healthz"
      or_exit healthz λ _. do
        readyz ← library.add_readyz_check manager "readyz"
        or_exit readyz λ _. do started ← library.start manager; or_exit started λ _. pure 0

    -- Behind NewManager.
    unfoldable pub run_manager : Option Watcher → Option Watcher → Eff W ℕ
    run_manager webhook_watcher metrics_watcher = do
      completed ← set_up controllers
      or_exit completed λ _. do
        metrics ← add_watcher metrics_watcher
        or_exit metrics λ _. do webhook ← add_watcher webhook_watcher; or_exit webhook λ _. serve

  -- The status that the process ends with, for the flags that were parsed.
  unfoldable pub main : Flags → Eff W ℕ
  main flags = do
    webhook ← cert_watcher flags.webhook_cert_path flags.webhook_cert_name flags.webhook_cert_key
    or_exit webhook λ webhook_watcher. do
      metrics ← cert_watcher flags.metrics_cert_path flags.metrics_cert_name flags.metrics_cert_key
      or_exit metrics λ metrics_watcher. do
        config ← library.get_config
        or_exit config λ c. do
          manager ← library.new_manager c (manager_options flags webhook_watcher metrics_watcher)
          or_exit manager λ m. run_manager m webhook_watcher metrics_watcher
