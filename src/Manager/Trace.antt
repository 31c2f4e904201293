-- ===== src/Manager/Trace.antt =====
-- In which order main of cmd/main.go makes its calls, and that it stops at the first that fails.
use op_stack_operator.Prelude.{
  ℕ, ◌≡◌, refl, String, Bool, Option, none, some, List, [], ◌∷◌, ◌++◌, is_empty, if◌then◌else◌,
  Bool-cases, inl, inr, map, ◌<>◌,
}
use op_stack_operator.Runtime.{Result, ok, err, other, Eff}
use op_stack_operator.Manager.Options.{Flags, ManagerOptions, manager_options}
use op_stack_operator.Manager.Controllers.{ControllerOptions, controllers}
use op_stack_operator.Manager.Main.{
  Library, or_exit, cert_watcher, set_up, add_watcher, serve, run_manager, main,
}

-- The files of a certificate and its key, which stand for their watcher.
abbrev pub Files : Type 0
Files = String × String

pub data Call : Type 0 where
  new_watcher : Files → Call
  get_config : Call
  new_manager : ManagerOptions Files → Call
  complete : ControllerOptions → Call
  add : Files → Call
  add_healthz_check add_readyz_check : String → Call
  start : Call

-- A library that writes down its calls, the last one first, and fails where it is told to.
abbrev pub recorded : {A : Type 0} → (Call → Bool) → Call → A → Eff (List Call) (Result A)
recorded fails call a log =
    (if fails call then err (record { reason = other; text = "" }) else ok a, call ∷ log)

abbrev pub recorder : (Call → Bool) → Library (List Call) (Unit {0}) (Unit {0}) Files
recorder fails = record {
  join = λ directory file. directory <> ("/" <> file);
  new_watcher = λ cert key. recorded fails (new_watcher (cert, key)) (cert, key);
  get_config = recorded fails get_config tt;
  new_manager = λ _ options. recorded fails (new_manager options) tt;
  complete = λ _ c. recorded fails (complete c) tt;
  add = λ _ files. recorded fails (add files) tt;
  add_healthz_check = λ _ name. recorded fails (add_healthz_check name) tt;
  add_readyz_check = λ _ name. recorded fails (add_readyz_check name) tt;
  start = λ _. recorded fails start tt;
}

-- Calls one after the other, up to the first that fails, which ends the process with status 1.
unfoldable pub run_calls : (Call → Bool) → List Call → List Call → ℕ × List Call
run_calls fails [] log = (0, log)
run_calls fails (call ∷ calls) log =
    let rest = run_calls fails calls (call ∷ log) in if fails call then (1, call ∷ log) else rest

abbrev pub files_in : String → String → String → Option Files
files_in path name key =
    if is_empty path then none else some (path <> ("/" <> name), path <> ("/" <> key))

abbrev pub calls_for : (Files → Call) → Option Files → List Call
calls_for call none = []
calls_for call (some files) = call files ∷ []

abbrev pub webhook_files : Flags → Option Files
webhook_files f = files_in f.webhook_cert_path f.webhook_cert_name f.webhook_cert_key

abbrev pub metrics_files : Flags → Option Files
metrics_files f = files_in f.metrics_cert_path f.metrics_cert_name f.metrics_cert_key

-- What main is to call, in this order.
abbrev pub planned_serving : List Call
planned_serving = add_healthz_check "healthz" ∷ add_readyz_check "readyz" ∷ start ∷ []

abbrev pub planned_run : Flags → List Call
planned_run f =
    map complete controllers
    ++ (calls_for add (metrics_files f) ++ (calls_for add (webhook_files f) ++ planned_serving))

abbrev pub planned_calls : Flags → List Call
planned_calls f =
    calls_for new_watcher (webhook_files f)
    ++ (calls_for new_watcher (metrics_files f)
        ++ (get_config
            ∷ new_manager (manager_options f (webhook_files f) (metrics_files f))
            ∷ planned_run f))

module _ (fails : Call → Bool) where
  -- One call, and what follows it.
  run_recorded :
      {A : Type 0} (call : Call) (a : A) (k : A → Eff (List Call) ℕ) (rest : List Call)
      (log : List Call)
      → k a (call ∷ log) ≡ run_calls fails rest (call ∷ log)
      → (let (r, log') = recorded fails call a log in or_exit r k log')
        ≡ run_calls fails (call ∷ rest) log
  unfolding run_calls
  run_recorded call a k rest log h = elim (Bool-cases (fails call)) [
    | inl f ↦ rw f refl
    | inr f ↦ rw f h
  ]

  run_serve :
      (log : List Call) → serve (recorder fails) tt log ≡ run_calls fails planned_serving log
  unfolding serve run_calls
  run_serve log =
      run_recorded (add_healthz_check "healthz") tt _ (add_readyz_check "readyz" ∷ start ∷ []) log (
        run_recorded (add_readyz_check "readyz") tt _ (start ∷ []) _
          (run_recorded start tt _ [] _ refl))

  -- `k` makes the calls that are left.
  abbrev Makes : Eff (List Call) ℕ → List Call → Type 0
  Makes k rest = (log : List Call) → k log ≡ run_calls fails rest log

  run_set_up :
      (cs : List ControllerOptions) (k : Unit {0} → Eff (List Call) ℕ) (rest : List Call)
      → Makes (k tt) rest
      → Makes
          (λ log. let (r, log') = set_up (recorder fails) tt cs log in or_exit r k log')
          (map complete cs ++ rest)
  unfolding set_up run_calls
  run_set_up [] k rest h log = h log
  run_set_up (c ∷ cs) k rest h log = elim (Bool-cases (fails (complete c))) [
    | inl f ↦ rw f refl
    | inr f ↦ rw f (run_set_up cs k rest h (complete c ∷ log))
  ]

  run_add_watcher :
      (files : Option Files) (k : Unit {0} → Eff (List Call) ℕ) (rest : List Call)
      → Makes (k tt) rest
      → Makes
          (λ log. let (r, log') = add_watcher (recorder fails) tt files log in or_exit r k log')
          (calls_for add files ++ rest)
  unfolding add_watcher
  run_add_watcher none k rest h log = h log
  run_add_watcher (some files) k rest h log = run_recorded (add files) tt k rest log (h _)

  run_cert_watcher :
      (path name key : String) (k : Option Files → Eff (List Call) ℕ) (rest : List Call)
      → Makes (k (files_in path name key)) rest
      → Makes
          (λ log.
            let (r, log') = cert_watcher (recorder fails) path name key log in or_exit r k log')
          (calls_for new_watcher (files_in path name key) ++ rest)
  unfolding cert_watcher run_calls
  run_cert_watcher path name key k rest h log = elim (Bool-cases (is_empty path)) [
    | inl e ↦ let h' = rw e at h in rw e (h' log)
    | inr e ↦
        let h' = rw e at h in
        elim (Bool-cases (fails (new_watcher (path <> ("/" <> name), path <> ("/" <> key))))) [
          | inl f ↦ rw (e, f) refl
          | inr f ↦ rw (e, f) (h' _)
        ]
  ]

  run_manager-Makes :
      (f : Flags)
      → Makes (run_manager (recorder fails) tt (webhook_files f) (metrics_files f)) (planned_run f)
  unfolding run_manager
  run_manager-Makes f =
      run_set_up controllers _ _
        (run_add_watcher (metrics_files f) _ _ (run_add_watcher (webhook_files f) _ _ run_serve))

  -- Whatever calls fail, main makes the planned calls in order, up to the first that fails: the
  -- watchers of the certificates that are given, the configuration, the manager with its options,
  -- the five controllers, the watchers as runnables, the two checks, and last of all Start. It ends
  -- with status 0 if none fails, and with 1 otherwise.
  pub main-calls :
      (flags : Flags) (log : List Call)
      → main (recorder fails) flags log ≡ run_calls fails (planned_calls flags) log
  unfolding main
  main-calls f = run_cert_watcher f.webhook_cert_path f.webhook_cert_name f.webhook_cert_key _ _ (
      run_cert_watcher f.metrics_cert_path f.metrics_cert_name f.metrics_cert_key _ _ (λ log.
        run_recorded get_config tt _ _ log
          (run_recorded (new_manager _) tt _ _ _ (run_manager-Makes f _))))
