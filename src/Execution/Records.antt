-- ===== src/Execution/Records.antt =====
-- `LastLaunchOf` and the launch records kept by the manager (execution_manager.cpp).
use open_autosar.Base.{
  ◌≡◌, refl, ◌≢◌, inl, inr, String, List, [], ◌∷◌, Option, none, some, arith, eq_iff, subst,
  Option-cases, Result, from_value, find, find-put, text-cases,
}
use open_autosar.Process.{ProcessLauncher, LaunchRecord}
use open_autosar.Execution.{ProcessState, running, ProcessRecord, ProcessManifest, ExecutionManager}
use open_autosar.Execution.Manager.{
  new, declared_record, with_process, start_record, start_process, stop_record, stop_process,
  register_process, transition_function_group, state_of, last_launch_of,
}
use open_autosar.Execution.Laws.{with_process-missing, with_process-found}
use open_autosar.Execution.Calls.{Call, registers, starts, stops, transitions, step, run}

abbrev Launched : Option ProcessRecord → Type 0
Launched none = Unit {0}
Launched (some p) = p.state ≡ running → p.last_launch ≢ none

launched_record : (o : Option LaunchRecord) → o ≢ none → (r : LaunchRecord) × (o ≡ some r)
launched_record none h = absurd (h refl)
launched_record (some r) h = (r, refl)

module _ {L : Type 0} where
  abbrev Recorded : ExecutionManager L → Type 0
  Recorded m = (name : String) → Launched (find name m.processes)

  with_process-Recorded :
      (m : ExecutionManager L) (name : String)
      (f : L → ProcessRecord → L × ProcessRecord × Result ProcessState)
      → ((p : ProcessRecord) → Launched (some p) → Launched (some (f m.launcher p).1))
      → Recorded m
      → Recorded (with_process m name f).0
  with_process-Recorded m name f own v j = elim (Option-cases (find name m.processes)) [
    | inl e ↦ rw (with_process-missing m name f e) (v j)
    | inr (p, e) ↦
        rw (with_process-found m name f p e, find-put)
          (elim (text-cases name j) [
            | inl (same, _) ↦ rw same (own p (subst Launched e (v name)))
            | inr (differ, _) ↦ rw differ (v j)
          ])
  ]

  register_process-Recorded :
      (m : ExecutionManager L) (manifest : ProcessManifest)
      → Recorded m
      → Recorded (register_process m manifest).0
  unfolding register_process
  register_process-Recorded m manifest v j = ground (
    arith,
    v j,
    eq_iff manifest.name j,
    find-put manifest.name j (declared_record manifest) m.processes,
  )

  last_launch_of-running :
      (m : ExecutionManager L) (name : String)
      → Launched (find name m.processes)
      → state_of m name ≡ from_value running
      → (r : LaunchRecord) × (last_launch_of m name ≡ from_value r)
  unfolding state_of last_launch_of
  last_launch_of-running m name v h = elim (Option-cases (find name m.processes)) [
    | inl e ↦ absurd (ground arith)
    | inr (p, e) ↦ let (r, q) = launched_record p.last_launch (ground arith) in (r, ground arith)
  ]

module _ {L : Type 0} (launcher : ProcessLauncher L) where
  start_record-Launched :
      (l : L) (p : ProcessRecord)
      → Launched (some p)
      → Launched (some (start_record launcher l p).1)
  unfolding start_record
  start_record-Launched l p h = ground arith

  stop_record-Launched :
      (l : L) (p : ProcessRecord) → Launched (some p) → Launched (some (stop_record launcher l p).1)
  unfolding stop_record
  stop_record-Launched l p h = ground arith

  step-Recorded : (m : ExecutionManager L) (c : Call) → Recorded m → Recorded (step launcher m c)
  unfolding step start_process stop_process transition_function_group
  step-Recorded m (registers manifest) v = register_process-Recorded m manifest v
  step-Recorded m (starts name) v =
      with_process-Recorded m name (start_record launcher) (start_record-Launched m.launcher) v
  step-Recorded m (stops name) v =
      with_process-Recorded m name (stop_record launcher) (stop_record-Launched m.launcher) v
  step-Recorded m (transitions s) v = λ j. ground (arith, v j)

  run-Recorded :
      (m : ExecutionManager L) (cs : List Call) → Recorded m → Recorded (run launcher m cs)
  unfolding run
  run-Recorded m [] v = v
  run-Recorded m (c ∷ cs) v = run-Recorded (step launcher m c) cs (step-Recorded m c v)

  new-Recorded : (l : L) → Recorded (new l)
  unfolding new find
  new-Recorded l name = tt

  -- After every history of calls from a new manager, a process that `StateOf` reports as
  -- `Running` has a launch record that `LastLaunchOf` returns.
  pub running_launched :
      (l : L) (cs : List Call) (name : String)
      → state_of (run launcher (new l) cs) name ≡ from_value running
      → (r : LaunchRecord) × (last_launch_of (run launcher (new l) cs) name ≡ from_value r)
  running_launched l cs name h =
      last_launch_of-running (run launcher (new l) cs) name
        (run-Recorded (new l) cs (new-Recorded l) name) h
