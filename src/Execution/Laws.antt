-- ===== src/Execution/Laws.antt =====
-- Laws of the methods of `ExecutionManager` (execution_manager.cpp).
use open_autosar.Base.{
  ◌≡◌, refl, ◌≢◌, ◌⊎◌, inl, inr, true, String, none, some, arith, eq_iff, eq_refl, Option-cases,
  Result, from_value, from_error, ErrorCode, find, put, find-put,
}
use open_autosar.Process.{ProcessLauncher}
use open_autosar.Execution.{
  ProcessState, running, stopped, failed, ProcessRecord, ExecutionManager, FunctionGroupState,
  same_state,
}
use open_autosar.Execution.Manager.{
  with_process, start_record, start_process, stop_record, stop_process, state_of, make_error,
}

pub same_state-eq : (s t : FunctionGroupState) → same_state s t ≡ true → s ≡ t
same_state-eq s t e = ground arith

pub same_state_self : (s : FunctionGroupState) → same_state s s ≡ true
same_state_self s = ground arith

module _ {L : Type 0} where
  -- What `with_process` returns and stores, in both cases of the lookup.
  pub with_process-missing :
      (m : ExecutionManager L) (name : String)
      (f : L → ProcessRecord → L × ProcessRecord × Result ProcessState)
      → find name m.processes ≡ none
      → with_process m name f ≡ (m, from_error (make_error "process is not registered"))
  unfolding with_process
  with_process-missing m name f e = rw (e, with_process)

  pub with_process-found :
      (m : ExecutionManager L) (name : String)
      (f : L → ProcessRecord → L × ProcessRecord × Result ProcessState) (p : ProcessRecord)
      → find name m.processes ≡ some p
      → with_process m name f ≡ (
        record m {
          processes = put name (f m.launcher p).1 m.processes;
          launcher = (f m.launcher p).0;
        },
        (f m.launcher p).2,
      )
  unfolding with_process
  with_process-found m name f p e = rw (e, with_process)

  -- A method through `with_process` writes no other process and not the function group state.
  pub with_process-other :
      (m : ExecutionManager L) (name j : String)
      (f : L → ProcessRecord → L × ProcessRecord × Result ProcessState)
      → name ≢ j
      → (find j (with_process m name f).0.processes ≡ find j m.processes)
        × ((with_process m name f).0.function_group ≡ m.function_group)
  unfolding with_process
  with_process-other m name j f h = elim (Option-cases (find name m.processes)) [
    | inl e ↦ rw (e, with_process) (refl, refl)
    | inr (p, e) ↦
        rw (e, with_process)
          (ground (arith, find-put name j (f m.launcher p).1 m.processes, eq_iff name j), refl)
  ]

  -- The state that `StateOf` reports for the process itself afterwards.
  pub state_of-with_process :
      (m : ExecutionManager L) (name : String)
      (f : L → ProcessRecord → L × ProcessRecord × Result ProcessState) (p : ProcessRecord)
      → find name m.processes ≡ some p
      → state_of (with_process m name f).0 name ≡ from_value (f m.launcher p).1.state
  unfolding state_of
  state_of-with_process m name f p e =
      rw (with_process-found m name f p e, find-put, eq_refl, state_of)

module _ {L : Type 0} (launcher : ProcessLauncher L) where
  start_record-running :
      (l : L) (p : ProcessRecord)
      → (((start_record launcher l p).2 ≡ from_value running)
          × ((start_record launcher l p).1.state ≡ running))
        ⊎ ((e : ErrorCode) × ((start_record launcher l p).2 ≡ from_error e)
            × ((start_record launcher l p).1.state ≡ failed))
  unfolding start_record
  start_record-running l p = ground arith

  stop_record-stopped :
      (l : L) (p : ProcessRecord)
      → (((stop_record launcher l p).2 ≡ from_value stopped)
          × ((stop_record launcher l p).1.state ≡ stopped))
        ⊎ ((e : ErrorCode) × ((stop_record launcher l p).2 ≡ from_error e)
            × ((stop_record launcher l p).1.state ≡ failed))
  unfolding stop_record
  stop_record-stopped l p = ground arith

  -- On a registered process `StartProcess` either returns `Running` and `StateOf` then reports
  -- `Running`, or it returns an error and `StateOf` then reports `Failed`.
  pub start_process-running :
      (m : ExecutionManager L) (name : String) (p : ProcessRecord)
      → find name m.processes ≡ some p
      → (((start_process launcher m name).1 ≡ from_value running)
          × (state_of (start_process launcher m name).0 name ≡ from_value running))
        ⊎ ((e : ErrorCode) × ((start_process launcher m name).1 ≡ from_error e)
            × (state_of (start_process launcher m name).0 name ≡ from_value failed))
  unfolding start_process
  start_process-running m name p e = ground (
    arith,
    with_process-found m name (start_record launcher) p e,
    state_of-with_process m name (start_record launcher) p e,
    start_record-running m.launcher p,
  )

  -- On a registered process `StopProcess` either returns `Stopped` and `StateOf` then reports
  -- `Stopped`, or it returns an error and `StateOf` then reports `Failed`.
  pub stop_process-stopped :
      (m : ExecutionManager L) (name : String) (p : ProcessRecord)
      → find name m.processes ≡ some p
      → (((stop_process launcher m name).1 ≡ from_value stopped)
          × (state_of (stop_process launcher m name).0 name ≡ from_value stopped))
        ⊎ ((e : ErrorCode) × ((stop_process launcher m name).1 ≡ from_error e)
            × (state_of (stop_process launcher m name).0 name ≡ from_value failed))
  unfolding stop_process
  stop_process-stopped m name p e = ground (
    arith,
    with_process-found m name (stop_record launcher) p e,
    state_of-with_process m name (stop_record launcher) p e,
    stop_record-stopped m.launcher p,
  )
