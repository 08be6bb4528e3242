-- ===== src/Execution/Budget.antt =====
-- The restart budget of `StartProcess` and the launch records (execution_manager.cpp), over
-- histories of calls.
use open_autosar.Base.{
  ℕ, suc, ◌+◌, ◌≤◌, ◌<◌, ◌≡◌, refl, sym, ap, ◌∙◌, text-cases, ◌≢◌, inl, inr, String, List, [], ◌∷◌,
  Option, none, some, arith, eq_iff, subst, str_eq, Option-cases, if◌then◌else◌, Result, find,
  find-put, u32_mod,
}
use open_autosar.Process.{ProcessLauncher}
use open_autosar.Execution.{ProcessState, ProcessRecord, ProcessManifest, ExecutionManager}
use open_autosar.Execution.Manager.{
  new, declared_record, with_process, start_record, start_process, stop_record, stop_process,
  register_process, transition_function_group,
}
use open_autosar.Execution.Calls.{Call, registers, starts, stops, transitions, step, run}
use open_autosar.Execution.Laws.{with_process-missing, with_process-found}

-- A launcher that also notes the names it is asked to launch, newest first.
unfoldable pub recording : {L : Type 0} → ProcessLauncher L → ProcessLauncher (L × List String)
recording launcher = record {
  launch = λ s spec. let r = launcher.launch s.0 spec in ((r.0, spec.process_name ∷ s.1), r.1);
  stop = λ s name. let r = launcher.stop s.0 name in ((r.0, s.1), r.1);
  status = λ s name. launcher.status s.0 name;
}

unfoldable pub launches : String → List String → ℕ
launches name [] = 0
launches name (x ∷ xs) = if str_eq x name then suc (launches name xs) else launches name xs

-- A stored record is under its manifest's name, and its counter is the number of launches.
abbrev Counted : String → ℕ → ProcessRecord → Type 0
Counted name n p =
    (p.manifest.name ≡ name)
    × (p.manifest.resource_policy.max_restarts + 1 < u32_mod
        → (p.restart_count ≡ n) × (n ≤ p.manifest.resource_policy.max_restarts + 1))

abbrev Fits : String → ℕ → Option ProcessRecord → Type 0
Fits name n none = n ≡ 0
Fits name n (some p) = Counted name n p

module _ {L : Type 0} (launcher : ProcessLauncher L) where
  abbrev Inv : ExecutionManager (L × List String) → Type 0
  Inv m = (name : String) → Fits name (launches name m.launcher.1) (find name m.processes)

  start_record-Counted :
      (s : L × List String) (p : ProcessRecord) (name : String)
      → Counted name (launches name s.1) p
      → Counted name
          (launches name (start_record (recording launcher) s p).0.1)
          (start_record (recording launcher) s p).1
  unfolding start_record recording launches
  start_record-Counted s p name h = ground (arith, eq_iff p.manifest.name name)

  start_record-others :
      (s : L × List String) (p : ProcessRecord) (name : String)
      → p.manifest.name ≢ name
      → launches name (start_record (recording launcher) s p).0.1 ≡ launches name s.1
  unfolding start_record recording launches
  start_record-others s p name h = ground (arith, eq_iff p.manifest.name name)

  stop_record-log :
      (s : L × List String) (p : ProcessRecord) → (stop_record (recording launcher) s p).0.1 ≡ s.1
  unfolding stop_record recording
  stop_record-log s p = ground arith

  stop_record-Counted :
      (s : L × List String) (p : ProcessRecord) (name : String) (n : ℕ)
      → Counted name n p
      → Counted name n (stop_record (recording launcher) s p).1
  unfolding stop_record
  stop_record-Counted s p name n h = ground arith

  -- An update of one record keeps the invariant, if it does so for that record and launches no
  -- process of another name.
  with_process-Inv :
      (m : ExecutionManager (L × List String)) (name : String)
      (f : (L × List String)
        → ProcessRecord
        → (L × List String) × ProcessRecord × Result ProcessState)
      → ((p : ProcessRecord)
          → Counted name (launches name m.launcher.1) p
          → Counted name (launches name (f m.launcher p).0.1) (f m.launcher p).1)
      → ((p : ProcessRecord) (j : String)
          → p.manifest.name ≡ name
          → name ≢ j
          → launches j (f m.launcher p).0.1 ≡ launches j m.launcher.1)
      → Inv m
      → Inv (with_process m name f).0
  with_process-Inv m name f own other v j = elim (Option-cases (find name m.processes)) [
    | inl e ↦ rw (with_process-missing m name f e) (v j)
    | inr (p, e) ↦
        let mine : Counted name (launches name m.launcher.1) p =
          subst (Fits name (launches name m.launcher.1)) e (v name) in
        rw (with_process-found m name f p e, find-put)
          (elim (text-cases name j) [
            | inl (same, q) ↦ rw same (
                subst (λ k. Counted k (launches k (f m.launcher p).0.1) (f m.launcher p).1) q
                  (own p mine))
            | inr (differ, q) ↦ rw (differ, other p j mine.0 q) (v j)
          ])
  ]

  register_process-Inv :
      (m : ExecutionManager (L × List String)) (manifest : ProcessManifest)
      → Inv m
      → Inv (register_process m manifest).0
  unfolding register_process
  register_process-Inv m manifest v j = ground (
    arith,
    v j,
    eq_iff manifest.name j,
    find-put manifest.name j (declared_record manifest) m.processes,
  )

  step-Inv :
      (m : ExecutionManager (L × List String)) (c : Call)
      → Inv m
      → Inv (step (recording launcher) m c)
  unfolding step start_process stop_process transition_function_group
  step-Inv m (registers manifest) v = register_process-Inv m manifest v
  step-Inv m (starts name) v =
      with_process-Inv m name (start_record (recording launcher))
        (λ p. start_record-Counted m.launcher p name)
        (λ p j e h. start_record-others m.launcher p j (λ q. h (sym e ∙ q))) v
  step-Inv m (stops name) v =
      with_process-Inv m name (stop_record (recording launcher))
        (λ p c.
          rw (stop_record-log m.launcher p)
            (stop_record-Counted m.launcher p name (launches name m.launcher.1) c))
        (λ p j e h. ap (launches j) (stop_record-log m.launcher p)) v
  step-Inv m (transitions s) v = λ j. ground (arith, v j)

  run-Inv :
      (m : ExecutionManager (L × List String)) (cs : List Call)
      → Inv m
      → Inv (run (recording launcher) m cs)
  unfolding run
  run-Inv m [] v = v
  run-Inv m (c ∷ cs) v = run-Inv (step (recording launcher) m c) cs (step-Inv m c v)

  new-Inv : (l : L) → Inv (new (l, []))
  unfolding new find launches
  new-Inv l name = refl

  -- Over every history of calls from a new manager, the launcher is asked to launch a process at
  -- most `max_restarts + 1` times, failed launches counted, for a `max_restarts` whose successor
  -- fits 32 bits.
  pub launches_bounded :
      (l : L) (cs : List Call) (name : String) (p : ProcessRecord)
      → (let m = run (recording launcher) (new (l, [])) cs in find name m.processes ≡ some p)
      → p.manifest.resource_policy.max_restarts + 1 < u32_mod
      → launches name (run (recording launcher) (new (l, [])) cs).launcher.1
        ≤ p.manifest.resource_policy.max_restarts + 1
  launches_bounded l cs name p e h =
      let m : ExecutionManager (L × List String) = run (recording launcher) (new (l, [])) cs in
      let fits : Counted name (launches name m.launcher.1) p =
        subst (Fits name (launches name m.launcher.1)) e (run-Inv _ cs (new-Inv l) name) in
      (fits.1 h).1
