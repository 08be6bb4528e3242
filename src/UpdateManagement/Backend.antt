-- ===== src/UpdateManagement/Backend.antt =====
-- update_manager.cpp: `RaucBackendSimulator`, an implementation of `IUpdateBackend`.
use open_autosar.Base.{
  ℕ, ◌==◌, ltb, Bool, true, false, String, Option, none, some, if◌then◌else◌, Result, from_value,
  from_error, ErrorCode,
}
use open_autosar.UpdateManagement.{
  BackendOperation, operation_code, SoftwareClusterPackage, SlotStatus, UpdateBackend,
}

abbrev pub make_error : String → ErrorCode
make_error message = record { domain = "update-management"; message = message }

pub record RaucBackendSimulator : Type 0 where
  pub slots : SlotStatus
  pub previous_active_package : Option SoftwareClusterPackage
  pub fail_next_operation : Option BackendOperation

unfoldable pub new_simulator : ℕ → SoftwareClusterPackage → RaucBackendSimulator
new_simulator inactive_slot_free_bytes active_package = record {
  slots = record {
    active_slot = "A";
    inactive_slot = "B";
    pending_slot = none;
    installed_in_inactive_slot = none;
    active_package = some active_package;
    boot_attempts_remaining = 0;
    inactive_slot_free_bytes = inactive_slot_free_bytes;
  };
  previous_active_package = none;
  fail_next_operation = none;
}

unfoldable pub fail_next : RaucBackendSimulator → BackendOperation → RaucBackendSimulator
fail_next b operation = record b { fail_next_operation = some operation }

-- `fail_next_ == operation`.
abbrev pub fails : Option BackendOperation → BackendOperation → Bool
fails none o = false
fails (some f) o = operation_code f == operation_code o

unfoldable pub consume_failure :
    RaucBackendSimulator → BackendOperation → RaucBackendSimulator × Result Bool
consume_failure b operation =
    if fails b.fail_next_operation operation
    then (
      record b { fail_next_operation = none },
      from_error (make_error "simulated RAUC backend failure"),
    )
    else (b, from_value true)

unfoldable pub swap_slots : SlotStatus → SlotStatus
swap_slots s = record s { active_slot = s.inactive_slot; inactive_slot = s.active_slot }

unfoldable pub install_inactive :
    RaucBackendSimulator → SoftwareClusterPackage → RaucBackendSimulator × Result Bool
unfolding consume_failure
install_inactive b p =
    let failure = consume_failure b BackendOperation.install_inactive in
    let c = failure.0 in
    elim failure.1 [
      | from_error e ↦ (c, from_error e)
      | from_value _ ↦
          if ltb c.slots.inactive_slot_free_bytes p.required_free_bytes
          then (c, from_error (make_error "inactive slot does not have enough free space"))
          else elim c.slots.pending_slot [
            | some _ ↦ (c, from_error (make_error "inactive slot already has a pending update"))
            | none ↦ (
              record c { slots = record (c.slots) { installed_in_inactive_slot = some p } },
              from_value true,
            )
          ]
    ]

unfoldable pub activate_pending : RaucBackendSimulator → ℕ → RaucBackendSimulator × Result Bool
unfolding consume_failure swap_slots
activate_pending b boot_attempts =
    let failure = consume_failure b BackendOperation.activate_pending in
    let c = failure.0 in
    elim failure.1 [
      | from_error e ↦ (c, from_error e)
      | from_value _ ↦ elim c.slots.installed_in_inactive_slot [
        | none ↦ (c, from_error (make_error "no update is installed in inactive slot"))
        | some p ↦
            if boot_attempts == 0
            then (c, from_error (make_error "boot attempt budget is zero"))
            else let swapped = swap_slots c.slots in
              (
                record c {
                  previous_active_package = c.slots.active_package;
                  slots = record swapped {
                    active_package = some p;
                    pending_slot = some swapped.active_slot;
                    boot_attempts_remaining = boot_attempts;
                  };
                },
                from_value true,
              )
      ]
    ]

unfoldable pub commit : RaucBackendSimulator → RaucBackendSimulator × Result Bool
unfolding consume_failure
commit b =
    let failure = consume_failure b BackendOperation.commit in
    let c = failure.0 in
    elim failure.1 [
      | from_error e ↦ (c, from_error e)
      | from_value _ ↦ elim c.slots.pending_slot [
        | none ↦ (c, from_error (make_error "no pending slot can be committed"))
        | some _ ↦ (
          record c {
            slots = record (c.slots) {
              pending_slot = none;
              installed_in_inactive_slot = none;
              boot_attempts_remaining = 0;
            };
            previous_active_package = none;
          },
          from_value true,
        )
      ]
    ]

unfoldable pub rollback : RaucBackendSimulator → RaucBackendSimulator × Result Bool
unfolding consume_failure swap_slots
rollback b =
    let failure = consume_failure b BackendOperation.rollback in
    let c = failure.0 in
    elim failure.1 [
      | from_error e ↦ (c, from_error e)
      | from_value _ ↦ elim c.slots.pending_slot [
        | none ↦ (
          record c { slots = record (c.slots) { installed_in_inactive_slot = none } },
          from_value true,
        )
        | some _ ↦
            let swapped = swap_slots c.slots in
            (
              record c {
                slots = record swapped {
                  installed_in_inactive_slot = c.slots.active_package;
                  active_package = c.previous_active_package;
                  pending_slot = none;
                  boot_attempts_remaining = 0;
                };
                previous_active_package = none;
              },
              from_value true,
            )
      ]
    ]

abbrev pub rauc_simulator : UpdateBackend RaucBackendSimulator
rauc_simulator = record {
  status = λ b. from_value b.slots;
  install_inactive = install_inactive;
  activate_pending = activate_pending;
  commit = commit;
  rollback = rollback;
}
