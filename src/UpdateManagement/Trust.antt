-- ===== src/UpdateManagement/Trust.antt =====
-- Which packages reach the backend (update_manager.cpp).
use open_autosar.Base.{
  ◌≡◌, refl, subst, inl, inr, Bool, true, false, not, ◌&&◌, List, [], ◌∷◌, Option, none, some,
  arith, All, Result, from_value, from_error, Bool-cases,
}
use open_autosar.UpdateManagement.{
  transferred, verified, SlotStatus, SoftwareClusterPackage, UpdatePolicy, UpdateBackend,
  UpdateManager, same_transaction_state,
}
use open_autosar.UpdateManagement.Policy.{validate_package, is_trusted_signer}
use open_autosar.UpdateManagement.Manager.{
  new, transfer_package, verify_package, stage_package, activate, confirm_health, verify_pending,
  stage_pending, abort_and_rollback, after_validation, after_install, after_activation,
  after_commit, after_rollback, note_version,
}
use open_autosar.UpdateManagement.Calls.{
  Call, transfers, verifies, stages, activates, confirms, aborts, step, run,
}

-- A backend that also notes the packages it is asked to install, newest first.
unfoldable pub recording :
    {B : Type 0} → UpdateBackend B → UpdateBackend (B × List SoftwareClusterPackage)
recording api = record {
  status = λ b. api.status b.0;
  install_inactive = λ b p. let r = api.install_inactive b.0 p in ((r.0, p ∷ b.1), r.1);
  activate_pending = λ b n. let r = api.activate_pending b.0 n in ((r.0, b.1), r.1);
  commit = λ b. let r = api.commit b.0 in ((r.0, b.1), r.1);
  rollback = λ b. let r = api.rollback b.0 in ((r.0, b.1), r.1);
}

-- What the policy asks of a package's origin and contents.
pub record Trusted (policy : UpdatePolicy) (p : SoftwareClusterPackage) : Type 0 where
  pub signature : p.signature_verified ≡ true
  pub signer : is_trusted_signer policy p.signer_id ≡ true
  pub platform : p.compatible_platform ≡ true
  pub manifests : p.manifests_present ≡ true
  pub sbom : (policy.require_sbom && not p.sbom_present) ≡ false
  pub provenance : (policy.require_provenance && not p.provenance_present) ≡ false

validate_package-Trusted :
    (policy : UpdatePolicy) (status : Result SlotStatus) (p : SoftwareClusterPackage) (b : Bool)
    → validate_package policy status p ≡ from_value b
    → Trusted policy p
unfolding validate_package
validate_package-Trusted policy status p b h = ground arith

abbrev TrustedPackage : UpdatePolicy → Option SoftwareClusterPackage → Type 0
TrustedPackage policy none = Unit {0}
TrustedPackage policy (some p) = Trusted policy p

-- Only `installed_versions` changes.
pub record SamePolicy (p q : UpdatePolicy) : Type 0 where
  pub signers : p.trusted_signers ≡ q.trusted_signers
  pub sbom : p.require_sbom ≡ q.require_sbom
  pub provenance : p.require_provenance ≡ q.require_provenance

Trusted-SamePolicy :
    (p q : UpdatePolicy) (x : SoftwareClusterPackage) → SamePolicy p q → Trusted p x → Trusted q x
unfolding is_trusted_signer
Trusted-SamePolicy p q x s t = ground arith

module _ {B : Type 0} (api : UpdateBackend B) (policy : UpdatePolicy) where
  record Inv (m : UpdateManager (B × List SoftwareClusterPackage)) : Type 0 where
    same : SamePolicy m.policy policy
    installed : All (Trusted policy) m.backend.1
    pending : m.state ≡ verified → TrustedPackage policy m.pending_package

  after_validation-Inv :
      (m : UpdateManager (B × List SoftwareClusterPackage)) (r : Result Bool)
      → Inv m
      → ((b : Bool) → r ≡ from_value b → TrustedPackage policy m.pending_package)
      → Inv (after_validation m r).0
  unfolding after_validation
  after_validation-Inv m (from_error e) v h = ground arith
  after_validation-Inv m (from_value b) v h = record {
    same = v.same;
    installed = v.installed;
    pending = λ _. h b refl;
  }

  verify_pending-Inv :
      (m : UpdateManager (B × List SoftwareClusterPackage)) (o : Option SoftwareClusterPackage)
      → m.pending_package ≡ o
      → Inv m
      → Inv (verify_pending (recording api) m o).0
  unfolding verify_pending
  verify_pending-Inv m none e v = v
  verify_pending-Inv m (some p) e v = after_validation-Inv m _ v λ b f.
      rw e (Trusted-SamePolicy m.policy policy p v.same (validate_package-Trusted m.policy _ p b f))

  after_install-Inv :
      (m : UpdateManager (B × List SoftwareClusterPackage)) (r : Result Bool)
      → SamePolicy m.policy policy
      → All (Trusted policy) m.backend.1
      → Inv (after_install m r).0
  unfolding after_install
  after_install-Inv m (from_error e) s a = record {
    same = s;
    installed = a;
    pending = λ h. absurd (ground arith);
  }
  after_install-Inv m (from_value b) s a = record {
    same = s;
    installed = a;
    pending = λ h. absurd (ground arith);
  }

  stage_pending-Inv :
      (m : UpdateManager (B × List SoftwareClusterPackage)) (o : Option SoftwareClusterPackage)
      → m.pending_package ≡ o
      → m.state ≡ verified
      → Inv m
      → Inv (stage_pending (recording api) m o).0
  unfolding stage_pending recording
  stage_pending-Inv m none e h v = v
  stage_pending-Inv m (some p) e h v =
      after_install-Inv _ _ v.same (subst (TrustedPackage policy) e (v.pending h), v.installed)

  verify_package-Inv :
      (m : UpdateManager (B × List SoftwareClusterPackage))
      → Inv m
      → Inv (verify_package (recording api) m).0
  unfolding verify_package
  verify_package-Inv m v = elim (Bool-cases (same_transaction_state m.state transferred)) [
    | inl e ↦ rw (e, verify_package) (verify_pending-Inv m m.pending_package refl v)
    | inr e ↦ rw (e, verify_package) v
  ]

  stage_package-Inv :
      (m : UpdateManager (B × List SoftwareClusterPackage))
      → Inv m
      → Inv (stage_package (recording api) m).0
  unfolding stage_package
  stage_package-Inv m v = elim (Bool-cases (same_transaction_state m.state verified)) [
    | inl e ↦ rw (e, stage_package) (stage_pending-Inv m m.pending_package refl (ground arith) v)
    | inr e ↦ rw (e, stage_package) v
  ]

  step-Inv :
      (m : UpdateManager (B × List SoftwareClusterPackage)) (c : Call)
      → Inv m
      → Inv (step (recording api) m c)
  unfolding step transfer_package activate confirm_health abort_and_rollback after_activation
      after_commit after_rollback note_version recording
  step-Inv m (transfers p) v = ground arith
  step-Inv m (activates p) v = ground arith
  step-Inv m (confirms p) v = ground arith
  step-Inv m (aborts p) v = ground arith
  step-Inv m verifies v = verify_package-Inv m v
  step-Inv m stages v = stage_package-Inv m v

  run-Inv :
      (m : UpdateManager (B × List SoftwareClusterPackage)) (cs : List Call)
      → Inv m
      → Inv (run (recording api) m cs)
  unfolding run
  run-Inv m [] v = v
  run-Inv m (c ∷ cs) v = run-Inv (step (recording api) m c) cs (step-Inv m c v)

  -- Over every history of calls, with any backend, each package that the backend is asked to
  -- install has a verified signature of a signer that the initial policy trusts, a compatible
  -- platform and manifests, and an SBOM and a provenance where that policy requires them.
  pub installs-Trusted :
      (b : B) (cs : List Call)
      → All (Trusted policy) (run (recording api) (new (b, []) policy) cs).backend.1
  unfolding new
  installs-Trusted b cs =
      let v : Inv (new (b, []) policy) = record {
        same = record { signers = refl; sbom = refl; provenance = refl };
        installed = tt;
        pending = λ h. absurd (ground arith);
      } in
      (run-Inv (new (b, []) policy) cs v).installed
