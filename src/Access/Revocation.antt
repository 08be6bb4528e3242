-- ===== src/Access/Revocation.antt =====
-- A revoked signer stays revoked (identity_access_manager.cpp).
use open_autosar.Base.{
  ℕ, ◌≡◌, refl, Bool, true, false, not, String, str_eq, eq_iff, List, [], ◌∷◌, none, some, find_if,
  All, arith,
}
use open_autosar.Access.{SignerTrust}
use open_autosar.Access.Trust.{
  is_signer, store_signer, trust_signer, revoke_first, revoke_signer, is_signer_trusted,
}

pub data Call : Type 0 where
  trusts : SignerTrust → Call
  revokes : String → Call

unfoldable pub step : List SignerTrust → Call → List SignerTrust
step signers (trusts trust) = (trust_signer signers trust).0
step signers (revokes signer_id) = (revoke_signer signers signer_id).0

unfoldable pub run : List SignerTrust → List Call → List SignerTrust
run signers [] = signers
run signers (call ∷ calls) = run (step signers call) calls

-- The calls that do not trust the signer again.
abbrev pub spares : String → Call → Bool
spares signer_id (trusts trust) = not (str_eq trust.signer_id signer_id)
spares signer_id (revokes _) = true

-- A signer that is stored, if at all, as revoked.
abbrev not_live : String → List SignerTrust → Bool
not_live signer_id signers = elim (find_if (is_signer signer_id) signers) [
  | none ↦ true
  | some s ↦ s.revoked
]

store_signer-not_live :
    (signer_id : String) (trust : SignerTrust) (signers : List SignerTrust)
    → str_eq trust.signer_id signer_id ≡ false
    → not_live signer_id signers ≡ true
    → not_live signer_id (store_signer trust signers) ≡ true
unfolding store_signer
store_signer-not_live signer_id trust [] h l = ground (arith, h)
store_signer-not_live signer_id trust (s ∷ ss) h l = ground (
  arith,
  eq_iff s.signer_id trust.signer_id,
  eq_iff s.signer_id signer_id,
  eq_iff trust.signer_id signer_id,
  store_signer-not_live signer_id trust ss,
)

revoke_first-not_live :
    (signer_id other : String) (signers : List SignerTrust)
    → not_live signer_id signers ≡ true
    → not_live signer_id (revoke_first other signers) ≡ true
unfolding revoke_first
revoke_first-not_live signer_id other [] l = refl
revoke_first-not_live signer_id other (s ∷ ss) l =
    ground (arith, revoke_first-not_live signer_id other ss)

revoke_first_self :
    (signer_id : String) (signers : List SignerTrust)
    → not_live signer_id (revoke_first signer_id signers) ≡ true
unfolding revoke_first
revoke_first_self signer_id [] = refl
revoke_first_self signer_id (s ∷ ss) = ground (arith, revoke_first_self signer_id ss)

step-not_live :
    (signer_id : String) (signers : List SignerTrust) (call : Call)
    → spares signer_id call ≡ true
    → not_live signer_id signers ≡ true
    → not_live signer_id (step signers call) ≡ true
unfolding step trust_signer revoke_signer
step-not_live signer_id signers (trusts trust) h l =
    ground (arith, store_signer-not_live signer_id trust signers)
step-not_live signer_id signers (revokes other) h l =
    ground (arith, revoke_first-not_live signer_id other signers)

run-not_live :
    (signer_id : String) (signers : List SignerTrust) (calls : List Call)
    → All (λ call. spares signer_id call ≡ true) calls
    → not_live signer_id signers ≡ true
    → not_live signer_id (run signers calls) ≡ true
unfolding run
run-not_live signer_id signers [] a l = l
run-not_live signer_id signers (call ∷ calls) a l =
    run-not_live signer_id (step signers call) calls a.1
      (step-not_live signer_id signers call a.0 l)

revoke_signer-not_live :
    (signer_id : String) (signers : List SignerTrust)
    → not_live signer_id (revoke_signer signers signer_id).0 ≡ true
unfolding revoke_signer
revoke_signer-not_live signer_id signers = ground (arith, revoke_first_self signer_id signers)

not_live-untrusted :
    (signer_id : String) (signers : List SignerTrust) (counter : ℕ)
    → not_live signer_id signers ≡ true
    → is_signer_trusted signers signer_id counter ≡ false
unfolding is_signer_trusted
not_live-untrusted signer_id signers counter l = ground arith

-- Once a signer is revoked, no package of it is trusted, whatever the package's counter and
-- whatever is trusted and revoked afterwards, unless that signer itself is trusted again.
pub revoked_untrusted :
    (signers : List SignerTrust) (signer_id : String) (calls : List Call) (counter : ℕ)
    → All (λ call. spares signer_id call ≡ true) calls
    → is_signer_trusted (run (revoke_signer signers signer_id).0 calls) signer_id counter ≡ false
revoked_untrusted signers signer_id calls counter a =
    not_live-untrusted signer_id (run (revoke_signer signers signer_id).0 calls) counter (
      run-not_live signer_id (revoke_signer signers signer_id).0 calls a
        (revoke_signer-not_live signer_id signers))
