-- ===== src/Access/Trust.antt =====
-- identity_access_manager.cpp: `TrustStore`. Its state is the list of signers.
use open_autosar.Base.{
  ℕ, leb, Bool, true, false, not, ◌&&◌, ◌||◌, String, is_empty, str_eq, List, [], ◌∷◌, Option, none,
  some, find_if, if◌then◌else◌, Result, from_value, from_error, ErrorCode,
}
use open_autosar.Access.{SignerTrust}

abbrev pub make_error : String → ErrorCode
make_error message = record { domain = "identity-access-management"; message = message }

abbrev pub is_signer : String → SignerTrust → Bool
is_signer signer_id item = str_eq item.signer_id signer_id

-- `find_if`, and the write of the entry or the `push_back`.
unfoldable pub store_signer : SignerTrust → List SignerTrust → List SignerTrust
store_signer trust [] = trust ∷ []
store_signer trust (s ∷ ss) =
    if is_signer trust.signer_id s then trust ∷ ss else s ∷ store_signer trust ss

unfoldable pub trust_signer : List SignerTrust → SignerTrust → List SignerTrust × Result Bool
trust_signer signers trust =
    if is_empty trust.signer_id || is_empty trust.key_slot
    then (signers, from_error (make_error "signer trust record is invalid"))
    else (store_signer trust signers, from_value true)

-- `iter->revoked = true`.
unfoldable pub revoke_first : String → List SignerTrust → List SignerTrust
revoke_first signer_id [] = []
revoke_first signer_id (s ∷ ss) =
    if is_signer signer_id s
    then record s { revoked = true } ∷ ss
    else s ∷ revoke_first signer_id ss

unfoldable pub revoke_signer : List SignerTrust → String → List SignerTrust × Result Bool
revoke_signer signers signer_id = elim (find_if (is_signer signer_id) signers) [
  | none ↦ (signers, from_error (make_error "signer is not trusted"))
  | some _ ↦ (revoke_first signer_id signers, from_value true)
]

unfoldable pub is_signer_trusted : List SignerTrust → String → ℕ → Bool
is_signer_trusted signers signer_id package_counter = elim (find_if (is_signer signer_id) signers) [
  | none ↦ false
  | some s ↦ not s.revoked && leb s.minimum_counter package_counter
]

unfoldable pub anti_rollback_counter : List SignerTrust → String → Option ℕ
anti_rollback_counter signers signer_id = elim (find_if (is_signer signer_id) signers) [
  | none ↦ none
  | some s ↦ some s.minimum_counter
]
