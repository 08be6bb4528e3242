-- ===== src/UpdateManagement/Versions.antt =====
-- The comparison of versions in `IsVersionUpgrade` (update_manager.cpp).
use open_autosar.Base.{
  ℕ, ◌≡◌, ◌≢◌, ltb, String, List, [], ◌∷◌, ◌++◌, some, arith, codes, codes_less, find,
}
use open_autosar.UpdateManagement.{SoftwareClusterPackage, UpdatePolicy}
use open_autosar.UpdateManagement.Policy.{is_version_upgrade}

-- The first character in which two texts differ decides their order.
codes_less-append :
    (pre xs ys : List ℕ) (c d : ℕ)
    → c ≢ d
    → codes_less (pre ++ (c ∷ xs)) (pre ++ (d ∷ ys)) ≡ ltb c d
codes_less-append [] xs ys c d n = ground arith
codes_less-append (p ∷ pre) xs ys c d n = ground (arith, codes_less-append pre xs ys c d n)

-- If a version and the installed one have a common beginning and differ in the character after it,
-- the version is an upgrade exactly if its character there is the greater one, whatever follows:
-- `10.0.0` is refused where `9.0.0` is installed, and `1.9` is taken where `1.10` is.
pub is_version_upgrade-first_difference :
    (policy : UpdatePolicy) (p : SoftwareClusterPackage) (installed : String) (c d : ℕ)
    (pre xs ys : List ℕ)
    → find p.cluster_name policy.installed_versions ≡ some installed
    → codes installed ≡ pre ++ (c ∷ xs)
    → codes p.version ≡ pre ++ (d ∷ ys)
    → c ≢ d
    → is_version_upgrade policy p ≡ ltb c d
unfolding is_version_upgrade
is_version_upgrade-first_difference policy p installed c d pre xs ys e f g n =
    rw (e, is_version_upgrade, f, g) (codes_less-append pre xs ys c d n)
