-- ===== src/StorageMigrations/Evidence.antt =====
-- ValidationEvidence of trpc_service/storage_migration.py and what `StorageMigrationExecutor.validate`
-- makes of the adapters' answers. A recall is in units of 2 ^ -53, rounded down, in which the double
-- 0.95 is a whole number. SHA-256 over the joined digests is a parameter.
use trpc_agent_service_douzh.Prelude.{
  ℕ, ◌+◌, ◌≤◌, String, List, [], ◌∷◌, Bool, true, ◌&&◌, ◌==◌, min, max, str_eq, str_eq_iff,
  if◌then◌else◌, ◌≡◌, refl, arith, All, sym, ap,
}
use trpc_agent_service_douzh.Prelude.Action.{Result, ok, err}
use trpc_agent_service_douzh.StorageMigrations.Machine.{
  StorageMigrationError, adapters_unavailable, ValidationEvidence, is_valid, minimum_vector_recall,
}

-- `tenant_fingerprint` of both adapters of a pair, and `vector_recall_against`.
pub record PairAnswer : Type 0 where
  pub source_count : ℕ
  pub source_digest : String
  pub source_version : ℕ
  pub target_count : ℕ
  pub target_digest : String
  pub target_version : ℕ
  pub recall : ℕ

abbrev same_content : PairAnswer → Bool
same_content pair =
    (pair.source_count == pair.target_count) && str_eq pair.source_digest pair.target_digest

-- The target's version is the source's once the contents are equal.
abbrev adopted_version : PairAnswer → ℕ
adopted_version pair = if same_content pair then pair.source_version else pair.target_version

abbrev sum_of : (PairAnswer → ℕ) → List PairAnswer → ℕ
sum_of f [] = 0
sum_of f (pair ∷ pairs) = f pair + sum_of f pairs

-- `max` and `min` of a list that is not empty.
abbrev largest : (PairAnswer → ℕ) → PairAnswer → List PairAnswer → ℕ
largest f pair [] = f pair
largest f pair (next ∷ pairs) = max (f pair) (largest f next pairs)

abbrev smallest : (PairAnswer → ℕ) → PairAnswer → List PairAnswer → ℕ
smallest f pair [] = f pair
smallest f pair (next ∷ pairs) = min (f pair) (smallest f next pairs)

abbrev digests_of : (PairAnswer → String) → List PairAnswer → List String
digests_of f [] = []
digests_of f (pair ∷ pairs) = f pair ∷ digests_of f pairs

unfoldable pub validate :
    (List String → String) → List PairAnswer → Result StorageMigrationError ValidationEvidence
validate folded [] = err adapters_unavailable
validate folded (pair ∷ pairs) =
    let all = pair ∷ pairs in
    ok (record {
      source_count = sum_of (λ p. p.source_count) all;
      target_count = sum_of (λ p. p.target_count) all;
      source_digest = folded (digests_of (λ p. p.source_digest) all);
      target_digest = folded (digests_of (λ p. p.target_digest) all);
      source_version = largest (λ p. p.source_version) pair pairs;
      target_version = largest adopted_version pair pairs;
      vector_recall = smallest (λ p. p.recall) pair pairs;
    })

-- The target of a pair holds the source's content, and answers its vector queries.
abbrev pub IsCopy : PairAnswer → Type 0
IsCopy pair =
    (pair.source_count ≡ pair.target_count)
    × (pair.source_digest ≡ pair.target_digest)
    × (minimum_vector_recall ≤ pair.recall)

copies-sum :
    (pairs : List PairAnswer)
    → All IsCopy pairs
    → sum_of (λ p. p.source_count) pairs ≡ sum_of (λ p. p.target_count) pairs
copies-sum [] all = refl
copies-sum (pair ∷ pairs) all = omega (arith, all.0.0, copies-sum pairs all.1)

copies-digests :
    (pairs : List PairAnswer)
    → All IsCopy pairs
    → digests_of (λ p. p.source_digest) pairs ≡ digests_of (λ p. p.target_digest) pairs
copies-digests [] all = refl
copies-digests (pair ∷ pairs) all = cc (all.0.1, copies-digests pairs all.1)

adopted-copy : (pair : PairAnswer) → IsCopy pair → adopted_version pair ≡ pair.source_version
adopted-copy pair c = ground (arith, c.0, c.1, str_eq_iff pair.source_digest pair.target_digest)

copies-largest :
    (pair : PairAnswer) (pairs : List PairAnswer)
    → All IsCopy (pair ∷ pairs)
    → largest (λ p. p.source_version) pair pairs ≡ largest adopted_version pair pairs
copies-largest pair [] all = sym (adopted-copy pair all.0)
copies-largest pair (next ∷ pairs) all =
    cc (adopted-copy pair all.0, copies-largest next pairs all.1)

copies-smallest :
    (pair : PairAnswer) (pairs : List PairAnswer)
    → All IsCopy (pair ∷ pairs)
    → minimum_vector_recall ≤ smallest (λ p. p.recall) pair pairs
copies-smallest pair [] all = all.0.2
copies-smallest pair (next ∷ pairs) all = ground (arith, all.0.2, copies-smallest next pairs all.1)

-- When every pair of adapters has equal contents and enough recall, the validation collects evidence
-- that is valid, whatever the targets' own versions are.
validate-is_valid :
    (folded : List String → String) (pair : PairAnswer) (pairs : List PairAnswer)
    → All IsCopy (pair ∷ pairs)
    → (evidence : ValidationEvidence) × (validate folded (pair ∷ pairs) ≡ ok evidence)
      × (is_valid evidence ≡ true)
unfolding validate is_valid
validate-is_valid folded pair pairs all =
    let digests = ap folded (copies-digests (pair ∷ pairs) all) in
    (
      _,
      refl,
      ground (
        arith,
        copies-sum (pair ∷ pairs) all,
        digests,
        str_eq_iff (folded (digests_of (λ p. p.source_digest) (pair ∷ pairs)))
            (folded (digests_of (λ p. p.target_digest) (pair ∷ pairs))),
        copies-largest pair pairs all,
        copies-smallest pair pairs all,
      ),
    )
