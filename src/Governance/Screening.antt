-- ===== src/Governance/Screening.antt =====
-- What `highest_classification` and `scan_messages` of trpc_service/governance.py find.
use trpc_agent_service_douzh.Prelude.{
  ◌≤◌, String, List, [], ◌∷◌, ◌++◌, Option, none, some, Bool, true, false, leb, if◌then◌else◌, ◌≡◌,
  refl, arith, All, inl, inr, Bool-cases, Option-cases,
}
use trpc_agent_service_douzh.Prelude.Json.{Fields}
use trpc_agent_service_douzh.Governance.Rules.{
  DataClassification, public, rank, highest_from, highest_classification, DetectionRule,
  secret_detection_rules, dlp_rules,
}
use trpc_agent_service_douzh.Governance.Outbound.{
  Text, ContentScanResult, blocked, secrets_in, raised_by, scan_from, scan_messages,
}

-- A candidate, where there is one, is at most `d`.
abbrev pub IsAtMost : DataClassification → Option DataClassification → Type 0
IsAtMost d none = Unit
IsAtMost d (some c) = rank c ≤ rank d

highest_from-rises :
    (h : DataClassification) (cs : List (Option DataClassification))
    → rank h ≤ rank (highest_from h cs)
unfolding highest_from
highest_from-rises h [] = omega arith
highest_from-rises h (none ∷ cs) = highest_from-rises h cs
highest_from-rises h (some c ∷ cs) =
    ground (arith, highest_from-rises (if leb (rank c) (rank h) then h else c) cs)

highest_from-bounds :
    (h : DataClassification) (cs : List (Option DataClassification))
    → All (IsAtMost (highest_from h cs)) cs
unfolding highest_from
highest_from-bounds h [] = tt
highest_from-bounds h (none ∷ cs) = (tt, highest_from-bounds h cs)
highest_from-bounds h (some c ∷ cs) =
    let next : DataClassification = if leb (rank c) (rank h) then h else c in
    (ground (arith, highest_from-rises next cs), highest_from-bounds next cs)

highest_from-least :
    (h d : DataClassification) (cs : List (Option DataClassification))
    → rank h ≤ rank d
    → All (IsAtMost d) cs
    → rank (highest_from h cs) ≤ rank d
unfolding highest_from
highest_from-least h d [] le all = le
highest_from-least h d (none ∷ cs) le all = highest_from-least h d cs le all.1
highest_from-least h d (some c ∷ cs) le all =
    highest_from-least (if leb (rank c) (rank h) then h else c) d cs (ground (arith, all.0)) all.1

-- The highest classification is the least upper bound of the candidates: at least each of them, and at
-- most whatever is at least each of them.
highest_classification_lem :
    (cs : List (Option DataClassification))
    → All (IsAtMost (highest_classification cs)) cs
      × ((d : DataClassification) → All (IsAtMost d) cs → rank (highest_classification cs) ≤ rank d)
unfolding highest_classification
highest_classification_lem cs =
    (highest_from-bounds public cs, λ d all. highest_from-least public d cs (omega arith) all)

pub highest-two :
    (c d : DataClassification)
    → (rank c ≤ rank (highest_classification (some c ∷ some d ∷ [])))
      × (rank d ≤ rank (highest_classification (some c ∷ some d ∷ [])))
highest-two c d =
    let bounds = (highest_classification_lem (some c ∷ some d ∷ [])).0 in (bounds.0, bounds.1.0)

module _ (text : Text) where
  -- A rule that finds something raises the classification at least to its own.
  abbrev pub Raises : DataClassification → String → DetectionRule → Type 0
  Raises d content rule = text.search rule.name content ≡ true → IsAtMost d rule.classification

  -- A rule that finds something blocks the request.
  abbrev pub Blocks : Bool → String → DetectionRule → Type 0
  Blocks b content rule = text.search rule.name content ≡ true → b ≡ true

  -- What the rules find in a message is in the result.
  abbrev pub Screens : ContentScanResult → Fields → Type 0
  Screens scan message =
      All (Raises scan.detected_classification (text.dumps message)) dlp_rules
      × All (Blocks (blocked scan) (text.dumps message)) secret_detection_rules

  raised_by-rises :
      (rules : List DetectionRule) (content : String) (d : DataClassification)
      → rank d ≤ rank (raised_by text rules content d)
  unfolding raised_by
  raised_by-rises [] content d = omega arith
  raised_by-rises (rule ∷ rules) content d = elim (Option-cases rule.classification) [
    | inl plain ↦ ground (arith, plain, raised_by-rises rules content d)
    | inr (c, e) ↦ ground (
      arith,
      e,
      (highest-two d c).0,
      raised_by-rises rules content d,
      raised_by-rises rules content (highest_classification (some d ∷ some c ∷ [])),
    )
  ]

  IsAtMost-le :
      (c d : DataClassification) (o : Option DataClassification)
      → rank c ≤ rank d
      → IsAtMost c o
      → IsAtMost d o
  IsAtMost-le c d none le h = tt
  IsAtMost-le c d (some x) le h = omega (arith, h)

  raised_by-Raises :
      (rules : List DetectionRule) (content : String) (d top : DataClassification)
      → rank (raised_by text rules content d) ≤ rank top
      → All (Raises top content) rules
  unfolding raised_by
  raised_by-Raises [] content d top le = tt
  raised_by-Raises (rule ∷ rules) content d top le = elim (Option-cases rule.classification) [
    | inl plain ↦
        (λ hit. rw plain tt, raised_by-Raises rules content d top (ground (arith, plain, le)))
    | inr (c, e) ↦
        let raised = highest_classification (some d ∷ some c ∷ []) in
        (
          λ hit.
              let high : rank c ≤ rank top =
                ground
                  (arith, e, hit, le, (highest-two d c).1, raised_by-rises rules content raised) in
              rw e high,
          elim (Bool-cases (text.search rule.name content)) [
            | inl hit ↦ raised_by-Raises rules content raised top (ground (arith, e, hit, le))
            | inr miss ↦ raised_by-Raises rules content d top (ground (arith, e, miss, le))
          ],
        )
  ]

  abbrev has_some : List String → Bool
  has_some [] = false
  has_some (_ ∷ _) = true

  Blocks-weaken :
      (b b' : Bool) (rules : List DetectionRule) (content : String)
      → (b ≡ true → b' ≡ true)
      → All (Blocks b content) rules
      → All (Blocks b' content) rules
  Blocks-weaken b b' [] content f all = tt
  Blocks-weaken b b' (rule ∷ rules) content f all =
      (λ e. f (all.0 e), Blocks-weaken b b' rules content f all.1)

  has_some-left : (xs ys : List String) → has_some xs ≡ true → has_some (xs ++ ys) ≡ true
  has_some-left [] ys h = ground (arith, h)
  has_some-left (x ∷ xs) ys h = refl

  has_some-right : (xs ys : List String) → has_some ys ≡ true → has_some (xs ++ ys) ≡ true
  has_some-right [] ys h = h
  has_some-right (x ∷ xs) ys h = refl

  secrets_in-Blocks :
      (rules : List DetectionRule) (content : String)
      → All (Blocks (has_some (secrets_in text rules content)) content) rules
  unfolding secrets_in
  secrets_in-Blocks [] content = tt
  secrets_in-Blocks (rule ∷ rules) content = (
    λ e. ground (arith, e),
    Blocks-weaken (has_some (secrets_in text rules content))
        (has_some (secrets_in text (rule ∷ rules) content)) rules content
        (λ found. ground (arith, found)) (secrets_in-Blocks rules content),
  )

  scan_from-rises :
      (messages : List Fields) (secrets : List String) (d : DataClassification)
      → rank d ≤ rank (scan_from text messages secrets d).detected_classification
  unfolding scan_from
  scan_from-rises [] secrets d = omega arith
  scan_from-rises (message ∷ messages) secrets d =
      let content = text.dumps message in
      omega (
        arith,
        raised_by-rises dlp_rules content d,
        scan_from-rises messages (secrets ++ secrets_in text secret_detection_rules content)
            (raised_by text dlp_rules content d),
      )

  scan_from-keeps :
      (messages : List Fields) (secrets : List String) (d : DataClassification)
      → has_some secrets ≡ true
      → blocked (scan_from text messages secrets d) ≡ true
  unfolding scan_from
  scan_from-keeps [] secrets d some_secret = ground (arith, some_secret)
  scan_from-keeps (message ∷ messages) secrets d some_secret =
      let content = text.dumps message in
      scan_from-keeps messages (secrets ++ secrets_in text secret_detection_rules content)
        (raised_by text dlp_rules content d)
        (has_some-left secrets (secrets_in text secret_detection_rules content) some_secret)

  scan_from-Screens :
      (messages : List Fields) (secrets : List String) (d : DataClassification)
      (scan : ContentScanResult)
      → rank (scan_from text messages secrets d).detected_classification
        ≤ rank scan.detected_classification
      → (blocked (scan_from text messages secrets d) ≡ true → blocked scan ≡ true)
      → All (Screens scan) messages
  unfolding scan_from
  scan_from-Screens [] secrets d scan le blocks = tt
  scan_from-Screens (message ∷ messages) secrets d scan le blocks =
      let content = text.dumps message in
      let next = secrets ++ secrets_in text secret_detection_rules content in
      let raised = raised_by text dlp_rules content d in
      let below : rank raised ≤ rank scan.detected_classification =
        omega (arith, le, scan_from-rises messages next raised) in
      (
        (
          raised_by-Raises dlp_rules content d scan.detected_classification below,
          Blocks-weaken (has_some (secrets_in text secret_detection_rules content)) (blocked scan)
              secret_detection_rules content
              (λ found. blocks (
                scan_from-keeps messages next raised
                  (has_some-right secrets (secrets_in text secret_detection_rules content) found)))
              (secrets_in-Blocks secret_detection_rules content),
        ),
        scan_from-Screens messages next raised scan le blocks,
      )

  -- Whatever a rule finds in any message is in the result of the scan: a rule with a classification
  -- raises the result at least to it, and a secret blocks the request.
  pub scan_messages_lem :
      (messages : List Fields) → All (Screens (scan_messages text messages)) messages
  unfolding scan_messages
  scan_messages_lem messages =
      scan_from-Screens messages [] public (scan_from text messages [] public) (omega arith)
        (λ e. e)
