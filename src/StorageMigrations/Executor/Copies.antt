-- ===== src/StorageMigrations/Executor/Copies.antt =====
-- What the targets hold after a backfill and any rounds of catching up of
-- trpc_service/storage_migration.py.
use trpc_agent_service_douzh.Prelude.{
  ℕ, ◌+◌, ◌<◌, String, List, [], ◌∷◌, none, some, length, ◌≡◌, refl, arith, All,
}
use trpc_agent_service_douzh.Prelude.Action.{Result, ok, err}
use trpc_agent_service_douzh.Storage.Memory.{
  get, apply_deltas, deltas_since, snapshot_tenant, changes_since, apply_changes,
}
use trpc_agent_service_douzh.Storage.Memory.Dict.{get-apply-items}
use trpc_agent_service_douzh.Storage.Memory.Feed.{
  Write, write_all, IsSound, Follows, Follows-start, write_all-IsSound, write_all-Follows,
}
use trpc_agent_service_douzh.StorageMigrations.Executor.{
  ExecutorError, Pair, Watermarks, watermark_of, backfill_from, backfill, catch_up_from, catch_up,
}

-- The target holds exactly what the source holds of the tenant.
abbrev pub Mirrors : String → Pair → Type 0
Mirrors t pair = IsSound pair.source × ((k : String) → get t k pair.target ≡ get t k pair.source)

-- The target holds nothing of the tenant.
abbrev pub IsFresh : String → Pair → Type 0
IsFresh t pair = IsSound pair.source × ((k : String) → get t k pair.target ≡ none)

-- Each source takes its writes, those of the list that stands at its place.
abbrev pub write_sources : List (List Write) → List Pair → List Pair
write_sources writes [] = []
write_sources [] (pair ∷ pairs) = pair ∷ pairs
write_sources (ws ∷ writes) (pair ∷ pairs) =
    record pair { source = write_all ws pair.source } ∷ write_sources writes pairs

-- Rounds of writes and catching up, until one fails.
abbrev pub rounds :
    String
    → List (List (List Write))
    → Watermarks
    → List Pair
    → Result ExecutorError Watermarks × List Pair
rounds t [] watermarks pairs = (ok watermarks, pairs)
rounds t (writes ∷ more) watermarks pairs =
    let (r, pairs') = catch_up t watermarks (write_sources writes pairs) in
    elim r [ err error ↦ (err error, pairs') | ok watermarks' ↦ rounds t more watermarks' pairs' ]

-- The watermarks have those of the sources, from an index on.
abbrev Holds : ℕ → Watermarks → List Pair → Type 0
Holds i d [] = Unit
Holds i d (pair ∷ pairs) = (watermark_of i d ≡ some pair.source.watermark) × Holds (i + 1) d pairs

Holds-cons :
    (i j w : ℕ) (d : Watermarks) (pairs : List Pair)
    → j < i
    → Holds i d pairs
    → Holds i ((j, w) ∷ d) pairs
Holds-cons i j w d [] lt h = tt
Holds-cons i j w d (pair ∷ pairs) lt h =
    (ground (arith, h.0), Holds-cons (i + 1) j w d pairs (omega arith) h.1)

-- A state between two rounds.
record IsCopied (t : String) (i : ℕ) (d : Watermarks) (pairs : List Pair) : Type 0 where
  mirrors : All (Mirrors t) pairs
  holds : Holds i d pairs
  size : length d ≡ length pairs

backfill_from-IsCopied :
    (t : String) (i : ℕ) (pairs : List Pair)
    → All (IsFresh t) pairs
    → IsCopied t i (backfill_from t i pairs).0 (backfill_from t i pairs).1
unfolding backfill_from snapshot_tenant apply_changes get
backfill_from-IsCopied t i [] fresh = record { mirrors = tt; holds = tt; size = refl }
backfill_from-IsCopied t i (pair ∷ pairs) fresh =
    let rest = backfill_from-IsCopied t (i + 1) pairs fresh.1 in
    let (sound, empty) = fresh.0 in
    record {
      mirrors = (
        (
          sound,
          λ k.
              ground (
                arith,
                empty k,
                get-apply-items t k pair.source.objects pair.target.objects sound.0,
              ),
        ),
        rest.mirrors,
      );
      holds = (
        ground arith,
        Holds-cons (i + 1) i pair.source.watermark (backfill_from t (i + 1) pairs).0
            (backfill_from t (i + 1) pairs).1 (omega arith) rest.holds,
      );
      size = omega (arith, rest.size);
    }

-- Each target holds what its source held at the pair's watermark.
abbrev Lags : String → ℕ → Watermarks → List Pair → Type 0
Lags t i d [] = Unit
Lags t i d (pair ∷ pairs) =
    ((w : ℕ) × (watermark_of i d ≡ some w)
      × IsSound pair.source
      × Follows t w pair.target.objects pair.source)
    × Lags t (i + 1) d pairs

Mirrors-Lags :
    (t : String) (i : ℕ) (d : Watermarks) (pairs : List Pair)
    → All (Mirrors t) pairs
    → Holds i d pairs
    → Lags t i d pairs
unfolding get
Mirrors-Lags t i d [] m h = tt
Mirrors-Lags t i d (pair ∷ pairs) m h = (
  (pair.source.watermark, h.0, m.0.0, Follows-start t pair.target.objects pair.source m.0.0 m.0.1),
  Mirrors-Lags t (i + 1) d pairs m.1 h.1,
)

write_sources-Lags :
    (t : String) (i : ℕ) (d : Watermarks) (writes : List (List Write)) (pairs : List Pair)
    → All (Mirrors t) pairs
    → Holds i d pairs
    → Lags t i d (write_sources writes pairs)
unfolding get
write_sources-Lags t i d writes [] m h = tt
write_sources-Lags t i d [] (pair ∷ pairs) m h = Mirrors-Lags t i d (pair ∷ pairs) m h
write_sources-Lags t i d (ws ∷ writes) (pair ∷ pairs) m h = (
  (
    pair.source.watermark,
    h.0,
    write_all-IsSound ws pair.source m.0.0,
    write_all-Follows ws t pair.source.watermark pair.target.objects pair.source
        (Follows-start t pair.target.objects pair.source m.0.0 m.0.1),
  ),
  write_sources-Lags t (i + 1) d writes pairs m.1 h.1,
)

write_sources-length :
    (writes : List (List Write)) (pairs : List Pair)
    → length (write_sources writes pairs) ≡ length pairs
write_sources-length writes [] = refl
write_sources-length [] (pair ∷ pairs) = refl
write_sources-length (ws ∷ writes) (pair ∷ pairs) = omega (arith, write_sources-length writes pairs)

catch_up_from-IsCopied :
    (t : String) (i : ℕ) (d : Watermarks) (pairs : List Pair)
    → Lags t i d pairs
    → (d' : Watermarks) × (catch_up_from t d i pairs ≡ (ok d', (catch_up_from t d i pairs).1))
      × IsCopied t i d' (catch_up_from t d i pairs).1
      × (length (catch_up_from t d i pairs).1 ≡ length pairs)
unfolding catch_up_from changes_since apply_changes get
catch_up_from-IsCopied t i d [] lags =
    ([], refl, record { mirrors = tt; holds = tt; size = refl }, refl)
catch_up_from-IsCopied t i d (pair ∷ pairs) lags =
    let (w, found, sound, follows) = lags.0 in
    let (d', done, rest, size) = catch_up_from-IsCopied t (i + 1) d pairs lags.1 in
    let target = record pair.target {
      objects = apply_deltas t (deltas_since t w pair.source.changes) pair.target.objects;
    } in
    let pairs' : List Pair = (catch_up_from t d (i + 1) pairs).1 in
    let step : catch_up_from t d i (pair ∷ pairs)
        ≡ (ok ((i, pair.source.watermark) ∷ d'), record pair { target = target } ∷ pairs') =
      ground (arith, found, done) in
    (
      (i, pair.source.watermark) ∷ d',
      ground (arith, step),
      rw step (record {
        mirrors = ((sound, follows.0), rest.mirrors);
        holds = (
          ground arith,
          Holds-cons (i + 1) i pair.source.watermark d' pairs' (omega arith) rest.holds,
        );
        size = omega (arith, rest.size);
      }),
      rw step (omega (arith, size)),
    )

rounds-IsCopied :
    (t : String) (more : List (List (List Write))) (d : Watermarks) (pairs : List Pair)
    → IsCopied t 0 d pairs
    → (d' : Watermarks) × (rounds t more d pairs ≡ (ok d', (rounds t more d pairs).1))
      × All (Mirrors t) (rounds t more d pairs).1
unfolding catch_up
rounds-IsCopied t [] d pairs c = (d, refl, c.mirrors)
rounds-IsCopied t (writes ∷ more) d pairs c =
    let ps = write_sources writes pairs in
    let (d', done, copied, size) =
      catch_up_from-IsCopied t 0 d ps (write_sources-Lags t 0 d writes pairs c.mirrors c.holds) in
    let ps' : List Pair = (catch_up_from t d 0 ps).1 in
    let step : catch_up t d ps ≡ (ok d', ps') =
      ground (arith, done, c.size, write_sources-length writes pairs) in
    let (d'', ended, mirrors) = rounds-IsCopied t more d' ps' copied in
    (d'', ground (arith, step, ended), ground (arith, step, mirrors))

-- A backfill of one pair or more into targets that hold nothing of the tenant succeeds, and so does
-- every later round of catching up, whatever is written to the sources before it; after the backfill
-- and after each round every target holds exactly what its source holds of the tenant.
pub migration_copies :
    (t : String) (pair : Pair) (pairs : List Pair) (more : List (List (List Write)))
    → All (IsFresh t) (pair ∷ pairs)
    → (d d' : Watermarks) × ((backfill t (pair ∷ pairs)).0 ≡ ok d)
      × (rounds t more d (backfill t (pair ∷ pairs)).1
          ≡ (ok d', (rounds t more d (backfill t (pair ∷ pairs)).1).1))
      × All (Mirrors t) (rounds t more d (backfill t (pair ∷ pairs)).1).1
unfolding backfill
migration_copies t pair pairs more fresh =
    let copied = backfill_from-IsCopied t 0 (pair ∷ pairs) fresh in
    let d : Watermarks = (backfill_from t 0 (pair ∷ pairs)).0 in
    let (d', ended, mirrors) =
      rounds-IsCopied t more d (backfill_from t 0 (pair ∷ pairs)).1 copied in
    (d, d', refl, ended, mirrors)
