-- ===== src/Storage/Memory/Feed.antt =====
-- The change feed of trpc_service/storage.py: what a copy that replays it holds.
use trpc_agent_service_douzh.Prelude.{
  ℕ, ◌+◌, ◌≤◌, ◌<◌, String, List, [], ◌∷◌, ◌++◌, none, some, str_eq, str_eq_iff, str_eq_refl,
  if◌then◌else◌, ◌≡◌, refl, arith, inl, inr, Bool-cases, All, ◌∙◌,
}
use trpc_agent_service_douzh.Storage.Memory.{
  StoredObject, Change, Memory, is_of, get_object, set_object, put, deletions, erase_tenant, Delta,
  deltas_since, apply_deltas,
}
use trpc_agent_service_douzh.Storage.Memory.Dict.{
  get-set, get-without, IsDict, set-IsDict, without-IsDict, erasures, get-apply-erasures,
}

-- What callers write through an adapter.
pub data Write : Type 0 where
  put_write : (tenant key value : String) → Write
  erase_write : (tenant : String) → Write

abbrev pub write : Write → Memory → Memory
write (put_write tenant key value) m = put tenant key value m
write (erase_write tenant) m = (erase_tenant tenant m).1

abbrev pub write_all : List Write → Memory → Memory
write_all [] m = m
write_all (w ∷ ws) m = write_all ws (write w m)

-- A dict, and a feed whose sequence numbers the watermark bounds.
abbrev pub IsSound : Memory → Type 0
IsSound m = IsDict m.objects × All (λ (c : Change). c.sequence ≤ m.watermark) m.changes

Bounded-le :
    (n n' : ℕ) (cs : List Change)
    → n ≤ n'
    → All (λ (c : Change). c.sequence ≤ n) cs
    → All (λ (c : Change). c.sequence ≤ n') cs
Bounded-le n n' [] le h = tt
Bounded-le n n' (c ∷ cs) le h = (omega (arith, h.0), Bounded-le n n' cs le h.1)

Bounded-append :
    (n : ℕ) (cs ds : List Change)
    → All (λ (c : Change). c.sequence ≤ n) cs
    → All (λ (c : Change). c.sequence ≤ n) ds
    → All (λ (c : Change). c.sequence ≤ n) (cs ++ ds)
Bounded-append n [] ds h k = k
Bounded-append n (c ∷ cs) ds h k = (h.0, Bounded-append n cs ds h.1 k)

Bounded-deletions :
    (n : ℕ) (t : String) (os : List StoredObject)
    → All (λ (c : Change). c.sequence ≤ n) (deletions n t os)
unfolding deletions
Bounded-deletions n t [] = tt
Bounded-deletions n t (o ∷ os) = elim (Bool-cases (is_of t o)) [
  | inl mine ↦ rw mine (omega arith, Bounded-deletions n t os)
  | inr other ↦ rw other (Bounded-deletions n t os)
]

write-IsSound : (w : Write) (m : Memory) → IsSound m → IsSound (write w m)
unfolding put erase_tenant
write-IsSound (put_write t k v) m s = (
  set-IsDict t k v m.objects s.0,
  Bounded-append (m.watermark + 1) m.changes _
      (Bounded-le m.watermark (m.watermark + 1) m.changes (omega arith) s.1) (omega arith, tt),
)
write-IsSound (erase_write t) m s = (
  without-IsDict t m.objects s.0,
  Bounded-append (m.watermark + 1) m.changes (deletions (m.watermark + 1) t m.objects)
      (Bounded-le m.watermark (m.watermark + 1) m.changes (omega arith) s.1)
      (Bounded-deletions (m.watermark + 1) t m.objects),
)

deltas-append :
    (t : String) (w : ℕ) (cs ds : List Change)
    → deltas_since t w (cs ++ ds) ≡ deltas_since t w cs ++ deltas_since t w ds
unfolding deltas_since
deltas-append t w [] ds = refl
deltas-append t w (c ∷ cs) ds = ground (arith, deltas-append t w cs ds)

apply-append :
    (t : String) (xs ys : List Delta) (os : List StoredObject)
    → apply_deltas t (xs ++ ys) os ≡ apply_deltas t ys (apply_deltas t xs os)
unfolding apply_deltas
apply-append t [] ys os = refl
apply-append t ((key, none) ∷ xs) ys os = apply-append t xs ys _
apply-append t ((key, some v) ∷ xs) ys os = apply-append t xs ys _

deltas-deletions :
    (t t' : String) (w n : ℕ) (os : List StoredObject)
    → w < n
    → deltas_since t w (deletions n t' os) ≡ (if str_eq t' t then erasures t os else [])
unfolding deltas_since deletions
deltas-deletions t t' w n [] lt = ground arith
deltas-deletions t t' w n (o ∷ os) lt = ground (
  arith,
  deltas-deletions t t' w n os lt,
  str_eq_iff t' t,
  str_eq_iff o.tenant t',
  str_eq_iff o.tenant t,
)

deltas-none :
    (t : String) (w : ℕ) (cs : List Change)
    → All (λ (c : Change). c.sequence ≤ w) cs
    → deltas_since t w cs ≡ []
unfolding deltas_since
deltas-none t w [] h = refl
deltas-none t w (c ∷ cs) h = ground (arith, h.0, deltas-none t w cs h.1)

-- Objects that hold what the memory held at the watermark `w`: the feed from there on brings them to
-- what it holds now.
abbrev pub Follows : String → ℕ → List StoredObject → Memory → Type 0
Follows t w base m =
    ((k : String)
      → get_object t k (apply_deltas t (deltas_since t w m.changes) base)
        ≡ get_object t k m.objects)
    × (w ≤ m.watermark)

pub Follows-start :
    (t : String) (base : List StoredObject) (m : Memory)
    → IsSound m
    → ((k : String) → get_object t k base ≡ get_object t k m.objects)
    → Follows t m.watermark base m
unfolding apply_deltas
Follows-start t base m s same =
    let quiet = deltas-none t m.watermark m.changes s.1 in (λ k. rw quiet (same k), omega arith)

replay-put :
    (t t' k' v : String) (n sequence : ℕ) (base : List StoredObject) (cs : List Change)
    → n < sequence
    → apply_deltas t
        (deltas_since t n
          (cs ++ (record { sequence = sequence; tenant = t'; key = k'; value = some v } ∷ [])))
        base
      ≡ (let now = apply_deltas t (deltas_since t n cs) base in
          if str_eq t' t then set_object t k' v now else now)
unfolding deltas_since apply_deltas
replay-put t t' k' v n sequence base cs lt =
    let change : Change = record { sequence = sequence; tenant = t'; key = k'; value = some v } in
    let split = deltas-append t n cs (change ∷ []) in
    elim (Bool-cases (str_eq t' t)) [
      | inl mine ↦
          let last : deltas_since t n (change ∷ []) ≡ (k', some v) ∷ [] =
            ground (arith, mine, lt) in
          rw (split, last, mine) (apply-append t (deltas_since t n cs) ((k', some v) ∷ []) base)
      | inr other ↦
          let last : deltas_since t n (change ∷ []) ≡ [] = ground (arith, other) in
          rw (split, last, other) (apply-append t (deltas_since t n cs) [] base)
    ]

replay-erase :
    (t t' : String) (n sequence : ℕ) (base os : List StoredObject) (cs : List Change)
    → n < sequence
    → apply_deltas t (deltas_since t n (cs ++ deletions sequence t' os)) base ≡ (
        let now = apply_deltas t (deltas_since t n cs) base in
        if str_eq t' t then apply_deltas t (erasures t os) now else now)
unfolding apply_deltas
replay-erase t t' n sequence base os cs lt =
    let split = deltas-append t n cs (deletions sequence t' os) in
    let gone = deltas-deletions t t' n sequence os lt in
    elim (Bool-cases (str_eq t' t)) [
      | inl mine ↦
          let last : deltas_since t n (deletions sequence t' os) ≡ erasures t os =
            ground (arith, gone, mine) in
          rw (split, last, mine) (apply-append t (deltas_since t n cs) (erasures t os) base)
      | inr other ↦
          let last : deltas_since t n (deletions sequence t' os) ≡ [] =
            ground (arith, gone, other) in
          rw (split, last, other) (apply-append t (deltas_since t n cs) [] base)
    ]

write-Follows :
    (w : Write) (t : String) (n : ℕ) (base : List StoredObject) (m : Memory)
    → Follows t n base m
    → Follows t n base (write w m)
unfolding put erase_tenant
write-Follows (put_write t' k' v) t n base m (same, le) =
    let now = apply_deltas t (deltas_since t n m.changes) base in
    (
      λ k.
          let replayed = replay-put t t' k' v n (m.watermark + 1) base m.changes (omega arith) in
          ground (
            arith,
            replayed,
            same k,
            get-set t k t k' v now,
            get-set t k t' k' v m.objects,
            str_eq_iff t' t,
            str_eq_refl t,
          ),
      omega arith,
    )
write-Follows (erase_write t') t n base m (same, le) =
    let now = apply_deltas t (deltas_since t n m.changes) base in
    (
      λ k.
          let replayed =
            replay-erase t t' n (m.watermark + 1) base m.objects m.changes (omega arith) in
          let emptied = get-apply-erasures t k m.objects now (λ e. same k ∙ e) in
          ground (arith, replayed, same k, emptied, get-without t k t' m.objects),
      omega arith,
    )

pub write_all-IsSound : (ws : List Write) (m : Memory) → IsSound m → IsSound (write_all ws m)
write_all-IsSound [] m s = s
write_all-IsSound (w ∷ ws) m s = write_all-IsSound ws (write w m) (write-IsSound w m s)

pub write_all-Follows :
    (ws : List Write) (t : String) (n : ℕ) (base : List StoredObject) (m : Memory)
    → Follows t n base m
    → Follows t n base (write_all ws m)
write_all-Follows [] t n base m f = f
write_all-Follows (w ∷ ws) t n base m f =
    write_all-Follows ws t n base (write w m) (write-Follows w t n base m f)
