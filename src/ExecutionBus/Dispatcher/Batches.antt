-- ===== src/ExecutionBus/Dispatcher/Batches.antt =====
-- The batch that a dispatch of trpc_service/execution_bus.py selects.
use trpc_agent_service_douzh.Prelude.{
  ℕ, zero, suc, min, List, [], ◌∷◌, some, Bool, true, false, not, ◌&&◌, length, find, select,
  count_where, All, ◌≡◌, ◌≢◌, refl, sym, arith, inl, inr, Bool-cases,
}
use trpc_agent_service_douzh.ExecutionBus.Dispatcher.{
  OutboxRecord, is_pending, has_id, is_before, insert_row, in_order, limit_to, next_batch,
}

-- The identifiers are different.
abbrev pub IsKeyed : List OutboxRecord → Type 0
IsKeyed [] = Unit
IsKeyed (row ∷ rows) = All (λ (x : OutboxRecord). x.id ≢ row.id) rows × IsKeyed rows

select-kept :
    (p : OutboxRecord → Bool) (row : OutboxRecord) (rows : List OutboxRecord)
    → p row ≡ true
    → select p (row ∷ rows) ≡ row ∷ select p rows
select-kept p row rows h = ground (arith, h)

select-dropped :
    (p : OutboxRecord → Bool) (row : OutboxRecord) (rows : List OutboxRecord)
    → p row ≡ false
    → select p (row ∷ rows) ≡ select p rows
select-dropped p row rows h = ground (arith, h)

module _ (P : OutboxRecord → Type 0) where
  All-insert_row :
      (row : OutboxRecord) (rows : List OutboxRecord)
      → P row
      → All P rows
      → All P (insert_row row rows)
  unfolding insert_row
  All-insert_row row [] p h = (p, tt)
  All-insert_row row (x ∷ xs) p h = elim (Bool-cases (is_before row x)) [
    | inl early ↦ rw early (p, h)
    | inr late ↦ rw late (h.0, All-insert_row row xs p h.1)
  ]

  All-in_order : (rows : List OutboxRecord) → All P rows → All P (in_order rows)
  unfolding in_order
  All-in_order [] h = tt
  All-in_order (row ∷ rows) h = All-insert_row row (in_order rows) h.0 (All-in_order rows h.1)

  All-limit_to : (n : ℕ) (rows : List OutboxRecord) → All P rows → All P (limit_to n rows)
  unfolding limit_to
  All-limit_to zero rows h = tt
  All-limit_to (suc n) [] h = tt
  All-limit_to (suc n) (row ∷ rows) h = (h.0, All-limit_to n rows h.1)

  All-select :
      (p : OutboxRecord → Bool) (rows : List OutboxRecord)
      → All (λ (row : OutboxRecord). p row ≡ true → P row) rows
      → All P (select p rows)
  All-select p [] h = tt
  All-select p (row ∷ rows) h = elim (Bool-cases (p row)) [
    | inl kept ↦ rw (select-kept p row rows kept) (h.0 kept, All-select p rows h.1)
    | inr dropped ↦ rw (select-dropped p row rows dropped) (All-select p rows h.1)
  ]

insert_row-IsKeyed :
    (row : OutboxRecord) (rows : List OutboxRecord)
    → All (λ (x : OutboxRecord). x.id ≢ row.id) rows
    → IsKeyed rows
    → IsKeyed (insert_row row rows)
unfolding insert_row
insert_row-IsKeyed row [] other k = (tt, tt)
insert_row-IsKeyed row (x ∷ xs) other k = elim (Bool-cases (is_before row x)) [
  | inl early ↦ rw early (other, k)
  | inr late ↦ rw late (
    All-insert_row (λ (y : OutboxRecord). y.id ≢ x.id) row xs (λ e. other.0 (sym e)) k.0,
    insert_row-IsKeyed row xs other.1 k.1,
  )
]

in_order-IsKeyed : (rows : List OutboxRecord) → IsKeyed rows → IsKeyed (in_order rows)
unfolding in_order
in_order-IsKeyed [] k = tt
in_order-IsKeyed (row ∷ rows) k =
    insert_row-IsKeyed row (in_order rows)
      (All-in_order (λ (x : OutboxRecord). x.id ≢ row.id) rows k.0) (in_order-IsKeyed rows k.1)

limit_to-IsKeyed : (n : ℕ) (rows : List OutboxRecord) → IsKeyed rows → IsKeyed (limit_to n rows)
unfolding limit_to
limit_to-IsKeyed zero rows k = tt
limit_to-IsKeyed (suc n) [] k = tt
limit_to-IsKeyed (suc n) (row ∷ rows) k =
    (All-limit_to (λ (x : OutboxRecord). x.id ≢ row.id) n rows k.0, limit_to-IsKeyed n rows k.1)

weaken :
    {P Q : OutboxRecord → Type 0} (rows : List OutboxRecord)
    → ((row : OutboxRecord) → P row → Q row)
    → All P rows
    → All Q rows
weaken [] f h = tt
weaken (row ∷ rows) f h = (f row h.0, weaken rows f h.1)

select-IsKeyed :
    (p : OutboxRecord → Bool) (rows : List OutboxRecord) → IsKeyed rows → IsKeyed (select p rows)
select-IsKeyed p [] k = tt
select-IsKeyed p (row ∷ rows) k =
    let rest = select-IsKeyed p rows k.1 in
    let other =
      All-select (λ (x : OutboxRecord). x.id ≢ row.id) p rows (weaken rows (λ x d. λ e. d) k.0) in
    elim (Bool-cases (p row)) [
      | inl kept ↦ rw (select-kept p row rows kept) (other, rest)
      | inr dropped ↦ rw (select-dropped p row rows dropped) rest
    ]

-- A row that waits in a table.
abbrev pub Waits : List OutboxRecord → OutboxRecord → Type 0
Waits table row = (find (has_id row.id) table ≡ some row) × (is_pending row ≡ true)

find-first :
    (x row : OutboxRecord) (rows : List OutboxRecord)
    → row.id ≢ x.id
    → find (has_id row.id) rows ≡ some row
    → find (has_id row.id) (x ∷ rows) ≡ some row
find-first x row rows other h = ground (arith, other, h)

find-All :
    (table : List OutboxRecord)
    → IsKeyed table
    → All (λ (row : OutboxRecord). find (has_id row.id) table ≡ some row) table
find-All [] k = tt
find-All (x ∷ rows) k = (ground arith, later rows k.0 (find-All rows k.1))
  where
    later :
        (all : List OutboxRecord)
        → All (λ (y : OutboxRecord). y.id ≢ x.id) all
        → All (λ (row : OutboxRecord). find (has_id row.id) rows ≡ some row) all
        → All (λ (row : OutboxRecord). find (has_id row.id) (x ∷ rows) ≡ some row) all
    later [] other h = tt
    later (y ∷ ys) other h = (find-first x y rows other.0 h.0, later ys other.1 h.1)

module _ (locked : OutboxRecord → Bool) (batch_size : ℕ) where
  pub next_batch-IsKeyed :
      (table : List OutboxRecord) → IsKeyed table → IsKeyed (next_batch locked batch_size table)
  unfolding next_batch
  next_batch-IsKeyed table k =
      let p = λ (row : OutboxRecord). is_pending row && not (locked row) in
      limit_to-IsKeyed batch_size (in_order (select p table))
        (in_order-IsKeyed (select p table) (select-IsKeyed p table k))

  pub next_batch-Waits :
      (table : List OutboxRecord)
      → IsKeyed table
      → All (Waits table) (next_batch locked batch_size table)
  unfolding next_batch
  next_batch-Waits table k =
      let p = λ (row : OutboxRecord). is_pending row && not (locked row) in
      All-limit_to (Waits table) batch_size (in_order (select p table)) (
        All-in_order (Waits table) (select p table) (
          All-select (Waits table) p table
            (weaken table (λ row found free. (found, ground (arith, free))) (find-All table k))))

insert_row-length :
    (row : OutboxRecord) (rows : List OutboxRecord)
    → length (insert_row row rows) ≡ suc (length rows)
unfolding insert_row
insert_row-length row [] = refl
insert_row-length row (x ∷ xs) = ground (arith, insert_row-length row xs)

in_order-length : (rows : List OutboxRecord) → length (in_order rows) ≡ length rows
unfolding in_order
in_order-length [] = refl
in_order-length (row ∷ rows) =
    ground (arith, insert_row-length row (in_order rows), in_order-length rows)

limit_to-length :
    (n : ℕ) (rows : List OutboxRecord) → length (limit_to n rows) ≡ min n (length rows)
unfolding limit_to
limit_to-length zero rows = omega arith
limit_to-length (suc n) [] = omega arith
limit_to-length (suc n) (row ∷ rows) = omega (arith, limit_to-length n rows)

select-length :
    (p : OutboxRecord → Bool) (rows : List OutboxRecord)
    → length (select p rows) ≡ count_where p rows
select-length p [] = refl
select-length p (row ∷ rows) = ground (arith, select-length p rows)

pub next_batch-length :
    (locked : OutboxRecord → Bool) (batch_size : ℕ) (table : List OutboxRecord)
    → length (next_batch locked batch_size table)
      ≡ min batch_size
          (count_where (λ (row : OutboxRecord). is_pending row && not (locked row)) table)
unfolding next_batch
next_batch-length locked batch_size table =
    let p = λ (row : OutboxRecord). is_pending row && not (locked row) in
    ground (
      arith,
      limit_to-length batch_size (in_order (select p table)),
      in_order-length (select p table),
      select-length p table,
    )
