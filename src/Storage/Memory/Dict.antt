-- ===== src/Storage/Memory/Dict.antt =====
-- The dict of objects of trpc_service/storage.py: what a `get` sees after each of its changes.
use trpc_agent_service_douzh.Prelude.{
  ℕ, String, List, [], ◌∷◌, none, some, Bool, ◌&&◌, str_eq, str_eq_iff, str_eq_refl, if◌then◌else◌,
  ◌≡◌, refl, arith, inl, inr, Bool-cases, length, count_where,
}
use trpc_agent_service_douzh.Storage.Memory.{
  StoredObject, is_at, is_of, get_object, set_object, pop_object, without, deletions, Delta,
  items_of, apply_deltas,
}

abbrev pub same_place : String → String → String → String → Bool
same_place t' k' t k = str_eq t' t && str_eq k' k

pub get-set :
    (t k t' k' v : String) (os : List StoredObject)
    → get_object t k (set_object t' k' v os)
      ≡ (if same_place t' k' t k then some v else get_object t k os)
unfolding get_object set_object
get-set t k t' k' v [] = ground arith
get-set t k t' k' v (o ∷ os) = ground (
  arith,
  get-set t k t' k' v os,
  str_eq_iff t' t,
  str_eq_iff k' k,
  str_eq_iff o.tenant t,
  str_eq_iff o.key k,
  str_eq_iff o.tenant t',
  str_eq_iff o.key k',
)

pub get-pop :
    (t k t' k' : String) (os : List StoredObject)
    → get_object t k (pop_object t' k' os)
      ≡ (if same_place t' k' t k then none else get_object t k os)
unfolding get_object pop_object
get-pop t k t' k' [] = ground arith
get-pop t k t' k' (o ∷ os) = ground (
  arith,
  get-pop t k t' k' os,
  str_eq_iff t' t,
  str_eq_iff k' k,
  str_eq_iff o.tenant t,
  str_eq_iff o.key k,
  str_eq_iff o.tenant t',
  str_eq_iff o.key k',
)

pub get-without :
    (t k t' : String) (os : List StoredObject)
    → get_object t k (without t' os) ≡ (if str_eq t' t then none else get_object t k os)
unfolding get_object without
get-without t k t' [] = ground arith
get-without t k t' (o ∷ os) =
    ground
      (arith, get-without t k t' os, str_eq_iff t' t, str_eq_iff o.tenant t, str_eq_iff o.tenant t')

-- A dict has each key once.
abbrev pub IsDict : List StoredObject → Type 0
IsDict [] = Unit
IsDict (o ∷ os) = (get_object o.tenant o.key os ≡ none) × IsDict os

pub set-IsDict :
    (t k v : String) (os : List StoredObject) → IsDict os → IsDict (set_object t k v os)
unfolding set_object get_object
set-IsDict t k v [] d = (refl, tt)
set-IsDict t k v (o ∷ os) d = elim (Bool-cases (is_at t k o)) [
  | inl here ↦ rw here (d.0, d.1)
  | inr there ↦
      let fresh : get_object o.tenant o.key (set_object t k v os) ≡ none = ground (
        arith,
        there,
        d.0,
        get-set o.tenant o.key t k v os,
        str_eq_iff t o.tenant,
        str_eq_iff k o.key,
        str_eq_refl o.tenant,
        str_eq_refl o.key,
      ) in
      rw there (fresh, set-IsDict t k v os d.1)
]

pub pop-IsDict : (t k : String) (os : List StoredObject) → IsDict os → IsDict (pop_object t k os)
unfolding pop_object
pop-IsDict t k [] d = tt
pop-IsDict t k (o ∷ os) d = elim (Bool-cases (is_at t k o)) [
  | inl here ↦ rw here (pop-IsDict t k os d.1)
  | inr there ↦
      let fresh : get_object o.tenant o.key (pop_object t k os) ≡ none =
        ground (arith, d.0, get-pop o.tenant o.key t k os) in
      rw there (fresh, pop-IsDict t k os d.1)
]

pub without-IsDict : (t : String) (os : List StoredObject) → IsDict os → IsDict (without t os)
unfolding without
without-IsDict t [] d = tt
without-IsDict t (o ∷ os) d = elim (Bool-cases (is_of t o)) [
  | inl mine ↦ rw mine (without-IsDict t os d.1)
  | inr other ↦
      let fresh : get_object o.tenant o.key (without t os) ≡ none =
        ground (arith, d.0, get-without o.tenant o.key t os) in
      rw other (fresh, without-IsDict t os d.1)
]

-- A snapshot of a dict, applied to any other, gives every key of the tenant the dict's value, and
-- leaves what the dict does not have.
pub get-apply-items :
    (t k : String) (os ts : List StoredObject)
    → IsDict os
    → get_object t k (apply_deltas t (items_of t os) ts)
      ≡ elim (get_object t k os) [ some v ↦ some v | none ↦ get_object t k ts ]
unfolding get_object items_of apply_deltas
get-apply-items t k [] ts d = refl
get-apply-items t k (o ∷ os) ts d = elim (Bool-cases (is_of t o)) [
  | inr other ↦ ground (arith, other, get-apply-items t k os ts d.1)
  | inl mine ↦
      let rest = get-apply-items t k os (set_object t o.key o.value ts) d.1 in
      ground (
        arith,
        mine,
        rest,
        d.0,
        get-set t k t o.key o.value ts,
        str_eq_iff o.tenant t,
        str_eq_refl t,
        str_eq_iff o.key k,
      )
]

-- The deletions of all objects of a tenant leave none of it, in any dict that has no other of its
-- objects.
abbrev pub erasures : String → List StoredObject → List Delta
erasures t [] = []
erasures t (o ∷ os) = let rest = erasures t os in if is_of t o then (o.key, none) ∷ rest else rest

pub get-apply-erasures :
    (t k : String) (os ts : List StoredObject)
    → (get_object t k os ≡ none → get_object t k ts ≡ none)
    → get_object t k (apply_deltas t (erasures t os) ts) ≡ none
unfolding get_object apply_deltas
get-apply-erasures t k [] ts h = h refl
get-apply-erasures t k (o ∷ os) ts h = elim (Bool-cases (is_of t o)) [
  | inr other ↦
      let rest = get-apply-erasures t k os ts (λ e. ground (arith, other, h, e)) in
      ground (arith, other, rest)
  | inl mine ↦
      let rest = get-apply-erasures t k os (pop_object t o.key ts) (λ e.
        ground (arith, mine, h, e, get-pop t k t o.key ts, str_eq_iff o.key k, str_eq_refl t)) in
      ground (arith, mine, rest)
]

pub length-deletions :
    (n : ℕ) (t : String) (os : List StoredObject)
    → length (deletions n t os) ≡ count_where (is_of t) os
unfolding deletions
length-deletions n t [] = refl
length-deletions n t (o ∷ os) = ground (arith, length-deletions n t os)
