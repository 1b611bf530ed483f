-- ===== src/Storage/Redis/Refinement.antt =====
-- The cache of trpc_service/storage.py answers like its authority.
use trpc_agent_service_douzh.Prelude.{
  ◌+◌, ◌≤◌, ◌<◌, max, String, List, [], ◌∷◌, none, some, true, exists, count_where, length,
  str_eq_iff, str_eq_refl, ◌≡◌, refl, arith, inl, inr, Bool-cases, Option-cases, ap,
}
use trpc_agent_service_douzh.Prelude.Action.{ok}
use trpc_agent_service_douzh.Storage.Memory.{
  StoredObject, Memory, is_of, is_at, get_object, set_object, pop_object, get, put, deletions,
  erase_tenant, verify_tenant_erased,
}
use trpc_agent_service_douzh.Storage.Memory.Dict.{
  length-deletions, get-set, get-pop, get-without, IsDict, set-IsDict, without-IsDict,
}
use trpc_agent_service_douzh.Storage.Redis.{
  Redis, new_redis, put_through, get_through, erase_through, verify_through, Operation, put_call,
  get_call, erase_call, verify_call, clear_call, Answer, verified, perform_redis, perform_memory,
  answers_redis, answers_memory,
}

-- What is cached is what the authority has.
abbrev pub Within : List StoredObject → List StoredObject → Type 0
Within cache os = (t k v : String) → get_object t k cache ≡ some v → get_object t k os ≡ some v

abbrev pub IsCoherent : Redis → Type 0
IsCoherent r = IsDict r.cache × Within r.cache r.authority.objects

get-head :
    (o : StoredObject) (os : List StoredObject) → get_object o.tenant o.key (o ∷ os) ≡ some o.value
unfolding get_object
get-head o os = ground (arith, str_eq_refl o.tenant, str_eq_refl o.key)

-- The rest of a dict stays within the objects without the first key.
Within-tail :
    (o : StoredObject) (cache os : List StoredObject)
    → IsDict (o ∷ cache)
    → Within (o ∷ cache) os
    → Within cache (pop_object o.tenant o.key os)
unfolding get_object
Within-tail o cache os d w t k v h = elim (Bool-cases (is_at t k o)) [
  | inl here ↦ ground (arith, here, d.0, h, str_eq_iff o.tenant t, str_eq_iff o.key k)
  | inr there ↦ ground (arith, there, h, w t k v, get-pop t k o.tenant o.key os)
]

pop-count :
    (t t' k : String) (os : List StoredObject)
    → count_where (is_of t) (pop_object t' k os) ≤ count_where (is_of t) os
unfolding pop_object
pop-count t t' k [] = omega arith
pop-count t t' k (o ∷ os) = ground (arith, pop-count t t' k os)

count-pop :
    (t k v : String) (os : List StoredObject)
    → get_object t k os ≡ some v
    → count_where (is_of t) (pop_object t k os) < count_where (is_of t) os
unfolding get_object pop_object
count-pop t k v [] h = ground (arith, h)
count-pop t k v (o ∷ os) h = elim (Bool-cases (is_at t k o)) [
  | inl here ↦ ground (arith, here, pop-count t t k os)
  | inr there ↦ ground (arith, there, count-pop t k v os (ground (arith, there, h)))
]

-- A dict within another has at most as many objects of a tenant.
Within-count :
    (t : String) (cache os : List StoredObject)
    → IsDict cache
    → Within cache os
    → count_where (is_of t) cache ≤ count_where (is_of t) os
Within-count t [] os d w = omega arith
Within-count t (o ∷ cache) os d w =
    let less = pop_object o.tenant o.key os in
    let rest = Within-count t cache less d.1 (Within-tail o cache os d w) in
    elim (Bool-cases (is_of t o)) [
      | inr other ↦ ground (arith, other, rest, pop-count t o.tenant o.key os)
      | inl mine ↦
          let fewer =
            count-pop o.tenant o.key o.value os (w o.tenant o.key o.value (get-head o cache)) in
          ground (arith, mine, rest, fewer, str_eq_iff o.tenant t)
    ]

exists-count :
    (t : String) (os : List StoredObject)
    → exists (is_of t) os ≡ true
    → 1 ≤ count_where (is_of t) os
exists-count t [] h = ground (arith, h)
exists-count t (o ∷ os) h = ground (arith, h, exists-count t os)

count-exists :
    (t : String) (os : List StoredObject)
    → 1 ≤ count_where (is_of t) os
    → exists (is_of t) os ≡ true
count-exists t [] h = ground (arith, h)
count-exists t (o ∷ os) h = ground (arith, h, count-exists t os)

Within-set :
    (t k v : String) (cache os : List StoredObject)
    → Within cache os
    → Within (set_object t k v cache) (set_object t k v os)
Within-set t k v cache os w t' k' v' h =
    ground (arith, h, w t' k' v', get-set t' k' t k v cache, get-set t' k' t k v os)

-- A step of the cache is the authority's step, answers as it does, and keeps the cache coherent.
record IsStep (op : Operation) (r : Redis) : Type 0 where
  answer : (perform_redis op r).0 ≡ (perform_memory op r.authority).0
  authority : (perform_redis op r).1.authority ≡ (perform_memory op r.authority).1
  coherent : IsCoherent (perform_redis op r).1

-- The three ways of a read: a hit, a miss, and a miss that fills the cache.
data Read (t k : String) (r : Redis) : Type 0 where
  hit :
      (v : String) → get_object t k r.cache ≡ some v → get_through t k r ≡ (some v, r) → Read t k r
  miss : get_object t k r.authority.objects ≡ none → get_through t k r ≡ (none, r) → Read t k r
  fill :
      (v : String)
      → get_object t k r.authority.objects ≡ some v
      → get_through t k r ≡ (some v, record r { cache = set_object t k v r.cache })
      → Read t k r

get-Read : (t k : String) (r : Redis) → Read t k r
unfolding get_through get
get-Read t k r = elim (Option-cases (get_object t k r.cache)) [
  | inr (v, e) ↦ hit v e (ground (arith, e))
  | inl absent ↦ elim (Option-cases (get_object t k r.authority.objects)) [
    | inl nowhere ↦ miss nowhere (ground (arith, absent, nowhere))
    | inr (v, e) ↦ fill v e (ground (arith, absent, e))
  ]
]

Within-fill :
    (t k v : String) (cache os : List StoredObject)
    → get_object t k os ≡ some v
    → Within cache os
    → Within (set_object t k v cache) os
Within-fill t k v cache os e w t' k' v' h =
    ground (arith, h, e, w t' k' v', get-set t' k' t k v cache, str_eq_iff t t', str_eq_iff k k')

get-IsStep : (t k : String) (r : Redis) → IsCoherent r → IsStep (get_call t k) r
unfolding get
get-IsStep t k r c = elim (get-Read t k r) [
  | hit v e step ↦ record {
    answer = ground (arith, step, c.1 t k v e);
    authority = ground (arith, step);
    coherent = rw step c;
  }
  | miss e step ↦ record {
    answer = ground (arith, step, e);
    authority = ground (arith, step);
    coherent = rw step c;
  }
  | fill v e step ↦ record {
    answer = ground (arith, step, e);
    authority = ground (arith, step);
    coherent =
        rw step (set-IsDict t k v r.cache c.0, Within-fill t k v r.cache r.authority.objects e c.1);
  }
]

verify-same :
    (t : String) (r : Redis)
    → IsCoherent r
    → verify_through t r ≡ verify_tenant_erased t r.authority
unfolding verify_through verify_tenant_erased
verify-same t r c =
    let le = Within-count t r.cache r.authority.objects c.0 c.1 in
    elim (Bool-cases (exists (is_of t) r.cache)) [
      | inr empty ↦ ground (arith, empty)
      | inl some_cached ↦
          let more = exists-count t r.cache some_cached in
          let there = count-exists t r.authority.objects (omega (arith, le, more)) in
          ground (arith, some_cached, there)
    ]

erase-IsStep : (t : String) (r : Redis) → IsCoherent r → IsStep (erase_call t) r
unfolding erase_through erase_tenant
erase-IsStep t r c =
    let le = Within-count t r.cache r.authority.objects c.0 c.1 in
    let size = length-deletions (r.authority.watermark + 1) t r.authority.objects in
    let most : max (count_where (is_of t) r.cache)
          (length (deletions (r.authority.watermark + 1) t r.authority.objects))
        ≡ length (deletions (r.authority.watermark + 1) t r.authority.objects) =
      omega (arith, le, size) in
    record {
      answer = ap Answer.erased most;
      authority = refl;
      coherent = (
        without-IsDict t r.cache c.0,
        λ t' k' v' h. ground (
          arith,
          h,
          c.1 t' k' v',
          get-without t' k' t r.cache,
          get-without t' k' t r.authority.objects,
        ),
      );
    }

perform-IsStep : (op : Operation) (r : Redis) → IsCoherent r → IsStep op r
unfolding put_through put get_object
perform-IsStep (put_call t k v) r c = record {
  answer = refl;
  authority = refl;
  coherent = (set-IsDict t k v r.cache c.0, Within-set t k v r.cache r.authority.objects c.1);
}
perform-IsStep (get_call t k) r c = get-IsStep t k r c
perform-IsStep (erase_call t) r c = erase-IsStep t r c
perform-IsStep (verify_call t) r c = record {
  answer = ap verified (verify-same t r c);
  authority = refl;
  coherent = c;
}
perform-IsStep clear_call r c = record {
  answer = refl;
  authority = refl;
  coherent = (tt, λ t k v h. ground (arith, h));
}

coherent_answers :
    (ops : List Operation) (r : Redis)
    → IsCoherent r
    → answers_redis ops r ≡ answers_memory ops r.authority
coherent_answers [] r c = refl
coherent_answers (op ∷ ops) r c =
    let s = perform-IsStep op r c in
    let rest = coherent_answers ops (perform_redis op r).1 s.coherent in
    ground (arith, s.answer, s.authority, rest)

-- The cache refines its authority: from a cache that was just made, any puts, reads, erasures, checks
-- and clearings of the cache are answered as the authority alone would have answered them.
pub redis_refines :
    (authority : Memory) (r : Redis) (ops : List Operation)
    → new_redis true authority ≡ ok r
    → answers_redis ops r ≡ answers_memory ops authority
unfolding new_redis get_object
redis_refines authority r ops h =
    let fresh : r ≡ record { authority = authority; cache = [] } = ground (arith, h) in
    rw fresh (
      coherent_answers ops (record { authority = authority; cache = [] })
        (tt, λ t k v e. ground (arith, e)))
