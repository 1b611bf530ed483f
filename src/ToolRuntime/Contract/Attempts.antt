-- ===== src/ToolRuntime/Contract/Attempts.antt =====
-- How often _execute_with_contract of trpc_service/tool/executor.py calls the backend.
use trpc_agent_service_douzh.Prelude.{
  ℕ, zero, suc, ◌+◌, ◌≤◌, ◌<◌, max, String, Option, none, some, Bool, true, false, not, ◌&&◌, ltb,
  if◌then◌else◌, ◌≡◌, refl, arith, inl, inr, Bool-cases,
}
use trpc_agent_service_douzh.Approvals.Store.{ToolSideEffect}
use trpc_agent_service_douzh.ToolRuntime.Contract.{
  ToolInvocationStatus, succeeded, BackendEnd, finished, timed_out, unavailable, Execution,
  write_outcome, error_of, may_retry, attempt_from, execute_with_contract,
}

-- An end after which the call may be tried again, and one with the result.
abbrev pub is_transient : BackendEnd → Bool
is_transient (finished outcome) = not outcome.is_ok && outcome.transient
is_transient timed_out = true
is_transient (unavailable uncertain) = true

abbrev pub is_success : BackendEnd → Bool
is_success (finished outcome) = outcome.is_ok
is_success _ = false

abbrev pub has_succeeded : ToolInvocationStatus → Bool
has_succeeded succeeded = true
has_succeeded _ = false

module _ (side_effect : ToolSideEffect) (backend : ℕ → BackendEnd) (can_retry : Bool) where
  -- From an attempt on.
  record Tried (left attempts : ℕ) (e : Execution) : Type 0 where
    some_call : attempts < e.attempts
    few : e.attempts ≤ attempts + left
    repeated : (k : ℕ) → attempts < k → k < e.attempts → is_transient (backend k) ≡ true
    verdict : has_succeeded e.status ≡ is_success (backend e.attempts)

  -- One attempt that ends the call.
  last-Tried :
      (left attempts : ℕ) (e : Execution)
      → e.attempts ≡ attempts + 1
      → has_succeeded e.status ≡ is_success (backend (attempts + 1))
      → Tried (suc left) attempts e
  last-Tried left attempts e size verdict = record {
    some_call = omega (arith, size);
    few = omega (arith, size);
    repeated = λ k low high. absurd (omega (arith, size, low, high));
    verdict = rw size verdict;
  }

  -- One that is tried again.
  again-Tried :
      (left attempts : ℕ) (e : Execution)
      → is_transient (backend (attempts + 1)) ≡ true
      → Tried left (attempts + 1) e
      → Tried (suc left) attempts e
  again-Tried left attempts e transient t = record {
    some_call = omega (arith, t.some_call);
    few = omega (arith, t.few);
    repeated = λ k low high. elim (Bool-cases (ltb (attempts + 1) k)) [
      | inl later ↦ t.repeated k (ground (arith, later)) high
      | inr now ↦ let own : k ≡ attempts + 1 = ground (arith, now, low) in rw own transient
    ];
    verdict = t.verdict;
  }

  -- By how the next call ends.
  step-Tried :
      (left attempts : ℕ) (last_error : Option String)
      → ((error : Option String)
          → (can_retry && ltb 0 left) ≡ true
          → Tried left
              (attempts + 1)
              (attempt_from side_effect backend can_retry left (attempts + 1) error))
      → (end : BackendEnd) → backend (attempts + 1) ≡ end
      → Tried
          (suc left)
          attempts
          (attempt_from side_effect backend can_retry (suc left) attempts last_error)
  unfolding attempt_from write_outcome
  step-Tried left attempts last_error later timed_out e =
      let run = attempt_from side_effect backend can_retry in
      elim (Bool-cases (can_retry && ltb 0 left)) [
        | inl again ↦
            let same : run (suc left) attempts last_error
                ≡ run left (attempts + 1) (some "TOOL_TIMEOUT") =
              ground (arith, e, again) in
            rw same
              (again-Tried left attempts _ (ground (arith, e)) (later (some "TOOL_TIMEOUT") again))
        | inr stop ↦ last-Tried left attempts _ (ground (arith, e, stop)) (ground (arith, e, stop))
      ]
  step-Tried left attempts last_error later (unavailable uncertain) e =
      let run = attempt_from side_effect backend can_retry in
      let error : Option String = some "TOOL_BACKEND_UNAVAILABLE" in
      elim (Bool-cases (can_retry && ltb 0 left)) [
        | inl again ↦
            let same : run (suc left) attempts last_error ≡ run left (attempts + 1) error =
              ground (arith, e, again) in
            rw same (again-Tried left attempts _ (ground (arith, e)) (later error again))
        | inr stop ↦ last-Tried left attempts _ (ground (arith, e, stop)) (ground (arith, e, stop))
      ]
  step-Tried left attempts last_error later (finished outcome) e =
      let run = attempt_from side_effect backend can_retry in
      let error : Option String = some (error_of outcome.error_code) in
      elim (Bool-cases (not outcome.is_ok && outcome.transient && (can_retry && ltb 0 left))) [
        | inl again ↦
            let same : run (suc left) attempts last_error ≡ run left (attempts + 1) error =
              ground (arith, e, again) in
            rw same (
              again-Tried left attempts _ (ground (arith, e, again))
                (later error (ground (arith, again))))
        | inr stop ↦ last-Tried left attempts _ (ground (arith, e, stop)) (ground (arith, e, stop))
      ]

  attempt_from-Tried :
      (left attempts : ℕ) (last_error : Option String)
      → Tried
          (suc left)
          attempts
          (attempt_from side_effect backend can_retry (suc left) attempts last_error)
  attempt_from-Tried zero attempts last_error =
      step-Tried zero attempts last_error (λ error again. absurd (ground (arith, again)))
        (backend (attempts + 1)) refl
  attempt_from-Tried (suc left) attempts last_error =
      step-Tried (suc left) attempts last_error
        (λ error again. attempt_from-Tried left (attempts + 1) error) (backend (attempts + 1)) refl

-- A tool call reaches its backend at least once; more than once only where it is read-only, or an
-- idempotent write with a key and support for one, and then not more often than the limit; never again
-- after a result that is final; and it has succeeded exactly when its last attempt has.
pub execute_with_contract_lem :
    (max_read_attempts : ℕ) (side_effect : ToolSideEffect) (supports : Bool) (key : Option String)
    (backend : ℕ → BackendEnd)
    → let e = execute_with_contract max_read_attempts side_effect supports key backend in
      (1 ≤ e.attempts)
      × (e.attempts ≤ (if may_retry side_effect supports key then max 1 max_read_attempts else 1))
      × ((k : ℕ) → 1 ≤ k → k < e.attempts → is_transient (backend k) ≡ true)
      × (has_succeeded e.status ≡ is_success (backend e.attempts))
unfolding execute_with_contract
execute_with_contract_lem max_read_attempts side_effect supports key backend =
    let can_retry = may_retry side_effect supports key in
    let limit = if can_retry then max 1 max_read_attempts else 1 in
    let (n, size) = positive limit (ground arith) in
    let t = attempt_from-Tried side_effect backend can_retry n 0 none in
    rw size (
      omega (arith, t.some_call),
      omega (arith, t.few),
      λ k low high. t.repeated k (omega (arith, low)) high,
      t.verdict,
    )
  where
    positive : (limit : ℕ) → 1 ≤ limit → (n : ℕ) × (limit ≡ suc n)
    positive zero h = absurd (omega (arith, h))
    positive (suc n) h = (n, refl)
