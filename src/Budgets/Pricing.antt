-- ===== src/Budgets/Pricing.antt =====
-- The pure decisions of trpc_service/budgets.py. `math.ceil` of a quotient of floats is the exact
-- ceiling while the numerator stays below 10 ^ 15, and `used / limit >= 0.9` is 9 * limit ≤ 10 * used
-- while the limit stays below 5 * 10 ^ 14: the nearest quotients are then further apart than a double
-- rounds.
use trpc_agent_service_douzh.Prelude.{
  ℕ, zero, suc, ◌+◌, ◌*◌, ◌/◌, ◌≤◌, ◌<◌, List, [], ◌∷◌, Option, none, some, ◌≡◌, ◌↔◌, arith, leb,
  if◌then◌else◌,
}
use trpc_agent_service_douzh.Prelude.Int.{ℤ, pos, negsuc, pos_part, ltb_ℤ, leb_ℤ, ◌≤ℤ◌}
use trpc_agent_service_douzh.Budgets.Schema.{Decision, reject, warning_70, critical_90}

abbrev pub chars_per_token : ℕ
chars_per_token = 4

abbrev sum : List ℕ → ℕ
sum [] = 0
sum (x ∷ xs) = x + sum xs

-- `math.ceil(a / b)` for a positive `b`.
abbrev pub ceil_div : ℕ → ℕ → ℕ
ceil_div a zero = 0
ceil_div a (suc b) = (a + b) / suc b

-- The lengths of the messages' contents, and the output tokens.
unfoldable pub estimate_tokens : List ℕ → ℕ → ℕ × ℕ
estimate_tokens content_lengths max_output_tokens =
    (ceil_div (sum content_lengths) chars_per_token, max_output_tokens)

unfoldable pub estimate_cost_micros : ℕ → ℕ → ℕ → ℕ → ℕ
estimate_cost_micros input_tokens output_tokens input_micros_per_1k output_micros_per_1k =
    ceil_div (input_tokens * input_micros_per_1k) 1000
    + ceil_div (output_tokens * output_micros_per_1k) 1000

unfoldable pub evaluate_level : ℕ → ℤ → Option Decision
evaluate_level used_after_micros limit_micros =
    if ltb_ℤ limit_micros (pos used_after_micros)
    then some reject
    else if leb_ℤ limit_micros (pos 0)
    then none
    else if leb (9 * pos_part limit_micros) (10 * used_after_micros)
    then some critical_90
    else if leb (7 * pos_part limit_micros) (10 * used_after_micros)
    then some warning_70
    else none

-- A use within a positive limit is critical exactly from nine tenths on, a warning exactly from seven
-- tenths up to that, and else no alert; a use beyond the limit, and nothing else, is rejected.
evaluate_level_lem :
    (used : ℕ) (limit : ℤ)
    → ((evaluate_level used limit ≡ some reject) ↔ (¬ (pos used ≤ℤ limit)))
      × ((evaluate_level used limit ≡ some critical_90)
          ↔ ((pos used ≤ℤ limit) × (1 ≤ pos_part limit) × (9 * pos_part limit ≤ 10 * used)))
      × ((evaluate_level used limit ≡ some warning_70) ↔ (
          (pos used ≤ℤ limit)
          × (7 * pos_part limit ≤ 10 * used)
          × (10 * used < 9 * pos_part limit)))
unfolding evaluate_level
evaluate_level_lem used (pos limit) = (
  (λ e. ground arith, λ h. ground arith),
  (λ e. ground arith, λ h. ground arith),
  (λ e. ground arith, λ h. ground arith),
)
evaluate_level_lem used (negsuc n) = (
  (λ e. ground arith, λ h. ground arith),
  (λ e. ground arith, λ h. ground arith),
  (λ e. ground arith, λ h. ground arith),
)

-- A price of a whole number of micros is never underestimated, and by less than one micro for each of
-- the two terms overestimated.
estimate_cost_bounds :
    (input output input_price output_price : ℕ)
    → let cost = estimate_cost_micros input output input_price output_price in
      (input * input_price + output * output_price ≤ 1000 * cost)
      × (1000 * cost < input * input_price + output * output_price + 2000)
unfolding estimate_cost_micros
estimate_cost_bounds input output input_price output_price = omega arith
