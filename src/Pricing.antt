-- ===== src/Pricing.antt =====
-- src-tauri/src/pricing.rs: what tokens cost. A price is in thousandths of a dollar for a million
-- tokens, and a cost in 10^-9 dollars: so all of the source's decimals are whole, and a cost is exact,
-- where the source's is a floating-point number.
pub mod Known
use open_covibe_web.Common.{
  ℕ, ◌+◌, ◌*◌, ◌/◌, String, Bool, false, ◌||◌, Option, none, some, List, [], ◌∷◌, if◌then◌else◌,
  unwrap_or, contains,
}

pub record ModelPricing : Type 0 where
  pub input : ℕ
  pub output : ℕ
  pub cache_read : ℕ
  pub cache_write : ℕ

abbrev pub price : ℕ → ℕ → ℕ → ℕ → ModelPricing
price input output cache_read cache_write = record {
  input = input;
  output = output;
  cache_read = cache_read;
  cache_write = cache_write;
}

-- A tenth of the input for cached input, and five quarters for what is put into the cache.
abbrev pub claude_pricing : ℕ → ℕ → ModelPricing
claude_pricing input output = price input output (input / 10) (input * 5 / 4)

-- The tests of `try_get_pricing` in their order: the first that a name passes gives the price.
abbrev pub price_table : List (List String × ModelPricing)
price_table =
    (("opus-4-0" ∷ "opus-4-1" ∷ "opus-4.0" ∷ "opus-4.1" ∷ []), claude_pricing 15000 75000)
    ∷ (("opus" ∷ []), claude_pricing 5000 25000)
    ∷ (("haiku" ∷ []), claude_pricing 800 4000)
    ∷ (("sonnet" ∷ []), claude_pricing 3000 15000)
    ∷ (("gpt-4o" ∷ []), claude_pricing 2500 10000)
    ∷ (("gpt-4" ∷ []), claude_pricing 10000 30000)
    ∷ (("o1" ∷ "o3" ∷ []), claude_pricing 15000 60000)
    ∷ (("gpt-5-codex-mini" ∷ "gpt-5.1-codex-mini" ∷ []), price 250 2000 25 250)
    ∷ (("gpt-5-codex" ∷ "gpt-5.1-codex" ∷ []), price 1250 10000 125 1250)
    ∷ (("gpt-5.2-codex" ∷ []), price 1750 14000 175 1750)
    ∷ (("gpt-5.3-codex" ∷ "gpt-5.3-chat" ∷ []), price 1750 14000 175 1750)
    ∷ (("gpt-5.4-pro" ∷ []), price 30000 180000 3000 30000)
    ∷ (("gpt-5.4-nano" ∷ []), price 200 1250 20 200)
    ∷ (("gpt-5.4-mini" ∷ []), price 750 4500 75 750)
    ∷ (("gpt-5.4" ∷ []), price 2500 15000 250 2500)
    ∷ (("gpt-5.2" ∷ []), price 1750 14000 175 1750)
    ∷ (("gpt-5.1" ∷ []), price 1250 10000 125 1250)
    ∷ (("gpt-5" ∷ []), price 1250 10000 125 1250)
    ∷ (("deepseek" ∷ []), price 280 420 28 280)
    ∷ (("kimi-k2.5" ∷ "kimi-k25" ∷ []), price 600 3000 100 600)
    ∷ (("kimi" ∷ []), price 600 2500 150 600)
    ∷ (("glm-4.5-flash" ∷ "glm-4-5-flash" ∷ []), price 0 0 0 0)
    ∷ (("glm-4.5-air" ∷ "glm-4-5-air" ∷ []), price 200 1100 30 200)
    ∷ (("glm-4.7" ∷ "glm-4-7" ∷ "glm" ∷ []), price 600 2200 110 600)
    ∷ (("qwen3-max" ∷ []), price 1200 6000 120 1200)
    ∷ (("qwen3.5-plus" ∷ "qwen35-plus" ∷ []), price 400 2400 40 400)
    ∷ (("qwen-plus" ∷ []), price 400 1200 40 400)
    ∷ (("qwen-flash" ∷ "qwen" ∷ []), price 50 400 5 50)
    ∷ (("doubao" ∷ []), price 170 1110 34 170)
    ∷ (("MiniMax-M2.5-highspeed" ∷ "minimax-m2.5-highspeed" ∷ []), price 300 2400 30 300)
    ∷ (("MiniMax" ∷ "minimax" ∷ []), price 300 1200 30 300)
    ∷ (("mimo" ∷ []), price 100 300 10 100)
    ∷ []

abbrev pub contains_any : String → List String → Bool
contains_any model [] = false
contains_any model (s ∷ ss) = contains model s || contains_any model ss

abbrev pub first_price : String → List (List String × ModelPricing) → Option ModelPricing
first_price model [] = none
first_price model ((names, p) ∷ rest) =
    let later = first_price model rest in if contains_any model names then some p else later

unfoldable pub try_get_pricing : String → Option ModelPricing
try_get_pricing model = first_price model price_table

unfoldable pub get_pricing : String → ModelPricing
get_pricing model = unwrap_or (claude_pricing 3000 15000) (try_get_pricing model)

unfoldable pub is_third_party : String → Bool
is_third_party model =
    contains_any model
      ("deepseek" ∷ "kimi" ∷ "glm" ∷ "qwen" ∷ "doubao" ∷ "minimax" ∷ "MiniMax" ∷ "mimo" ∷ [])

-- The tokens of a turn.
pub record Tokens : Type 0 where
  pub input : ℕ
  pub output : ℕ
  pub cache_read : ℕ
  pub cache_write : ℕ

abbrev pub compute_cost : ModelPricing → Tokens → ℕ
compute_cost p t =
    t.input * p.input
    + t.output * p.output
    + t.cache_read * p.cache_read
    + t.cache_write * p.cache_write

unfoldable pub estimate_cost : String → Tokens → ℕ
estimate_cost model t = compute_cost (get_pricing model) t

unfoldable pub try_estimate_cost : String → Tokens → Option ℕ
try_estimate_cost model t = elim (try_get_pricing model) [
  | none ↦ none
  | some p ↦ some (compute_cost p t)
]
