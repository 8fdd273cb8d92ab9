-- ===== src/Pricing/Known.antt =====
-- src-tauri/src/pricing.rs: where the two estimates of a cost agree.
use open_covibe_web.Common.{String, true, some, ◌≡◌, arith}
use open_covibe_web.Pricing.{
  try_get_pricing, get_pricing, is_third_party, Tokens, estimate_cost, try_estimate_cost,
}

-- The table has some price for a model of a known third party, so that both estimates of its cost
-- agree; the price may be another model's, since the rows of OpenAI come first.
pub is_third_party-estimate :
    (model : String) (t : Tokens)
    → is_third_party model ≡ true
    → try_estimate_cost model t ≡ some (estimate_cost model t)
unfolding is_third_party try_estimate_cost estimate_cost get_pricing try_get_pricing
is_third_party-estimate model t h = ground arith
