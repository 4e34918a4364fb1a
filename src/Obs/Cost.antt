-- ===== src/Obs/Cost.antt =====
-- pkg/obs/cost.go: the price list and the cost of a request. The metrics and the log line are left
-- out, and strings.ToLower is a parameter.
mod Tests
use ragivka.Prelude.{ℕ, Bool, true, false, String, Option, none, some, List, [], ◌∷◌, lookup}

-- Go's float64 with the operations of the computation, of which nothing is assumed.
pub record Arithmetic : Type 1 where
  pub Float : Type 0
  pub of_thousandths : ℕ → Float
  pub of_nat : ℕ → Float
  pub add : Float → Float → Float
  pub mul : Float → Float → Float
  pub div : Float → Float → Float

module _ ⦃floats : Arithmetic⦄ where
  -- US dollars for a million tokens
  pub record ModelPricing : Type 0 where
    pub input_rate : floats.Float
    pub output_rate : floats.Float

  abbrev rates : ℕ → ℕ → ModelPricing
  rates input output = record {
    input_rate = floats.of_thousandths input;
    output_rate = floats.of_thousandths output;
  }

  default_pricing_registry : List (String × ModelPricing)
  default_pricing_registry =
      ("gpt-4o", rates 2500 10000)
      ∷ ("gpt-4o-mini", rates 150 600)
      ∷ ("claude-3-5-sonnet", rates 3000 15000)
      ∷ ("claude-3-5-haiku", rates 800 4000)
      ∷ ("gemini-2.5-flash", rates 75 300)
      ∷ ("deepseek-chat", rates 140 280)
      ∷ ("deepseek-reasoner", rates 550 2190)
      ∷ ("qwen3.5:cloud", rates 0 0)
      ∷ ("bge-m3:latest", rates 0 0)
      ∷ []

  fallback_pricing : ModelPricing
  fallback_pricing = rates 150 600

  pricing_or : ModelPricing → Option ModelPricing → ModelPricing
  pricing_or fallback none = fallback
  pricing_or fallback (some p) = p

  is_registered : Option ModelPricing → Bool
  is_registered none = false
  is_registered (some p) = true

  cost_at : ModelPricing → ℕ → ℕ → floats.Float
  cost_at p prompt_tokens completion_tokens =
      let million = floats.of_nat 1000000 in
      floats.add (floats.mul (floats.div (floats.of_nat prompt_tokens) million) p.input_rate)
        (floats.mul (floats.div (floats.of_nat completion_tokens) million) p.output_rate)

  module _ (to_lower : String → String) where
    -- The comma-ok is the option.
    pub get_model_pricing : String → Option ModelPricing
    unfolding default_pricing_registry
    get_model_pricing model = lookup (to_lower model) default_pricing_registry

    -- A model that is not in the list costs what gpt-4o-mini does.
    pub calculate_cost : String → ℕ → ℕ → floats.Float × Bool
    unfolding get_model_pricing pricing_or is_registered cost_at fallback_pricing
    calculate_cost model prompt_tokens completion_tokens =
        let found = get_model_pricing model in
        (
          cost_at (pricing_or (pricing_or fallback_pricing (get_model_pricing "gpt-4o-mini")) found)
              prompt_tokens completion_tokens,
          is_registered found,
        )
