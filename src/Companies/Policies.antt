-- ===== src/Companies/Policies.antt =====
-- app/companies/domain/policies: approval_policy.py and cnae_policy.py.
use seniors_empregabilidade.Prelude.{
  Bool, List, Option, Str, exists_where, false, is_empty, none, select_where, some, starts_with,
  strip, true, ℕ,
}

-- `status` of a review.
pub data Decision : Type 0 where
  to_approved to_rejected : Decision

-- Whether `ensure_decision_reason_is_valid` raises.
abbrev pub is_invalid_decision : Decision → (reason : Option Str) → Bool
is_invalid_decision Decision.to_rejected none = true
is_invalid_decision Decision.to_rejected (some reason) = is_empty (strip reason)
is_invalid_decision Decision.to_approved none = false
is_invalid_decision Decision.to_approved (some reason) = true

-- `character.isdigit()` beyond ASCII comes from the Unicode tables and is a parameter.
module _ (is_digit : ℕ → Bool) where
  -- Whether `ensure_cnae_is_allowed` raises.
  abbrev pub is_blocked_cnae : (cnae : Str) (blocked_prefixes : List Str) → Bool
  is_blocked_cnae cnae blocked_prefixes =
      exists_where (λ prefix. starts_with (select_where is_digit cnae) prefix) blocked_prefixes
