-- ===== src/Verification/Policy.antt =====
-- packages/verification/policy.py: what a source policy permits.
pub mod Laws
use civic_intel.Prelude.{
  ℕ, ◌-◌, String, ◌≡◌, Bool, not, ◌&&◌, Option, none, some, arith, Eq, ◌==◌, nat_eq, string_eq,
  coded_eq, option_eq, pair_eq, Result, ◌>>◌, raise_if, err,
}
use civic_intel.Domain.Enums.{SourceCollectionMode, source_collection_mode_eq}
use civic_intel.Domain.Contracts.Evidence.{SourcePolicy}

pub data PolicyAction : Type 0 where
  fetch store_metadata store_fulltext send_to_ai show_excerpt commercialize : PolicyAction

abbrev pub policy_action_code : PolicyAction → ℕ
policy_action_code PolicyAction.fetch = 0
policy_action_code PolicyAction.store_metadata = 1
policy_action_code PolicyAction.store_fulltext = 2
policy_action_code PolicyAction.send_to_ai = 3
policy_action_code PolicyAction.show_excerpt = 4
policy_action_code PolicyAction.commercialize = 5

pub policy_action_code-injective :
    (a b : PolicyAction) → policy_action_code a ≡ policy_action_code b → a ≡ b
policy_action_code-injective a b h = ground arith

instance abbrev pub policy_action_eq : Eq PolicyAction
policy_action_eq = coded_eq policy_action_code policy_action_code-injective

-- `PolicyDenied`, with the domain and the action that its message names.
pub data PolicyDenied : Type 0 where
  no_decision : PolicyDenied
  blocked discovery_only : String → PolicyDenied
  prohibited : PolicyAction → String → PolicyDenied

-- `getattr(policy, _FIELDS[action])`
abbrev pub grants : SourcePolicy → PolicyAction → Bool
grants p PolicyAction.fetch = p.can_fetch
grants p PolicyAction.store_metadata = p.can_store_metadata
grants p PolicyAction.store_fulltext = p.can_store_fulltext
grants p PolicyAction.send_to_ai = p.can_send_to_ai
grants p PolicyAction.show_excerpt = p.can_show_excerpt
grants p PolicyAction.commercialize = p.can_commercialize

unfoldable pub require_policy : Option SourcePolicy → PolicyAction → Result PolicyDenied (Unit {0})
require_policy none action = err no_decision
require_policy (some p) action = do
  raise_if (p.collection_mode == SourceCollectionMode.blocked) (blocked p.domain)
  raise_if
      (action == PolicyAction.fetch && p.collection_mode == SourceCollectionMode.discovery_only)
      (discovery_only p.domain)
  raise_if (not (grants p action)) (prohibited action p.domain)
