-- ===== src/Verification/Policy/Laws.antt =====
-- packages/verification/policy.py: exactly what `require_policy` lets through.
use civic_intel.Prelude.{
  ◌≡◌, ◌≢◌, ◌↔◌, true, Option, none, some, arith, nat_eq, string_eq, option_eq, pair_eq, succeeds,
}
use civic_intel.Domain.Enums.{SourceCollectionMode, source_collection_mode_eq}
use civic_intel.Domain.Contracts.Evidence.{SourcePolicy}
use civic_intel.Verification.Policy.{PolicyAction, policy_action_eq, grants, require_policy}

-- The source is not blocked, a source for discovery only is not fetched, and the flag of the
-- action is set.
pub record Permitted (p : SourcePolicy) (action : PolicyAction) : Type 0 where
  pub not_blocked : p.collection_mode ≢ SourceCollectionMode.blocked
  pub fetchable :
      action ≡ PolicyAction.fetch → p.collection_mode ≢ SourceCollectionMode.discovery_only
  pub granted : grants p action ≡ true

-- A decision exists, and permits the action.
abbrev pub Permits : Option SourcePolicy → PolicyAction → Type 0
Permits none action = ⊥
Permits (some p) action = Permitted p action

Permits-sound :
    (policy : Option SourcePolicy) (action : PolicyAction)
    → succeeds (require_policy policy action) ≡ true
    → Permits policy action
unfolding require_policy
Permits-sound none action h = cc
Permits-sound (some p) action h = record {
  not_blocked = λ e. ground (arith, e);
  fetchable = λ e f. ground (arith, e, f);
  granted = ground arith;
}

Permits-complete :
    (policy : Option SourcePolicy) (action : PolicyAction)
    → Permits policy action
    → succeeds (require_policy policy action) ≡ true
unfolding require_policy
Permits-complete none action h = elim h [ ]
Permits-complete (some p) action h = grind (arith, h.not_blocked, h.fetchable, h.granted)

-- An action is let through exactly when a decision for the source exists, the source is not
-- blocked, the flag of the action is set, and a fetch is not of a source for discovery only.
pub require_policy-Permits :
    (policy : Option SourcePolicy) (action : PolicyAction)
    → (succeeds (require_policy policy action) ≡ true) ↔ Permits policy action
require_policy-Permits policy action = (Permits-sound policy action, Permits-complete policy action)
