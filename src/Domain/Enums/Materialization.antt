-- ===== src/Domain/Enums/Materialization.antt =====
-- packages/domain/enums.py: what becomes of an observed record.
-- Each `StrEnum` is a data type with a code into the
-- numbers by which `==` tells its members apart.
use civic_intel.Prelude.{ℕ, String, ◌≡◌, arith, Eq, nat_eq, string_eq, coded_eq}

pub data MaterializationAction : Type 0 where
  auto_create auto_link review_required hard_conflict reviewed_create reviewed_link :
      MaterializationAction

abbrev pub materialization_action_code : MaterializationAction → ℕ
materialization_action_code MaterializationAction.auto_create = 0
materialization_action_code MaterializationAction.auto_link = 1
materialization_action_code MaterializationAction.review_required = 2
materialization_action_code MaterializationAction.hard_conflict = 3
materialization_action_code MaterializationAction.reviewed_create = 4
materialization_action_code MaterializationAction.reviewed_link = 5

pub materialization_action_code-injective :
    (a b : MaterializationAction)
    → materialization_action_code a ≡ materialization_action_code b
    → a ≡ b
materialization_action_code-injective a b h = ground arith

instance abbrev pub materialization_action_eq : Eq MaterializationAction
materialization_action_eq =
    coded_eq materialization_action_code materialization_action_code-injective

abbrev pub materialization_action_value : MaterializationAction → String
materialization_action_value MaterializationAction.auto_create = "AUTO_CREATE"
materialization_action_value MaterializationAction.auto_link = "AUTO_LINK"
materialization_action_value MaterializationAction.review_required = "REVIEW_REQUIRED"
materialization_action_value MaterializationAction.hard_conflict = "HARD_CONFLICT"
materialization_action_value MaterializationAction.reviewed_create = "REVIEWED_CREATE"
materialization_action_value MaterializationAction.reviewed_link = "REVIEWED_LINK"

pub data MaterializationDecisionClass : Type 0 where
  authoritative_new_identity exact_provider_identity same_name_ambiguity exact_birth_date_conflict
        provider_identity_conflict unsupported_feeder reviewed_distinct_identity
        reviewed_source_context deterministic_source_context reviewed_bridge reviewed_merge :
      MaterializationDecisionClass

abbrev pub materialization_decision_class_code : MaterializationDecisionClass → ℕ
materialization_decision_class_code MaterializationDecisionClass.authoritative_new_identity = 0
materialization_decision_class_code MaterializationDecisionClass.exact_provider_identity = 1
materialization_decision_class_code MaterializationDecisionClass.same_name_ambiguity = 2
materialization_decision_class_code MaterializationDecisionClass.exact_birth_date_conflict = 3
materialization_decision_class_code MaterializationDecisionClass.provider_identity_conflict = 4
materialization_decision_class_code MaterializationDecisionClass.unsupported_feeder = 5
materialization_decision_class_code MaterializationDecisionClass.reviewed_distinct_identity = 6
materialization_decision_class_code MaterializationDecisionClass.reviewed_source_context = 7
materialization_decision_class_code MaterializationDecisionClass.deterministic_source_context = 8
materialization_decision_class_code MaterializationDecisionClass.reviewed_bridge = 9
materialization_decision_class_code MaterializationDecisionClass.reviewed_merge = 10

pub materialization_decision_class_code-injective :
    (a b : MaterializationDecisionClass)
    → materialization_decision_class_code a ≡ materialization_decision_class_code b
    → a ≡ b
materialization_decision_class_code-injective a b h = ground arith

instance abbrev pub materialization_decision_class_eq : Eq MaterializationDecisionClass
materialization_decision_class_eq =
    coded_eq materialization_decision_class_code materialization_decision_class_code-injective

abbrev pub materialization_decision_class_value : MaterializationDecisionClass → String
materialization_decision_class_value MaterializationDecisionClass.authoritative_new_identity =
    "AUTHORITATIVE_NEW_IDENTITY"
materialization_decision_class_value MaterializationDecisionClass.exact_provider_identity =
    "EXACT_PROVIDER_IDENTITY"
materialization_decision_class_value MaterializationDecisionClass.same_name_ambiguity =
    "SAME_NAME_AMBIGUITY"
materialization_decision_class_value MaterializationDecisionClass.exact_birth_date_conflict =
    "EXACT_BIRTH_DATE_CONFLICT"
materialization_decision_class_value MaterializationDecisionClass.provider_identity_conflict =
    "PROVIDER_IDENTITY_CONFLICT"
materialization_decision_class_value MaterializationDecisionClass.unsupported_feeder =
    "UNSUPPORTED_FEEDER"
materialization_decision_class_value MaterializationDecisionClass.reviewed_distinct_identity =
    "REVIEWED_DISTINCT_IDENTITY"
materialization_decision_class_value MaterializationDecisionClass.reviewed_source_context =
    "REVIEWED_SOURCE_CONTEXT"
materialization_decision_class_value MaterializationDecisionClass.deterministic_source_context =
    "DETERMINISTIC_SOURCE_CONTEXT"
materialization_decision_class_value MaterializationDecisionClass.reviewed_bridge =
    "REVIEWED_BRIDGE"
materialization_decision_class_value MaterializationDecisionClass.reviewed_merge = "REVIEWED_MERGE"
