-- ===== src/Domain/Enums/Profile.antt =====
-- packages/domain/enums.py: relationships, role fit and the talent pool.
-- Each `StrEnum` is a data type with a code into the
-- numbers by which `==` tells its members apart.
use civic_intel.Prelude.{ℕ, ◌≡◌, arith, Eq, nat_eq, string_eq, coded_eq}

pub data RelationshipStrength : Type 0 where
  weak strong : RelationshipStrength

abbrev pub relationship_strength_code : RelationshipStrength → ℕ
relationship_strength_code RelationshipStrength.weak = 0
relationship_strength_code RelationshipStrength.strong = 1

pub relationship_strength_code-injective :
    (a b : RelationshipStrength)
    → relationship_strength_code a ≡ relationship_strength_code b
    → a ≡ b
relationship_strength_code-injective a b h = ground arith

instance abbrev pub relationship_strength_eq : Eq RelationshipStrength
relationship_strength_eq = coded_eq relationship_strength_code relationship_strength_code-injective

pub data RelationshipEvidenceType : Type 0 where
  appointment co_service financial family_public_record direct_statement co_mention :
      RelationshipEvidenceType

abbrev pub relationship_evidence_type_code : RelationshipEvidenceType → ℕ
relationship_evidence_type_code RelationshipEvidenceType.appointment = 0
relationship_evidence_type_code RelationshipEvidenceType.co_service = 1
relationship_evidence_type_code RelationshipEvidenceType.financial = 2
relationship_evidence_type_code RelationshipEvidenceType.family_public_record = 3
relationship_evidence_type_code RelationshipEvidenceType.direct_statement = 4
relationship_evidence_type_code RelationshipEvidenceType.co_mention = 5

pub relationship_evidence_type_code-injective :
    (a b : RelationshipEvidenceType)
    → relationship_evidence_type_code a ≡ relationship_evidence_type_code b
    → a ≡ b
relationship_evidence_type_code-injective a b h = ground arith

instance abbrev pub relationship_evidence_type_eq : Eq RelationshipEvidenceType
relationship_evidence_type_eq =
    coded_eq relationship_evidence_type_code relationship_evidence_type_code-injective

pub data RoleFitStatus : Type 0 where
  evidenced partial unknown gap : RoleFitStatus

abbrev pub role_fit_status_code : RoleFitStatus → ℕ
role_fit_status_code RoleFitStatus.evidenced = 0
role_fit_status_code RoleFitStatus.partial = 1
role_fit_status_code RoleFitStatus.unknown = 2
role_fit_status_code RoleFitStatus.gap = 3

pub role_fit_status_code-injective :
    (a b : RoleFitStatus) → role_fit_status_code a ≡ role_fit_status_code b → a ≡ b
role_fit_status_code-injective a b h = ground arith

instance abbrev pub role_fit_status_eq : Eq RoleFitStatus
role_fit_status_eq = coded_eq role_fit_status_code role_fit_status_code-injective

pub data TalentPoolBucket : Type 0 where
  direct_feeder domain_senior political_executive technical_expert emerging : TalentPoolBucket

abbrev pub talent_pool_bucket_code : TalentPoolBucket → ℕ
talent_pool_bucket_code TalentPoolBucket.direct_feeder = 0
talent_pool_bucket_code TalentPoolBucket.domain_senior = 1
talent_pool_bucket_code TalentPoolBucket.political_executive = 2
talent_pool_bucket_code TalentPoolBucket.technical_expert = 3
talent_pool_bucket_code TalentPoolBucket.emerging = 4

pub talent_pool_bucket_code-injective :
    (a b : TalentPoolBucket) → talent_pool_bucket_code a ≡ talent_pool_bucket_code b → a ≡ b
talent_pool_bucket_code-injective a b h = ground arith

instance abbrev pub talent_pool_bucket_eq : Eq TalentPoolBucket
talent_pool_bucket_eq = coded_eq talent_pool_bucket_code talent_pool_bucket_code-injective
