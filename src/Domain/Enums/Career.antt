-- ===== src/Domain/Enums/Career.antt =====
-- packages/domain/enums.py: institutional bodies, careers and appointments. Nothing modelled compares
-- these members, so they have no code.
pub data InstitutionalBodyType : Type 0 where
  presidential_commission presidential_advisory_body government_committee task_force :
      InstitutionalBodyType
  special_committee public_institution policy_bank state_linked_company : InstitutionalBodyType
  public_corporation other_public_entity : InstitutionalBodyType

pub data GovernanceRelationType : Type 0 where
  direct_ownership indirect_ownership largest_shareholder appointment_authority :
      GovernanceRelationType
  recommendation_authority board_selection statutory_supervision : GovernanceRelationType
  budgetary_supervision : GovernanceRelationType

pub data CivilServiceCategory : Type 0 where
  central_general local_general foreign_service police fire tax customs audit : CivilServiceCategory
  corrections immigration other_specific : CivilServiceCategory

pub data CivilServiceEventType : Type 0 where
  appointment promotion transfer secondment dispatch retirement : CivilServiceEventType

pub data CivilServiceAppointmentRoute : Type 0 where
  regular senior_civil_service open_position competitive_position fixed_term :
      CivilServiceAppointmentRoute
  external_career : CivilServiceAppointmentRoute

pub data EmploymentReviewDecision : Type 0 where
  employable approved restricted disapproved unknown : EmploymentReviewDecision

pub data PublicInstitutionClassification : Type 0 where
  public_corporation quasi_government other_public_institution : PublicInstitutionClassification

pub data PublicInstitutionExecutiveKind : Type 0 where
  institution_head non_standing_head standing_auditor standing_director :
      PublicInstitutionExecutiveKind
  non_standing_director non_standing_auditor : PublicInstitutionExecutiveKind

pub data LegalCareerType : Type 0 where
  judge court_president supreme_court_justice judicial_administration prosecutor : LegalCareerType
  chief_prosecutor prosecutor_general ministry_of_justice_legal_role lawyer : LegalCareerType
  law_firm_partner public_defender_or_legal_aid constitutional_court_role : LegalCareerType
  legal_academic government_legal_adviser : LegalCareerType

pub data LegalCareerEventType : Type 0 where
  appointment transfer promotion assignment concurrent_appointment concurrent_release :
      LegalCareerEventType
  retirement professional_registration : LegalCareerEventType

pub data PresidentialPersonnelAction : Type 0 where
  appointed nominated designated commissioned assigned released : PresidentialPersonnelAction

pub data PresidentialRoleScope : Type 0 where
  presidential_secretariat national_security_office special_adviser : PresidentialRoleScope
  presidential_commission presidential_task_force : PresidentialRoleScope
