-- ===== src/Domain/Contracts/Governance.antt =====
-- packages/domain/contracts.py: institutional bodies, boards, offices and appointment targets, with
-- the validators of each.
use Prim.Native.Char.{code}
use civic_intel.Prelude.{
  ℕ, String, Bool, true, not, ◌&&◌, ◌||◌, Option, List, leb, ◌==◌, string_eq, bool_eq, nat_eq,
  option_eq, pair_eq, has_duplicates, ◌>>◌, raise_if,
}
use civic_intel.Domain.Enums.{InstitutionalBodyType}
use civic_intel.Domain.Contracts.Base.{
  Uuid, Date, Temporal, Checked, rule_error, field_error, require_text, require_items,
  ordered_intervals,
}
use civic_intel.Prelude.Texts.{blank}
use civic_intel.Domain.Contracts.Evidence.{is_none}

pub record PersonAlias : Type 0 where
  pub id : Uuid
  pub person_id : Uuid
  pub name : String
  pub temporal : Temporal

unfoldable pub validate_person_alias : PersonAlias → Checked
unfolding ordered_intervals
validate_person_alias x = do require_text "name" x.name; ordered_intervals x.temporal

pub record InstitutionalBody : Type 0 where
  pub id : Uuid
  pub organization_id : Uuid
  pub body_type : InstitutionalBodyType
  pub legal_basis : Option String
  pub parent_organization_id : Option Uuid
  pub standing : Option Bool
  pub source_ids : List Uuid
  pub temporal : Temporal

unfoldable pub validate_institutional_body : InstitutionalBody → Checked
unfolding ordered_intervals
validate_institutional_body x = do
  require_items "source_ids" x.source_ids
  ordered_intervals x.temporal

pub record GovernanceSelectionEvent : Type 0 where
  pub id : Uuid
  pub target_organization_id : Uuid
  pub target_person_id : Option Uuid
  pub target_office_id : Option Uuid
  pub event_date : Date
  pub selection_steps : List String
  pub nominating_organization_id : Option Uuid
  pub recommending_organization_id : Option Uuid
  pub approving_organization_id : Option Uuid
  pub appointing_authority_organization_id : Option Uuid
  pub source_ids : List Uuid
  pub temporal : Temporal

unfoldable pub validate_governance_selection_event : GovernanceSelectionEvent → Checked
unfolding ordered_intervals
validate_governance_selection_event x = do
  require_items "selection_steps" x.selection_steps
  require_items "source_ids" x.source_ids
  ordered_intervals x.temporal
  raise_if (is_none x.target_person_id && is_none x.target_office_id)
      (rule_error "governance selection requires target_person_id or target_office_id")

pub record BoardSeat : Type 0 where
  pub id : Uuid
  pub organization_id : Uuid
  pub person_id : Uuid
  pub board_type : String
  pub role : String
  pub selection_event_id : Option Uuid
  pub source_ids : List Uuid
  pub temporal : Temporal

unfoldable pub validate_board_seat : BoardSeat → Checked
unfolding ordered_intervals
validate_board_seat x = do
  require_text "board_type" x.board_type
  require_text "role" x.role
  require_items "source_ids" x.source_ids
  ordered_intervals x.temporal

pub record Office : Type 0 where
  pub id : Uuid
  pub organization_id : Uuid
  pub title : String
  pub temporal : Temporal

unfoldable pub validate_office : Office → Checked
unfolding ordered_intervals
validate_office x = do require_text "title" x.title; ordered_intervals x.temporal

pub record Appointment : Type 0 where
  pub id : Uuid
  pub person_id : Uuid
  pub office_id : Uuid
  pub temporal : Temporal

unfoldable pub validate_appointment : Appointment → Checked
unfolding ordered_intervals
validate_appointment x = ordered_intervals x.temporal

-- `pattern=r"^[a-z0-9-]+$"`
slug_character : ℕ → Bool
slug_character c = leb b'a' c && leb c b'z' || leb b'0' c && leb c b'9' || c == b'-'

all_slug : String → Bool
unfolding slug_character
all_slug String.[] = true
all_slug (String.◌∷◌ c s) = slug_character (code c) && all_slug s

unfoldable pub is_slug : String → Bool
unfolding all_slug
is_slug s = not (blank s) && all_slug s

pub record AppointmentTarget : Type 0 where
  pub id : Uuid
  pub slug : String
  pub title : String
  pub institution : String
  pub appointment_route : String
  pub hearing_required : Option Bool
  pub role_fit_dimensions : List String
  pub source_ids : List Uuid
  pub note : Option String
  pub temporal : Temporal

unfoldable pub validate_appointment_target : AppointmentTarget → Checked
unfolding ordered_intervals is_slug
validate_appointment_target x = do
  require_text "slug" x.slug
  raise_if (not (is_slug x.slug)) (field_error "slug")
  require_text "title" x.title
  require_text "institution" x.institution
  require_text "appointment_route" x.appointment_route
  require_items "role_fit_dimensions" x.role_fit_dimensions
  require_items "source_ids" x.source_ids
  ordered_intervals x.temporal
  raise_if (has_duplicates x.role_fit_dimensions) (rule_error "role_fit_dimensions must be unique")
