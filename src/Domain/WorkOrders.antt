-- ===== src/Domain/WorkOrders.antt =====
-- packages/domain/work_orders.py: the request of a work order, and what it may select.
pub mod Laws
use Prim.Native.Char.{code}
use civic_intel.Prelude.{
  ℕ, ◌-◌, ◌/◌, String, ◌≡◌, Bool, true, not, ◌&&◌, ◌||◌, List, [], ◌∷◌, map, arith, ltb, leb,
  nat_beq, Eq, ◌==◌, ◌!=◌, string_eq, bool_eq, nat_eq, coded_eq, option_eq, pair_eq, length,
  is_empty, any, all, keep, contains, has_duplicates, ◌>>◌, raise_if,
}
use civic_intel.Prelude.Texts.{strip, char_count}
use civic_intel.Domain.Contracts.Base.{Uuid, Checked, field_error, rule_error}

pub data RecipeId : Type 0 where
  collection_check collection_failure person_review identity_link product_fix result_check :
      RecipeId

pub data RecordKind : Type 0 where
  observations people organizations claims evidence runs operations : RecordKind

abbrev pub record_kind_code : RecordKind → ℕ
record_kind_code RecordKind.observations = 0
record_kind_code RecordKind.people = 1
record_kind_code RecordKind.organizations = 2
record_kind_code RecordKind.claims = 3
record_kind_code RecordKind.evidence = 4
record_kind_code RecordKind.runs = 5
record_kind_code RecordKind.operations = 6

pub record_kind_code-injective :
    (a b : RecordKind) → record_kind_code a ≡ record_kind_code b → a ≡ b
record_kind_code-injective a b h = ground arith

instance abbrev pub record_kind_eq : Eq RecordKind
record_kind_eq = coded_eq record_kind_code record_kind_code-injective

-- `code_area`
pub data CodeArea : Type 0 where
  admin api graph : CodeArea

pub record WorkReference : Type 0 where
  pub kind : RecordKind
  pub id : Uuid
  pub version : String

pub record WorkOrderRequest : Type 0 where
  pub request_id : Uuid
  pub recipe_id : RecipeId
  pub references : List WorkReference
  pub operator_note : String
  pub code_area : CodeArea

-- `pattern=r"^[0-9a-f]{64}$"`
hex_digit : ℕ → Bool
hex_digit c = leb b'0' c && leb c b'9' || leb b'a' c && leb c b'f'

all_hex : String → Bool
unfolding hex_digit
all_hex String.[] = true
all_hex (String.◌∷◌ c s) = hex_digit (code c) && all_hex s

unfoldable pub is_version : String → Bool
unfolding all_hex char_count
is_version s = nat_beq (char_count s) 64 && all_hex s

abbrev pub reference_key : WorkReference → RecordKind × Uuid
reference_key r = (r.kind, r.id)

abbrev pub of_kind : RecordKind → WorkReference → Bool
of_kind k r = r.kind == k

-- `kinds == {...}`, where `kinds` is the set of the references' kinds.
abbrev pub kinds_are : List RecordKind → List WorkReference → Bool
kinds_are kinds refs =
    all (λ (r : WorkReference). contains kinds r.kind) refs && all (λ k. any (of_kind k) refs) kinds

-- `len(self.operator_note.strip()) < 10`
unfoldable pub note_too_short : WorkOrderRequest → Bool
note_too_short w = ltb (char_count (strip w.operator_note)) 10

unfoldable pub validate_recipe : RecipeId → WorkOrderRequest → Checked
validate_recipe RecipeId.collection_check w =
    raise_if (length w.references != 1 || not (kinds_are (RecordKind.runs ∷ []) w.references))
      (rule_error "Select exactly one source run")
validate_recipe RecipeId.collection_failure w =
    raise_if (length w.references != 1 || not (kinds_are (RecordKind.runs ∷ []) w.references))
      (rule_error "Select exactly one source run")
validate_recipe RecipeId.person_review w =
    raise_if (is_empty w.references || not (kinds_are (RecordKind.observations ∷ []) w.references))
      (rule_error "Select 1–25 observations")
validate_recipe RecipeId.identity_link w = do
  raise_if
      (not (
        kinds_are (RecordKind.observations ∷ RecordKind.people ∷ RecordKind.evidence ∷ [])
          w.references))
      (rule_error "Select observation, candidate Person and Evidence")
  raise_if
      (length (keep (of_kind RecordKind.observations) w.references) != 1
        || length (keep (of_kind RecordKind.people) w.references) != 1)
      (rule_error "Use one observation and one candidate Person")
validate_recipe RecipeId.product_fix w =
    raise_if (note_too_short w) (rule_error "Describe the issue and reproduction steps")
validate_recipe RecipeId.result_check w =
    raise_if (is_empty w.references && note_too_short w)
      (rule_error "Select a result or describe the exact code/verification scope")

-- Construction of a `WorkOrderRequest`: the fields first, then `validate_selection`.
unfoldable pub validate_work_order : WorkOrderRequest → Checked
unfolding char_count
validate_work_order w = do
  raise_if (not (leb (length w.references) 25)) (field_error "references")
  raise_if (any (λ (r : WorkReference). not (is_version r.version)) w.references)
      (field_error "version")
  raise_if (not (leb (char_count w.operator_note) 1500)) (field_error "operator_note")
  raise_if (has_duplicates (map reference_key w.references))
      (rule_error "Duplicate references are not permitted")
  validate_recipe w.recipe_id w
