-- ===== src/Domain/Contracts/Base.antt =====
-- packages/domain/contracts.py: identifiers, times, free-form metadata, temporal records.
-- A UUID is its 128-bit value, a datetime the instant that it stands for and a date its ordinal;
-- times enter as values, since the code reads the clock only for defaults.
use civic_intel.Prelude.{
  ℕ, String, Bool, false, Option, none, some, List, ltb, nat_eq, string_eq, bool_eq, option_eq,
  pair_eq, is_empty, Result, ◌>>◌, raise_if,
}
use civic_intel.Prelude.Texts.{blank}
use civic_intel.Prelude.Dict.{Dict}

abbrev pub Uuid : Type 0
Uuid = ℕ

abbrev pub Time : Type 0
Time = ℕ

abbrev pub Date : Type 0
Date = ℕ

-- A datetime where it matters whether it carries a zone: its instant and its wall clock, or the
-- wall clock alone.
pub data Stamp : Type 0 where
  aware : ℕ → ℕ → Stamp
  naive : ℕ → Stamp

-- `Any` in `dict[str, Any]`: what JSON can hold. Numbers are integers, `negative n` is -(n + 1).
mutual
  pub data Json : Type 0 where
    null : Json
    boolean : Bool → Json
    number : ℕ → Json
    negative : ℕ → Json
    text : String → Json
    array : Items → Json
    object : Fields → Json

  pub data Items : Type 0 where
    nil : Items
    cons : Json → Items → Items

  pub data Fields : Type 0 where
    end : Fields
    field : String → Json → Fields → Fields

abbrev pub Metadata : Type 0
Metadata = Dict String Json

-- Why construction of a contract fails: a constraint of one field, or the message of a validator.
pub data ContractError : Type 0 where
  field_error : String → ContractError
  rule_error : String → ContractError

abbrev pub Checked : Type 0
Checked = Result ContractError (Unit {0})

-- `Field(min_length=1)` of the named text.
abbrev pub require_text : String → String → Checked
require_text name value = raise_if (blank value) (field_error name)

-- `Field(min_length=1)` of the named list.
abbrev pub require_items {ℓ} : {A : Type ℓ} → String → List A → Checked
require_items name items = raise_if (is_empty items) (field_error name)

abbrev pub precedes : Option Time → Time → Bool
precedes none start = false
precedes (some t) start = ltb t start

pub record Temporal : Type 0 where
  pub valid_from : Time
  pub valid_to : Option Time
  pub recorded_at : Time
  pub superseded_at : Option Time

-- `TemporalRecord.ordered_intervals`
unfoldable pub ordered_intervals : Temporal → Checked
ordered_intervals t = do
  raise_if (precedes t.valid_to t.valid_from) (rule_error "valid_to precedes valid_from")
  raise_if (precedes t.superseded_at t.recorded_at)
      (rule_error "superseded_at precedes recorded_at")
