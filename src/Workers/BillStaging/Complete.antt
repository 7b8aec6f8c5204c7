-- ===== src/Workers/BillStaging/Complete.antt =====
-- workers/legislative_activity.py: what a staged summary that calls itself complete stands for.
use civic_intel.Prelude.{
  ℕ, ◌+◌, String, ◌≡◌, refl, sym, ap, subst, ◌≢◌, Bool, true, false, ◌&&◌, Option, none, some, List,
  [], ◌∷◌, ◌++◌, arith, if◌then◌else◌, nat_beq_iff, ◌!=◌, string_eq, bool_eq, nat_eq, option_eq,
  pair_eq, list_eq, length, is_empty, keep, ordered_unique, raising, >>=-eq-ok, ok-injective,
  raising-ok, past, All, not_any_sound, !=_iff, ok,
}
use civic_intel.Prelude.Lists.{unseen}
use civic_intel.Prelude.Texts.{strip}
use civic_intel.Prelude.Integers.{ℤ, pos, int_eq}
use civic_intel.Verification.Policy.{PolicyAction, require_policy}
use civic_intel.Connectors.Base.{Outside, ConnectorDocument}
use civic_intel.Connectors.AssemblyBills.{AssemblyBillRecord}
use civic_intel.Connectors.AssemblyBills.Client.{host}
use civic_intel.Workers.BillStaging.{
  denied, connector, BillStager, metadata_int, fetch_page, Fetched, error_if, or_size,
}
use civic_intel.Workers.BillStaging.Unify.{Unified, unify_pages}
use civic_intel.Workers.BillStaging.Roles.{
  leads, co_sponsors, matched-roles, matched-Stands, Stands, Coded, codes_iff,
}
use civic_intel.Workers.BillStaging.Summary.{
  LegislativeActivitySummary, matched, in_role, is_complete, miscounted, if_some, lacks_codes,
  summarize, collect, stage,
}

no_total-collect :
    (o : Outside) (w : BillStager) (first : List AssemblyBillRecord) (total : Option ℤ) (size : ℤ)
    {found : Option ℕ × Fetched}
    → collect o w first total size ≡ ok found
    → total ≡ none
    → found.0 ≡ none
unfolding collect
no_total-collect o w first none size h e =
    sym (ap (λ (f : Option ℕ × Fetched). f.0) (ok-injective h))
no_total-collect o w first (some total) size h e = cc

left_true : (a b : Bool) → (a && b) ≡ true → a ≡ true
left_true true b h = refl
left_true false b h = h

-- The different bills of the pages that a staging fetches.
pub record Staged (o : Outside) (w : BillStager) (u : Unified) : Type 0 where
  pub first : ConnectorDocument × List AssemblyBillRecord
  pub first_page : fetch_page o w.connector 1 ≡ ok first
  pub fetched : Option ℕ × Fetched
  pub collected :
      collect o w first.1
        (metadata_int o first.0.metadata "list_total_count")
        (or_size (metadata_int o first.0.metadata "page_size") w.connector.page_size)
      ≡ ok fetched
  pub unified :
      unify_pages fetched.1.page_records []
        (record { unique_records = []; errors = fetched.1.coverage_errors })
      ≡ ok u

-- What complete coverage stands for, and complete roles.
pub record Honest (u : Unified) (s : LegislativeActivitySummary) : Type 0 where
  pub covered :
      s.coverage_complete ≡ true
      → (s.source_total_count ≡ some (pos s.source_unique_bill_count))
        × (s.expected_pages ≡ some s.pages_fetched)
        × (s.coverage_errors ≡ [])
  pub counted :
      s.role_code_coverage_complete ≡ true
      → (s.coverage_complete ≡ true)
        × All Coded u.unique_records
        × (s.representative_sponsored_count ≡ some (length (keep (in_role "LEAD") s.bills)))
        × (s.co_sponsored_count ≡ some (length (keep (in_role "CO_SPONSOR") s.bills)))
        × (length (keep (in_role "LEAD") s.bills) + length (keep (in_role "CO_SPONSOR") s.bills)
            ≡ s.staged_bill_count)
  pub uncounted :
      s.role_code_coverage_complete ≡ false
      → (s.representative_sponsored_count ≡ none)
        × (s.co_sponsored_count ≡ none)
        × (s.process_result_counts ≡ [])
  pub listed : s.staged_bill_count ≡ length s.bills
  pub different : s.source_unique_bill_count ≡ length u.unique_records
  pub roles : All (Stands (strip s.member_code)) s.bills
  pub of_member : s.bills ≡ matched s.member_code u.unique_records

is_complete-true :
    (expected : Option ℕ) (fetched : ℕ) (errors : List String)
    → is_complete expected fetched errors ≡ true
    → (expected ≡ some fetched) × (errors ≡ [])
is_complete-true none fetched errors h = cc
is_complete-true (some pages) fetched [] h =
    (ap some (sym ((nat_beq_iff fetched pages).0 (ground (arith, h)))), refl)
is_complete-true (some pages) fetched (e ∷ errors) h = absurd (ground (arith, h))

right_count :
    (total : Option ℤ) (count : ℕ)
    → total ≢ none
    → miscounted total count ≡ false
    → total ≡ some (pos count)
right_count none count there h = absurd (there refl)
right_count (some t) count there h = ap some ((!=_iff t (pos count)).0 h)

not_listed : {A : Type 0} (t : Bool) (a : List A) → t ≡ false → (if t then a else []) ≡ []
not_listed true a h = cc
not_listed false a h = refl

no_error :
    (errors : List String) (test : Bool) (e : String)
    → errors ++ error_if test e ≡ []
    → test ≡ false
no_error errors false e h = refl
no_error [] true e h = cc
no_error (x ∷ errors) true e h = cc

right_true : (a b : Bool) → (a && b) ≡ true → b ≡ true
right_true true b h = h
right_true false b h = cc

no_role_error : (test : Bool) (e : String) → is_empty (error_if test e) ≡ true → test ≡ false
no_role_error true e h = cc
no_role_error false e h = refl

module _ (w : BillStager) (total : Option ℤ) (expected : Option ℕ) (fetched : ℕ) (u : Unified) where
  abbrev summary : LegislativeActivitySummary
  summary = summarize w total expected fetched u

  summarize_covered :
      (total ≡ none → expected ≡ none)
      → summary.coverage_complete ≡ true
      → (total ≡ some (pos (length u.unique_records)))
        × (expected ≡ some fetched)
        × (summary.coverage_errors ≡ [])
  unfolding summarize unseen
  summarize_covered unknown h =
      let (exact, clean) = is_complete-true expected fetched _ h in
      let right = no_error u.errors (miscounted total (length u.unique_records)) _ clean in
      (
        right_count total (length u.unique_records) (λ e. cc (exact, unknown e)) right,
        exact,
        ap ordered_unique clean,
      )

  summarize-Honest : (total ≡ none → expected ≡ none) → Honest u summary
  unfolding summarize
  summarize-Honest unknown = record {
    covered = summarize_covered unknown;
    counted = λ h. (
      left_true _ _ h,
      not_any_sound lacks_codes Coded codes_iff u.unique_records
          (no_role_error _ _ (right_true _ _ h)),
      ap (λ t. if_some t (leads (matched w.member_code u.unique_records))) h,
      ap (λ t. if_some t (co_sponsors (matched w.member_code u.unique_records))) h,
      matched-roles w.member_code u.unique_records,
    );
    uncounted = λ h. (
      ap (λ t. if_some t (leads (matched w.member_code u.unique_records))) h,
      ap (λ t. if_some t (co_sponsors (matched w.member_code u.unique_records))) h,
      not_listed _ _ h,
    );
    listed = refl;
    different = refl;
    roles = matched-Stands w.member_code u.unique_records;
    of_member = refl;
  }

-- A staged summary is honest about the different bills of the pages that were fetched. Where it calls
-- its coverage complete, it has no coverage error, all the expected pages were fetched and the
-- different bills are as many as the provider announced. Where it calls its role codes complete, its
-- coverage is complete too, both lists of codes of every different bill could be read, and its two
-- counts are those of the listed bills with the role of a lead and of a co-sponsor, which add up to
-- all of them; otherwise it gives neither count and no process results. It always counts the bills
-- that it lists, which are those on which the member has a role: the member's code is among the lead
-- codes, or else among the co-sponsors'.
pub stage-Honest :
    (o : Outside) (w : BillStager) (s : LegislativeActivitySummary)
    → stage o w ≡ ok s
    → (u : Unified) × Staged o w u × Honest u s
unfolding stage
stage-Honest o w s h =
    let (e1, h1) = past (w.policy.domain != host) _ h in
    let (u2, e2, h2) =
      >>=-eq-ok (raising denied (require_policy (some w.policy) PolicyAction.fetch)) _ h1 in
    let (first, e3, h3) = >>=-eq-ok (raising connector (fetch_page o w.connector 1)) _ h2 in
    let total = metadata_int o first.0.metadata "list_total_count" in
    let size = or_size (metadata_int o first.0.metadata "page_size") w.connector.page_size in
    let (fetched, e4, h4) = >>=-eq-ok (collect o w first.1 total size) _ h3 in
    let (unified, e5, h5) = >>=-eq-ok (unify_pages fetched.1.page_records [] _) _ h4 in
    (
      unified,
      record {
        first = first;
        first_page = raising-ok connector _ e3;
        fetched = fetched;
        collected = e4;
        unified = e5;
      },
      subst (Honest unified) (ok-injective h5) (
          summarize-Honest w total fetched.0 (length fetched.1.page_records) unified
            (no_total-collect o w first.1 total size e4)),
    )
