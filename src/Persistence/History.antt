-- ===== src/Persistence/History.antt =====
-- packages/persistence/repository.py: the calls on collection runs, in any order, as steps.
pub mod Accounts
pub mod Frozen
pub mod Resume
use civic_intel.Prelude.{
  ℕ, zero, suc, ◌+◌, ◌-◌, ◌*◌, ◌/◌, ◌%◌, ◌≤◌, ◌<◌, String, ◌≡◌, refl, sym, ap, subst, ◌∙◌, ◌≢◌, ◌↔◌,
  ◌⊎◌, inl, inr, Bool, true, false, not, ◌&&◌, ◌||◌, Option, none, some, List, [], ◌∷◌, ◌++◌, map,
  arith, ltb, leb, nat_beq, if◌then◌else◌, ltb→lt, lt→ltb, leb→le, nat_beq_iff, Bool-cases,
  Option-cases, Eq, ◌==◌, ◌!=◌, string_eq, bool_beq, bool_beq_iff, bool_eq, nat_eq, coded_eq,
  ==-refl, eq_of_==, ==-comm, option_beq, option_beq_iff, option_eq, pair_beq, pair_beq_iff,
  pair_eq, list_beq, list_beq_iff, list_eq, length, is_empty, any, all, keep, find_first, or_else,
  find_last, update_where, length-append, is_empty-append, is_empty-append_split, any-append,
  length-keep-le, contains, has_duplicates, overlaps, unseen, ordered_unique, contains-append,
  Result, ◌>>=◌, ◌>>◌, raise_if, raising, succeeds, >>=-eq-ok, ok-injective, past, Every,
  Every-bind, Result-cases, All, Exists, In, all_sound, all_complete, any_sound, any_complete,
  All-In, In-of_contains, contains_of_In, not_any_sound, not_any_complete, !=_iff, not-contains_iff,
  contains-unseen, has_duplicates-unseen, contains-ordered_unique, has_duplicates-ordered_unique,
  is_empty-ordered_unique, overlaps_comm, length-le_of_subset, contains-keep, has_duplicates-keep,
  intersection, length-intersection_comm, TwoShared, TwoShared-iff, two_values_iff, ok, err,
}
use civic_intel.Prelude.Texts.{Unicode}
use civic_intel.Domain.Enums.{SourceRunStatus, source_run_status_eq}
use civic_intel.Domain.Contracts.Base.{Uuid, Time, Metadata}
use civic_intel.Domain.Contracts.Collection.{SourceRun, validate_source_run}
use civic_intel.Persistence.Store.{
  Store, StoreError, run_contract, new_run, cursor_of, run_with, find_run, start_source_run,
  finish_source_run, finish_found, finished, is_terminal, holds_credentials, source_checkpoint,
}
use civic_intel.Persistence.Page.{Page, BatchPageCommitResult, commit_source_page}

-- A call that returns, and the store it leaves.
pub data Step (u : Unicode) : Store → Store → Type 0 where
  starts :
      (id : Uuid) (now : Time) (metadata : Metadata) (feeder scope : String) (run : SourceRun)
      (s after : Store)
      → start_source_run id now metadata feeder scope s ≡ ok (run, after)
      → Step u s after
  finishes :
      (now : Time) (id : Uuid) (status : SourceRunStatus) (code summary : Option String)
      (run : SourceRun) (s after : Store)
      → finish_source_run u now id status code summary s ≡ ok (run, after)
      → Step u s after
  commits :
      (page : Page) (result : BatchPageCommitResult) (s after : Store)
      → commit_source_page page s ≡ ok (result, after)
      → Step u s after

pub data Reach (u : Unicode) (s : Store) : Store → Type 0 where
  here : Reach u s s
  then_step : (mid after : Store) → Reach u s mid → Step u mid after → Reach u s after

-- A run that starts: it is new, it is running, and nothing is counted.
pub record Started (id : Uuid) (feeder scope : String) (run : SourceRun) (s after : Store)
    : Type 0 where
  pub fresh : any (run_with id) s.runs ≡ false
  pub named : run.id ≡ id
  pub placed : (run.feeder ≡ feeder) × (run.scope_key ≡ scope)
  pub live : run.status ≡ SourceRunStatus.running
  pub resumes : run.checkpoint_before ≡ cursor_of (source_checkpoint s feeder scope)
  pub open_ended : run.finished_at ≡ none
  pub unmarked : run.checkpoint_after ≡ none
  pub uncounted :
      (run.records_seen ≡ 0) × (run.observations_created ≡ 0) × (run.observations_unchanged ≡ 0)
  pub runs : after.runs ≡ s.runs ++ run ∷ []
  pub observations : after.observations ≡ s.observations

pub start_source_run-Started :
    (id : Uuid) (now : Time) (metadata : Metadata) (feeder scope : String) (run : SourceRun)
    (s after : Store)
    → start_source_run id now metadata feeder scope s ≡ ok (run, after)
    → Started id feeder scope run s after
unfolding start_source_run
start_source_run-Started id now metadata feeder scope run s after h =
    let made =
      new_run id now metadata feeder scope (cursor_of (source_checkpoint s feeder scope)) in
    let next = record s { runs = s.runs ++ made ∷ [] } in
    let (ready, h1) = past (not s.schema_ready) _ h in
    let (valid, v, h2) = >>=-eq-ok (raising run_contract (validate_source_run feeder scope)) _ h1 in
    let (free, h3) = past (any (run_with id) s.runs) _ h2 in
    let one : made ≡ run = ap (λ (z : SourceRun × Store). z.0) (ok-injective h3) in
    let two : next ≡ after = ap (λ (z : SourceRun × Store). z.1) (ok-injective h3) in
    subst (λ (r : SourceRun). Started id feeder scope r s after) one
      (subst (Started id feeder scope made s) two (record {
        fresh = free;
        named = refl;
        placed = (refl, refl);
        live = refl;
        resumes = refl;
        open_ended = refl;
        unmarked = refl;
        uncounted = (refl, refl, refl);
        runs = refl;
        observations = refl;
      }))

-- A run that finishes: it was running, and takes a terminal status.
pub record Finished (now : Time) (id : Uuid) (status : SourceRunStatus)
    (code summary : Option String) (run : SourceRun) (s after : Store) : Type 0 where
  pub before : SourceRun
  pub found : find_run s id ≡ some before
  pub was_live : before.status ≡ SourceRunStatus.running
  pub terminal : is_terminal status ≡ true
  pub closed : run ≡ finished status now code summary before
  pub runs : after.runs ≡ update_where (run_with id) (finished status now code summary) s.runs
  pub observations : after.observations ≡ s.observations

finish_found-Finished :
    (now : Time) (id : Uuid) (status : SourceRunStatus) (code summary : Option String)
    (run : SourceRun) (s after : Store)
    → is_terminal status ≡ true
    → (found : Option SourceRun) → find_run s id ≡ found
    → finish_found (finished status now code summary) id found s ≡ ok (run, after)
    → Finished now id status code summary run s after
unfolding finish_found
finish_found-Finished now id status code summary run s after terminal none same h = cc
finish_found-Finished now id status code summary run s after terminal (some r) same h =
    let close = finished status now code summary in
    elim (Bool-cases (r.status == SourceRunStatus.running)) [
      | inr f ↦ absurd (ground (arith, h, f))
      | inl t ↦
          let one : close r ≡ run = ground (arith, h, t) in
          let two : record s { runs = update_where (run_with id) close s.runs } ≡ after =
            ground (arith, h, t) in
          subst (Finished now id status code summary run s) two (record {
            before = r;
            found = same;
            was_live = eq_of_== _ _ t;
            terminal = terminal;
            closed = sym one;
            runs = refl;
            observations = refl;
          })
    ]

pub finish_source_run-Finished :
    (u : Unicode) (now : Time) (id : Uuid) (status : SourceRunStatus) (code summary : Option String)
    (run : SourceRun) (s after : Store)
    → finish_source_run u now id status code summary s ≡ ok (run, after)
    → Finished now id status code summary run s after
unfolding finish_source_run
finish_source_run-Finished u now id status code summary run s after h =
    elim (Bool-cases (is_terminal status)) [
      | inr f ↦ absurd (ground (arith, h, f))
      | inl terminal ↦ elim (Bool-cases (holds_credentials u summary)) [
        | inl t ↦ absurd (ground (arith, h, terminal, t))
        | inr safe ↦
            finish_found-Finished now id status code summary run s after terminal (find_run s id)
              refl (ground (arith, h, terminal, safe))
      ]
    ]
