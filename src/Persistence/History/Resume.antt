-- ===== src/Persistence/History/Resume.antt =====
-- packages/persistence/repository.py: where the next run of a feeder begins.
use civic_intel.Prelude.{
  String, ◌≡◌, refl, ap, subst, ◌∙◌, inl, inr, true, false, some, List, [], ◌∷◌, ◌++◌, arith,
  Bool-cases, string_eq, bool_eq, nat_eq, ==-refl, option_eq, pair_eq, any, find_first,
  update_where, ok,
}
use civic_intel.Domain.Contracts.Base.{Uuid, Time, Metadata}
use civic_intel.Domain.Contracts.Collection.{SourceRun, SourceCheckpoint}
use civic_intel.Persistence.Store.{
  Store, scope_is, find_run, cursor_of, source_checkpoint, start_source_run,
}
use civic_intel.Persistence.Page.{
  Page, BatchPageCommitResult, new_checkpoint, moved_checkpoint, store_checkpoint,
  commit_source_page,
}
use civic_intel.Persistence.Page.Written.{commit_source_page-Committed}
use civic_intel.Persistence.History.{start_source_run-Started}

module _ (page : Page) (feeder scope : String) where
  moved_cursor :
      (rows : List SourceCheckpoint)
      → any (scope_is feeder scope) rows ≡ true
      → cursor_of (
          find_first
            (scope_is feeder scope)
            (update_where (scope_is feeder scope) (moved_checkpoint page) rows))
        ≡ some page.cursor
  moved_cursor [] h = cc
  moved_cursor (c ∷ rows) h = elim (Bool-cases (scope_is feeder scope c)) [
    | inl t ↦ ground (arith, t)
    | inr f ↦ ground (arith, f, h, moved_cursor rows)
  ]

  added_cursor :
      (rows : List SourceCheckpoint) (new : SourceCheckpoint)
      → scope_is feeder scope new ≡ true
      → new.cursor ≡ some page.cursor
      → any (scope_is feeder scope) rows ≡ false
      → cursor_of (find_first (scope_is feeder scope) (rows ++ new ∷ [])) ≡ some page.cursor
  added_cursor [] new here cursor h = ground (arith, here, cursor)
  added_cursor (c ∷ rows) new here cursor h = ground (arith, h, added_cursor rows new here cursor)

stored_cursor :
    (page : Page) (r : SourceRun) (rows : List SourceCheckpoint)
    → cursor_of (find_first (scope_is r.feeder r.scope_key) (store_checkpoint page r rows))
      ≡ some page.cursor
unfolding store_checkpoint
stored_cursor page r rows = elim (Bool-cases (any (scope_is r.feeder r.scope_key) rows)) [
  | inl t ↦ rw t (moved_cursor page r.feeder r.scope_key rows t)
  | inr f ↦ rw f (
      added_cursor page r.feeder r.scope_key rows (new_checkpoint page r)
        (ground (arith, ==-refl r.feeder, ==-refl r.scope_key)) refl f)
]

-- A run that starts on the store that a committed page leaves, for the feeder and the scope of the
-- page's run, begins at the cursor of that page.
pub start_source_run-commit_source_page :
    (page : Page) (s after next : Store) (result : BatchPageCommitResult) (before run : SourceRun)
    (id : Uuid) (now : Time) (metadata : Metadata)
    → find_run s page.run_id ≡ some before
    → commit_source_page page s ≡ ok (result, after)
    → start_source_run id now metadata before.feeder before.scope_key after ≡ ok (run, next)
    → run.checkpoint_before ≡ some page.cursor
unfolding source_checkpoint
start_source_run-commit_source_page page s after next result before run id now metadata found
      committed started =
    let c = commit_source_page-Committed page s result after committed in
    let b =
      start_source_run-Started id now metadata before.feeder before.scope_key run after next
        started in
    let same : c.run ≡ before = ground (arith, found, c.found) in
    let stored =
      ap
        (λ (rows : List SourceCheckpoint).
          cursor_of (find_first (scope_is c.run.feeder c.run.scope_key) rows))
        c.written.checkpoint
      ∙ stored_cursor page c.run s.checkpoints in
    b.resumes
    ∙ subst
        (λ (r : SourceRun).
          cursor_of (find_first (scope_is r.feeder r.scope_key) after.checkpoints)
          ≡ some page.cursor)
        same stored
