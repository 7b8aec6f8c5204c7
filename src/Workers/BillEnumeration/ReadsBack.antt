-- ===== src/Workers/BillEnumeration/ReadsBack.antt =====
-- workers/legislative_activity.py: an enumeration that resumes takes up the state of the last page.
use civic_intel.Prelude.{
  ℕ, ◌+◌, ◌≤◌, String, ◌≡◌, refl, sym, ap, subst, ◌∙◌, inl, inr, Bool, true, false, Option, some,
  List, [], ◌∷◌, ◌++◌, arith, ltb, if◌then◌else◌, Bool-cases, ◌==◌, string_eq, bool_eq, nat_eq,
  ==-refl, option_eq, pair_eq, any, find_first, update_where, ok, err,
}
use civic_intel.Prelude.Dict.{Dict}
use civic_intel.Prelude.Integers.{ℤ, pos, int_eq, str_nat}
use civic_intel.Prelude.Integers.Read.{int_of-str_nat}
use civic_intel.Domain.Contracts.Base.{Uuid, Json}
use civic_intel.Domain.Contracts.Collection.{SourceRun, SourceCheckpoint}
use civic_intel.Persistence.Store.{Store, scope_is, find_run, source_checkpoint}
use civic_intel.Persistence.Page.{
  Page, BatchPageCommitResult, commit_source_page, store_checkpoint, moved_checkpoint,
  new_checkpoint,
}
use civic_intel.Persistence.Page.Written.{commit_source_page-Committed}
use civic_intel.Connectors.Base.{Outside, to_fields, to_items, int_json, str_json}
use civic_intel.Connectors.AssemblyBills.Client.{AssemblyBillConnector}
use civic_intel.Workers.BillEnumeration.Resume.{
  Beginning, beginning, resume_from, read_checkpoint, of_fields, of_items, int_at,
}
use civic_intel.Workers.BillEnumeration.Examine.{Examined, examine, checkpoint_metadata}
use civic_intel.Workers.BillEnumeration.Prepared.{examine-Prepared}
use civic_intel.Workers.BillEnumeration.{already_covered, Progress, Fresh, BillEnumerator}

of_fields-to_fields : (d : Dict String Json) → of_fields (to_fields d) ≡ d
of_fields-to_fields [] = refl
of_fields-to_fields ((k, v) ∷ d) = ap (λ rest. (k, v) ∷ rest) (of_fields-to_fields d)

of_items-to_items : (js : List Json) → of_items (to_items js) ≡ js
of_items-to_items [] = refl
of_items-to_items (j ∷ js) = ap (λ rest. j ∷ rest) (of_items-to_items js)

-- The state that a checkpoint of the page `n` stands for.
abbrev pub taken_up : ℕ → ℕ → ℕ → Dict String Json → List Json → Beginning
taken_up n total pages seen fingerprints = record {
  start_page = pos (n + 1);
  progress = record {
    expected = some (pos total, pos pages);
    seen_hashes = seen;
    page_fingerprints = fingerprints;
    pages_committed = 0;
  };
}

read_checkpoint-written :
    (o : Outside) (c : AssemblyBillConnector) (n total pages : ℕ) (seen : Dict String Json)
    (fingerprints : List Json)
    → read_checkpoint o c (str_nat n) (checkpoint_metadata c total pages seen fingerprints) ≡ (
        if ltb pages (n + 1)
        then err already_covered
        else ok (taken_up n total pages seen fingerprints))
unfolding read_checkpoint int_at int_json str_json
read_checkpoint-written o c n total pages seen fingerprints =
    let size = ==-refl c.page_size in
    let age = ==-refl c.assembly_age in
    let fields = of_fields-to_fields seen in
    let items = of_items-to_items fingerprints in
    elim (Bool-cases (ltb pages (n + 1))) [
      | inl e ↦ simp (int_of-str_nat o.unicode n, fields, items, size, age, e)
      | inr e ↦ simp (int_of-str_nat o.unicode n, fields, items, size, age, e)
    ]

module _ (page : Page) (feeder scope : String) where
  -- The checkpoint of the scope, with the page's cursor and metadata.
  pub record Marks (found : Option SourceCheckpoint) : Type 0 where
    pub prior : SourceCheckpoint
    pub same : found ≡ some prior
    pub cursor : prior.cursor ≡ some page.cursor
    pub metadata : prior.metadata ≡ page.checkpoint_metadata

  moved_Marks :
      (rows : List SourceCheckpoint)
      → any (scope_is feeder scope) rows ≡ true
      → Marks (
          find_first
            (scope_is feeder scope)
            (update_where (scope_is feeder scope) (moved_checkpoint page) rows))
  moved_Marks [] h = cc
  moved_Marks (c ∷ rows) h = elim (Bool-cases (scope_is feeder scope c)) [
    | inl t ↦ record {
      prior = moved_checkpoint page c;
      same = ground (arith, t);
      cursor = refl;
      metadata = refl;
    }
    | inr f ↦
        let m = moved_Marks rows (ground (arith, f, h)) in
        record {
          prior = m.prior;
          same = ground (arith, f, m.same);
          cursor = m.cursor;
          metadata = m.metadata;
        }
  ]

found_last :
    (p : SourceCheckpoint → Bool) (rows : List SourceCheckpoint) (c : SourceCheckpoint)
    → any p rows ≡ false
    → p c ≡ true
    → find_first p (rows ++ c ∷ []) ≡ some c
found_last p [] c h e = ground (arith, e)
found_last p (x ∷ rows) c h e = ground (arith, h, found_last p rows c (ground (arith, h)) e)

stored_Marks :
    (page : Page) (r : SourceRun) (rows : List SourceCheckpoint)
    → Marks page r.feeder r.scope_key
        (find_first (scope_is r.feeder r.scope_key) (store_checkpoint page r rows))
unfolding store_checkpoint
stored_Marks page r rows = elim (Bool-cases (any (scope_is r.feeder r.scope_key) rows)) [
  | inl t ↦ rw t (moved_Marks page r.feeder r.scope_key rows t)
  | inr f ↦ rw f (record {
    prior = new_checkpoint page r;
    same =
        found_last (scope_is r.feeder r.scope_key) rows (new_checkpoint page r) f
          (ground (arith, ==-refl r.feeder, ==-refl r.scope_key));
    cursor = refl;
    metadata = refl;
  })
]

last_or_next :
    {A : Type 0} (n pages : ℕ)
    → n ≤ pages
    → (a b : A) → (if ltb pages (n + 1) then a else b) ≡ (if n == pages then a else b)
last_or_next n pages due a b = elim (Bool-cases (n == pages)) [
  | inl e ↦ let past_end : ltb pages (n + 1) ≡ true = ground (arith, e) in simp (e, past_end)
  | inr e ↦
      let before_end : ltb pages (n + 1) ≡ false = ground (arith, e, due) in simp (e, before_end)
]

-- The page after `n`, on the state `p` of an enumeration that has committed no page itself.
abbrev pub beginning_at : ℕ → Progress → Beginning
beginning_at n p = record { start_page = pos (n + 1); progress = record p { pages_committed = 0 } }

-- After a page of an enumeration is committed, one that resumes on the feeder and scope of its run
-- finds a checkpoint there from which it takes up the state that follows the page: the next page,
-- the same expected total and pages, the same bills with their digests, and the same digests of
-- pages, with no page of its own; after the last expected page it refuses to go on.
pub resume-commit :
    (o : Outside) (w : BillEnumerator) (fresh : Fresh) (n : ℕ) (p : Progress) (x : Examined)
    (s after : Store) (result : BatchPageCommitResult) (run : SourceRun)
    → examine o w fresh run.id n p ≡ ok x
    → find_run s run.id ≡ some run
    → commit_source_page x.page s ≡ ok (result, after)
    → beginning o w.connector true (source_checkpoint after run.feeder run.scope_key) ≡ (
        if n == x.pages
        then err already_covered
        else ok
            (record { start_page = pos (n + 1); progress = record x.next { pages_committed = 0 } }))
unfolding source_checkpoint beginning resume_from
resume-commit o w fresh n p x s after result run ready found h =
    let prepared = examine-Prepared o w fresh run.id n p ready in
    let here = subst (λ (k : Uuid). find_run s k ≡ some run) (sym prepared.of_run) found in
    let c = commit_source_page-Committed x.page s result after h in
    let same : c.run ≡ run = ground (arith, here, c.found) in
    let stored =
      subst (Marks x.page c.run.feeder c.run.scope_key)
        (ap (find_first (scope_is c.run.feeder c.run.scope_key)) (sym c.written.checkpoint))
        (stored_Marks x.page c.run s.checkpoints) in
    let m =
      subst
        (λ (r : SourceRun).
          Marks x.page r.feeder r.scope_key
            (find_first (scope_is r.feeder r.scope_key) after.checkpoints))
        same stored in
    let c0 = w.connector in
    let seen = x.next.seen_hashes in
    let prints = x.next.page_fingerprints in
    let expected = ap (λ (q : Progress). q.expected) (sym prepared.moves) in
    let resumed = λ (e : Option (ℤ × ℤ)). beginning_at n (record x.next { expected = e }) in
    ap (beginning o c0 true) m.same
    ∙ ap (resume_from o c0 m.prior.metadata) (m.cursor ∙ ap some prepared.at_cursor)
    ∙ ap (read_checkpoint o c0 (str_nat n)) (m.metadata ∙ prepared.notes)
    ∙ read_checkpoint-written o c0 n x.total x.pages seen prints
    ∙ last_or_next n x.pages prepared.announces.due (err already_covered)
        (ok (resumed (some (pos x.total, pos x.pages))))
    ∙ ap (λ e. if n == x.pages then err already_covered else ok (resumed e)) expected
