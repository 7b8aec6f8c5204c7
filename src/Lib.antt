-- ===== src/Lib.antt =====
-- Civic Intel keeps public records about people and organizations: feeders collect provider
-- records under a source policy, observations are attributed to people, claims cite evidence,
-- and gates decide what is published. This library models the core of its Python packages.
--
-- Domain models packages/domain: Domain/Enums the enumerations of enums.py, Domain/Contracts the
-- records of contracts.py with their validators. A validator is a function into Result, which is
-- the error of the first check that fails, in the order in which the code runs the checks.
--
-- Domain/WorkOrders models work_orders.py (WorkOrderRequest.validate_selection).
--
-- Verification models packages/verification, pure decisions over the contracts: Policy is
-- policy.py (require_policy), Claims is claims.py (is_atomic in Claims/Atomic,
-- validate_claim_publication in Claims/Gate, the gates of relationships, patterns and hypotheses
-- in Claims/Other), Identity is identity.py (resolve_identity), CrossLane is
-- cross_lane_identity.py (resolve_cross_lane_identity), Materialization is materialization.py
-- (decide_materialization), ProfileTarget is profile_target.py (build_profile_research_target)
-- and Onboarding is person_onboarding.py (ReviewedPersonBundle). The gate of claims asks Policy
-- about each source, a profile target asks CrossLane about each link, and a bundle holds such a
-- target.
--
-- Persistence models packages/persistence/repository.py over an explicit store of tables.
-- Persistence/Store has start_source_run, finish_source_run and source_policy_semantics_equal,
-- Persistence/Page has commit_source_page, in the order of its queries and writes, and
-- Persistence/History takes the three calls as steps, in any order. A call that raises is rolled
-- back, so it has an exception and no store. Persistence/Materialize has
-- materialize_feeder_observation, which asks Materialization for the decision and the gate of
-- claims before it publishes. Rows keep the order of their insertion; the primary keys that the
-- tables of packages/domain/db.py declare are checked where a row is added.
--
-- Connectors models packages/connectors: Connectors/Base is base.py with the record Outside, which
-- holds what connectors and workers call beyond the repository (the network, the environment, URLs,
-- JSON texts, digests), and Connectors/AssemblyBills is open_assembly_bills.py: the texts of a row
-- in AssemblyBills/Texts, the provider's answer in AssemblyBills/Rows (_response_parts,
-- parse_bills), the requests and the redaction of credentials in AssemblyBills/Client
-- (OpenAssemblyBillConnector) and the reviewed policy in AssemblyBills/Reviewed.
--
-- Workers models workers: Ingest is ingest.py (ingest_document), and BillEnumeration is
-- AssemblyBillParticipationEnumerator of legislative_activity.py. BillEnumeration/Bills has the
-- normalized bills, BillEnumeration/Resume the reading of a checkpoint, Announced, Hashes and
-- Examine one round of the loop up to its commit, and BillEnumeration/Run the loop over the pages
-- and the run around it. It fetches with Connectors, asks Policy, and starts, commits to and
-- finishes a run of Persistence; an exception is a value beside the store that it leaves.
-- Prepared, Keeps, Live, Amounts, Begins and Counting hold the lemmas of its theorems. BillStaging
-- is LegislativeActivityStager of the same file: its pages, BillStaging/Unify the different records
-- of the pages and BillStaging/Summary the summary of a member (stage).
--
-- Verification/BillParticipation models build_assembly_legislative_activity_bundle of
-- packages/verification/assembly_legislative_activity.py: the claim and evidence that a member took
-- part in a bill, from the observation that an enumeration stored. It asks Policy and the gate of
-- Verification/Claims.
--
-- Rendering/ChangeTrace models packages/rendering/change_projection.py
-- (build_source_neutral_change_trace), which compares two published claims for a page.
--
-- Tests runs the definitions on small inputs and applies each theorem there.
--
-- Parameters: the digest of a change trace is a function that the caller gives; the functions of
-- the record Outside in Connectors/Base; the tables of Unicode (case folding, letters, decimals) and
-- Python's reader of ISO dates are the record Unicode in Prelude/Texts, of which nothing is assumed
-- but, where a theorem says so, how one summary folds its case; identifiers and times that the code
-- makes itself are arguments. Identifiers, times and dates are natural numbers; the integers that
-- Python reads from texts are the type ℤ of Prelude/Integers, with str and int, without Python's
-- limit on the number of digits. JSON numbers are integers.
--
-- Recursion is structural but for the loop over the pages, which has max_pages + 1 rounds of fuel:
-- it goes on only to a page that is expected, and the expected pages are max_pages at most. The
-- quotient that the loop rounds up is exact, where Python rounds a float.
--
-- Not modelled: the publisher that stores participation claims, queries that only read, the
-- mapping to SQL, concurrent transactions, the other feeders with their connectors and workers,
-- the command lines and the dictionaries that they print, the other projections of rendering, the
-- HTTP interface and the web site, and the import, batch and review operations of the repository.
pub mod Prelude
pub mod Domain
pub mod Verification
pub mod Persistence
pub mod Connectors
pub mod Workers
pub mod Rendering
pub mod Tests
