-- ===== src/Verification/BillParticipation/Attested.antt =====
-- packages/verification/assembly_legislative_activity.py: what a claim of participation rests on.
use Prim.Native.String.{◌++◌ as ◌then◌}
use civic_intel.Prelude.{
  String, ◌≡◌, refl, sym, ap, subst, ◌∙◌, Bool, true, false, not, Option, none, some, List, [], ◌∷◌,
  arith, if◌then◌else◌, ◌==◌, ◌!=◌, string_eq, bool_eq, nat_eq, option_eq, pair_eq, list_eq,
  contains, overlaps, raise_if, raising, >>=-eq-ok, ok-injective, past, In, !=_iff,
  not-contains_iff, ok,
}
use civic_intel.Prelude.Texts.{strip, blank}
use civic_intel.Prelude.Dict.{Dict, lookup, insert, lookup-insert}
use civic_intel.Domain.Enums.{IdentityStatus, identity_status_eq}
use civic_intel.Domain.Contracts.Base.{Metadata}
use civic_intel.Domain.Contracts.Evidence.{
  Person, SourcePolicy, Source, Claim, ClaimEvidence, validate_claim,
}
use civic_intel.Domain.Contracts.Collection.{FeederObservation}
use civic_intel.Verification.Policy.{PolicyAction, require_policy}
use civic_intel.Verification.Claims.Gate.{person}
use civic_intel.Verification.Claims.Gate.Spec.{Publishable, validate_claim_publication-Publishable}
use civic_intel.Connectors.Base.{Outside}
use civic_intel.Verification.BillParticipation.{
  add_optionals, optional_keys, fixed_values, optional_text, ActivityError, Uuids, required_text,
  code_list, qualifier_values, lead_role, co_role, activity_claim, activity_evidence, passes_gate,
  role_codes, in_scope, is_semantics, check_participation,
  build_assembly_legislative_activity_bundle,
}

not_raised :
    (test : Bool) (e : ActivityError) {u : Unit {0}} → raise_if test e ≡ ok u → test ≡ false
not_raised true e h = cc
not_raised false e h = refl

unnot : (test : Bool) → not test ≡ false → test ≡ true
unnot true h = refl
unnot false h = cc

-- The member has the role on the bill, by the codes that the observation lists.
pub record Listed (b : FeederObservation) (participation_role mona_cd : String) : Type 0 where
  pub leads : List String
  pub co_sponsors : List String
  pub lists_leads : code_list b.normalized "representative_proposer_codes" ≡ ok leads
  pub lists_co_sponsors : code_list b.normalized "co_proposer_codes" ≡ ok co_sponsors
  pub apart : overlaps leads co_sponsors ≡ false
  pub has_lead : participation_role ≡ "REPRESENTATIVE_PROPOSER" → In mona_cd leads
  pub has_co : participation_role ≡ "CO_PROPOSER" → In mona_cd co_sponsors

lists_lead :
    (participation_role mona_cd : String) (lead co : List String)
    → participation_role ≡ "REPRESENTATIVE_PROPOSER"
    → In mona_cd (role_codes participation_role lead co)
    → In mona_cd lead
lists_lead participation_role mona_cd lead co t found = rw t at found

lists_co :
    (participation_role mona_cd : String) (lead co : List String)
    → participation_role ≡ "CO_PROPOSER"
    → In mona_cd (role_codes participation_role lead co)
    → In mona_cd co
lists_co participation_role mona_cd lead co t found = rw t at found

pub record Attested (o : Outside) (p : Person) (b : FeederObservation) (source : Source)
    (policy : SourcePolicy) (participation_role mona_cd : String) (c : Claim) (e : ClaimEvidence)
    : Type 0 where
  pub resolved : p.identity_status ≡ IdentityStatus.resolved
  pub own_policy : source.policy_id ≡ policy.id
  pub of_bill : required_text b.normalized "bill_id" ≡ ok b.provider_record_key
  pub known_role : In participation_role ("REPRESENTATIVE_PROPOSER" ∷ "CO_PROPOSER" ∷ [])
  pub listed : Listed b participation_role mona_cd
  pub about : c.person_id ≡ some p.id
  pub named : required_text b.normalized "bill_name" ≡ ok c.object_text
  pub worded_lead :
      participation_role ≡ "REPRESENTATIVE_PROPOSER"
      → c.proposition
        ≡ p.canonical_name then ("는 국회 의안정보에서 「" then (c.object_text then "」의 대표 발의자로 기록되어 있다."))
  pub worded_co :
      participation_role ≡ "CO_PROPOSER"
      → c.proposition
        ≡ p.canonical_name then ("는 국회 의안정보에서 「" then (c.object_text then "」의 공동 발의자로 기록되어 있다."))
  pub qualified : lookup "participation_role" c.qualifiers ≡ some participation_role
  pub coded : lookup "provider_person_key" c.qualifiers ≡ some mona_cd
  pub of_claim : e.claim_id ≡ c.id
  pub cites : e.feeder_observation_id ≡ some b.id
  pub passes :
      Publishable o.unicode c
        (person p)
        (e ∷ [])
        ((source.id, source) ∷ [])
        ((policy.id, policy) ∷ [])

module _ (u : Uuids) (p : Person) (b : FeederObservation) (participation_role mona_cd : String)
    (bill_name : String) (qualifiers : Dict String String) where
  abbrev worded : String → String
  worded ending = p.canonical_name then ("는 국회 의안정보에서 「" then (bill_name then ending))

  worded_as_lead :
      participation_role ≡ "REPRESENTATIVE_PROPOSER"
      → (activity_claim u p b participation_role mona_cd bill_name qualifiers).proposition
        ≡ worded "」의 대표 발의자로 기록되어 있다."
  unfolding activity_claim
  worded_as_lead t = rw t refl

  worded_as_co :
      participation_role ≡ "CO_PROPOSER"
      → (activity_claim u p b participation_role mona_cd bill_name qualifiers).proposition
        ≡ worded "」의 공동 발의자로 기록되어 있다."
  unfolding activity_claim
  worded_as_co t = rw t refl

-- The optional qualifiers leave the others as they are.
add_optionals-same :
    (normalized : Metadata) (keys : List String) (values : Dict String String)
    {out : Dict String String} (key : String)
    → contains keys key ≡ false
    → add_optionals normalized keys values ≡ ok out
    → lookup key out ≡ lookup key values
unfolding add_optionals
add_optionals-same normalized [] values key other h =
    sym (ap (λ (d : Dict String String). lookup key d) (ok-injective h))
add_optionals-same normalized (k ∷ keys) values key other h =
    let (value, e1, h1) = >>=-eq-ok (optional_text normalized k) _ h in
    let differ : (k == key) ≡ false = ground (arith, other) in
    let rest : contains keys key ≡ false = ground (arith, other) in
    add_optionals-same normalized keys _ key rest h1 ∙ added value differ
  where
    added :
        (value : Option String)
        → (k == key) ≡ false
        → lookup key (elim value [ none ↦ values | some v ↦ insert k v values ]) ≡ lookup key values
    added none differ = refl
    added (some v) differ = rw (lookup-insert k key v values, differ) refl

qualifier_values-role :
    (o : Outside) (b : FeederObservation) (participation_role mona_cd : String)
    {out : Dict String String}
    → qualifier_values o b participation_role mona_cd ≡ ok out
    → (lookup "participation_role" out ≡ some participation_role)
      × (lookup "provider_person_key" out ≡ some mona_cd)
unfolding qualifier_values
qualifier_values-role o b participation_role mona_cd h =
    let (bill_id, e1, h1) = >>=-eq-ok (required_text b.normalized "bill_id") _ h in
    (
      add_optionals-same b.normalized optional_keys
          (fixed_values o b participation_role mona_cd bill_id) "participation_role" refl h1,
      add_optionals-same b.normalized optional_keys
          (fixed_values o b participation_role mona_cd bill_id) "provider_person_key" refl h1,
    )

module _ (o : Outside) (u : Uuids) (p : Person) (b : FeederObservation) (source : Source)
    (policy : SourcePolicy) (participation_role mona_cd : String) where
  record Checked : Type 0 where
    resolved : p.identity_status ≡ IdentityStatus.resolved
    own_policy : source.policy_id ≡ policy.id
    of_bill : required_text b.normalized "bill_id" ≡ ok b.provider_record_key
    known_role : In participation_role (lead_role ∷ co_role ∷ [])
    listed : Listed b participation_role mona_cd

  check_participation-Checked :
      {done : Unit {0}}
      → check_participation o u p b source policy participation_role mona_cd ≡ ok done
      → Checked
  unfolding check_participation
  check_participation-Checked h =
      let a = past (p.identity_status != IdentityStatus.resolved) _ h in
      let c = past (not (in_scope b)) _ a.1 in
      let d = past (source.policy_id != policy.id) _ c.1 in
      let (permitted, permits, f) =
        >>=-eq-ok
          (raising ActivityError.denied (require_policy (some policy) PolicyAction.store_metadata))
          _ d.1 in
      let (bill_id, read, g) = >>=-eq-ok (required_text b.normalized "bill_id") _ f in
      let i = past (bill_id != b.provider_record_key) _ g in
      let j = past (not (is_semantics (lookup "participation_semantics" b.normalized))) _ i.1 in
      let k = past (not (contains (lead_role ∷ co_role ∷ []) participation_role)) _ j.1 in
      let l = past (blank (strip mona_cd)) _ k.1 in
      let (lead, led, m) =
        >>=-eq-ok (code_list b.normalized "representative_proposer_codes") _ l.1 in
      let (co, coed, n) = >>=-eq-ok (code_list b.normalized "co_proposer_codes") _ m in
      let q = past (overlaps lead co) _ n in
      let found =
        (not-contains_iff (role_codes participation_role lead co) mona_cd).0 (not_raised _ _ q.1) in
      record {
        resolved = (!=_iff p.identity_status IdentityStatus.resolved).0 a.0;
        own_policy = (!=_iff source.policy_id policy.id).0 d.0;
        of_bill =
            subst (λ s. required_text b.normalized "bill_id" ≡ ok s)
              ((!=_iff bill_id b.provider_record_key).0 i.0) read;
        known_role = (not-contains_iff (lead_role ∷ co_role ∷ []) participation_role).0 k.0;
        listed = record {
          leads = lead;
          co_sponsors = co;
          lists_leads = led;
          lists_co_sponsors = coed;
          apart = q.0;
          has_lead = λ t. lists_lead participation_role mona_cd lead co t found;
          has_co = λ t. lists_co participation_role mona_cd lead co t found;
        };
      }

  -- A claim that the lane builds is about a resolved person and names the bill that the observation
  -- is of. The observation lists the member's code under the role that is asked for, and no code
  -- under both roles; the claim's wording and qualifiers are of this role and this code. The evidence
  -- is of the claim and cites the observation, the source is under the given policy, and the claim
  -- passes the publication gate.
  pub bundle-Attested :
      (c : Claim) (e : ClaimEvidence)
      → build_assembly_legislative_activity_bundle o u p b source policy participation_role mona_cd
        ≡ ok (c, e)
      → Attested o p b source policy participation_role mona_cd c e
  unfolding build_assembly_legislative_activity_bundle activity_claim
  bundle-Attested c e h =
      let (done, checked, h1) =
        >>=-eq-ok (check_participation o u p b source policy participation_role mona_cd) _ h in
      let (bill_name, read, h2) = >>=-eq-ok (required_text b.normalized "bill_name") _ h1 in
      let (qualifiers, qualified, h3) =
        >>=-eq-ok (qualifier_values o b participation_role mona_cd) _ h2 in
      let claim = activity_claim u p b participation_role mona_cd bill_name qualifiers in
      let (valid, validated, h4) =
        >>=-eq-ok (raising ActivityError.contract (validate_claim claim)) _ h3 in
      let evidence = activity_evidence u claim b source in
      let h5 =
        past (not (passes_gate o u p b source policy participation_role mona_cd claim evidence)) _
          h4 in
      let base = check_participation-Checked checked in
      subst
        (λ (built : Claim × ClaimEvidence).
          Attested o p b source policy participation_role mona_cd built.0 built.1)
        (ok-injective h5.1)
        (record {
          resolved = base.resolved;
          own_policy = base.own_policy;
          of_bill = base.of_bill;
          known_role = base.known_role;
          listed = base.listed;
          about = refl;
          named = read;
          worded_lead = worded_as_lead u p b participation_role mona_cd bill_name qualifiers;
          worded_co = worded_as_co u p b participation_role mona_cd bill_name qualifiers;
          qualified = (qualifier_values-role o b participation_role mona_cd qualified).0;
          coded = (qualifier_values-role o b participation_role mona_cd qualified).1;
          of_claim = refl;
          cites = refl;
          passes =
              (validate_claim_publication-Publishable o.unicode claim (person p) (evidence ∷ [])
                  ((source.id, source) ∷ []) ((policy.id, policy) ∷ [])).0
                (unnot _ h5.0);
        })
