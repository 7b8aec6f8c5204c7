-- ===== src/Connectors/AssemblyBills/Redaction.antt =====
-- packages/connectors/open_assembly_bills.py: what a fetched document holds of the answer.
use civic_intel.Prelude.{
  String, ◌≡◌, refl, sym, ap, subst, ◌⊎◌, inl, inr, true, false, Option, none, some, [], ◌∷◌,
  if◌then◌else◌, Bool-cases, string_eq, bool_eq, nat_eq, option_eq, pair_eq, list_eq, >>=-eq-ok,
  ok-injective, In, In-of_contains, contains_of_In, ok,
}
use civic_intel.Prelude.Dict.{Dict, insert}
use civic_intel.Domain.Contracts.Base.{
  Json, Items, Fields, null, boolean, number, negative, text, array, object, nil, cons, end, field,
}
use civic_intel.Connectors.Base.{ConnectorDocument, Outside}
use civic_intel.Connectors.AssemblyBills.Rows.{response_parts}
use civic_intel.Connectors.AssemblyBills.Client.{
  AssemblyBillConnector, names_credential, redact_credentials, redact_items, redact_fields, fetch,
  validated_query, credential, answered, base_url,
}

-- The name of a field that could hold a credential.
abbrev pub IsSecret : Outside → String → Type 0
IsSecret o k = In (o.unicode.casefold k) ("key" ∷ "authkey" ∷ [])

IsSecret-sound : (o : Outside) (k : String) → names_credential o k ≡ true → IsSecret o k
IsSecret-sound o k h = In-of_contains (o.unicode.casefold k) ("key" ∷ "authkey" ∷ []) h

IsSecret-complete : (o : Outside) (k : String) → names_credential o k ≡ false → ¬ IsSecret o k
IsSecret-complete o k h i = cc (h, contains_of_In (o.unicode.casefold k) ("key" ∷ "authkey" ∷ []) i)

-- The second value is the first without the fields, at any depth, that have a secret's name: nothing
-- else is left out, and nothing is added or moved.
unfoldable mutual
  pub Pruned : Outside → Json → Json → Type 0
  Pruned o (array items) r = (kept : Items) × (r ≡ array kept) × PrunedItems o items kept
  Pruned o (object fields) r = (kept : Fields) × (r ≡ object kept) × PrunedFields o fields kept
  Pruned o null r = r ≡ null
  Pruned o (boolean b) r = r ≡ boolean b
  Pruned o (number n) r = r ≡ number n
  Pruned o (negative n) r = r ≡ negative n
  Pruned o (text s) r = r ≡ text s

  pub PrunedItems : Outside → Items → Items → Type 0
  PrunedItems o nil r = r ≡ nil
  PrunedItems o (cons j items) r =
      (kept : Json) × (rest : Items) × (r ≡ cons kept rest)
      × Pruned o j kept
      × PrunedItems o items rest

  pub PrunedFields : Outside → Fields → Fields → Type 0
  PrunedFields o end r = r ≡ end
  PrunedFields o (field k j fields) r =
      (IsSecret o k × PrunedFields o fields r)
      ⊎ ((¬ IsSecret o k)
          × (kept : Json) × (rest : Fields) × (r ≡ field k kept rest)
          × Pruned o j kept
          × PrunedFields o fields rest)

mutual
  unfolding Pruned redact_credentials

  redact_credentials-Pruned : (o : Outside) (j : Json) → Pruned o j (redact_credentials o j)
  redact_credentials-Pruned o null = refl
  redact_credentials-Pruned o (boolean b) = refl
  redact_credentials-Pruned o (number n) = refl
  redact_credentials-Pruned o (negative n) = refl
  redact_credentials-Pruned o (text s) = refl
  redact_credentials-Pruned o (array items) =
      (redact_items o items, refl, redact_items-Pruned o items)
  redact_credentials-Pruned o (object fields) =
      (redact_fields o fields, refl, redact_fields-Pruned o fields)

  redact_items-Pruned : (o : Outside) (items : Items) → PrunedItems o items (redact_items o items)
  redact_items-Pruned o nil = refl
  redact_items-Pruned o (cons j items) = (
    redact_credentials o j,
    redact_items o items,
    refl,
    redact_credentials-Pruned o j,
    redact_items-Pruned o items,
  )

  redact_fields-Pruned :
      (o : Outside) (fields : Fields) → PrunedFields o fields (redact_fields o fields)
  redact_fields-Pruned o end = refl
  redact_fields-Pruned o (field k j fields) =
      let rest = redact_fields o fields in
      elim (Bool-cases (names_credential o k)) [
        | inl e ↦
            subst
              (λ t.
                PrunedFields o (field k j fields)
                  (if t then rest else field k (redact_credentials o j) rest))
              (sym e) (inl (IsSecret-sound o k e, redact_fields-Pruned o fields))
        | inr e ↦
            subst
              (λ t.
                PrunedFields o (field k j fields)
                  (if t then rest else field k (redact_credentials o j) rest))
              (sym e)
              (inr (
                IsSecret-complete o k e,
                redact_credentials o j,
                rest,
                refl,
                redact_credentials-Pruned o j,
                redact_fields-Pruned o fields,
              ))
      ]

-- What a document holds of the answer to a request.
pub record Relays (o : Outside) (c : AssemblyBillConnector) (url : String)
    (document : ConnectorDocument) : Type 0 where
  pub same_url : document.url ≡ url
  pub query : Dict String String
  pub key : String
  pub asked : validated_query o url ≡ ok query
  pub authorized : credential o c ≡ ok key
  pub answer : Fields
  pub answers : o.http_get base_url (insert "KEY" key query) ≡ some (object answer)
  pub payload : Fields
  pub printed : document.body ≡ o.json_dumps true false (object payload)
  pub pruned : PrunedFields o answer payload

answered-object :
    (j : Option Json) {fields : Fields} → answered j ≡ ok fields → j ≡ some (object fields)
answered-object none h = cc
answered-object (some (object payload)) h = ap (λ q. some (object q)) (ok-injective h)
answered-object (some null) h = cc
answered-object (some (boolean b)) h = cc
answered-object (some (number n)) h = cc
answered-object (some (negative n)) h = cc
answered-object (some (text s)) h = cc
answered-object (some (array items)) h = cc

-- A document that is fetched is what the network answers to the URL's query with the key: its body
-- prints the answer without the fields, at any depth, that are named like a credential, and with all
-- the others as they are. Its URL is the one that was asked for.
pub fetch-Relays :
    (o : Outside) (c : AssemblyBillConnector) (url : String) (document : ConnectorDocument)
    → fetch o c url ≡ ok document
    → Relays o c url document
unfolding fetch
fetch-Relays o c url document h =
    let (query, e1, h1) = >>=-eq-ok (validated_query o url) _ h in
    let (key, e2, h2) = >>=-eq-ok (credential o c) _ h1 in
    let (answer, e3, h3) =
      >>=-eq-ok (answered (o.http_get base_url (insert "KEY" key query))) _ h2 in
    let (parts, e4, h4) = >>=-eq-ok (response_parts o (redact_fields o answer)) _ h3 in
    record {
      same_url = sym (ap (λ (d : ConnectorDocument). d.url) (ok-injective h4));
      query = query;
      key = key;
      asked = e1;
      authorized = e2;
      answer = answer;
      answers = answered-object _ e3;
      payload = redact_fields o answer;
      printed = sym (ap (λ (d : ConnectorDocument). d.body) (ok-injective h4));
      pruned = redact_fields-Pruned o answer;
    }
