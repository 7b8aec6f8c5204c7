-- ===== src/Verification/Identity/Laws.antt =====
-- packages/verification/identity.py: when an identity is resolved.
use civic_intel.Prelude.{
  ◌≤◌, String, ◌≡◌, refl, sym, subst, ◌↔◌, ◌⊎◌, inl, inr, true, false, Option, none, some, List, [],
  ◌∷◌, map, arith, Bool-cases, nat_eq, string_eq, bool_eq, ==-refl, eq_of_==, option_eq, pair_eq,
  length, contains, overlaps, In, In-of_contains, contains_of_In, TwoShared, TwoShared-iff,
}
use civic_intel.Prelude.Texts.{Unicode, blank}
use civic_intel.Domain.Contracts.Base.{Date}
use civic_intel.Domain.Enums.{IdentityStatus}
use civic_intel.Verification.Identity.{
  IdentityCandidate, IdentityDecision, Context, agrees, is_agreement, names, compare_context,
  anchor_overlap, resolve_by_context, resolve_by_birth, resolve_identity,
}

module _ (u : Unicode) where
  -- Both texts are there, and agree up to letter case.
  pub record Agree (l r : Option String) : Type 0 where
    pub left : String
    pub right : String
    pub left_is : l ≡ some left
    pub right_is : r ≡ some right
    pub left_filled : blank left ≡ false
    pub right_filled : blank right ≡ false
    pub same : u.casefold left ≡ u.casefold right

  -- A name that both go by.
  pub record NamesMeet (a b : IdentityCandidate) : Type 0 where
    pub name : String
    pub left : In name (names u a)
    pub right : In name (names u b)

  -- Office and organization agree, or one of them and two career anchors.
  abbrev pub ContextMeets : IdentityCandidate → IdentityCandidate → Type 0
  ContextMeets a b =
      (Agree a.office b.office × Agree a.organization b.organization)
      ⊎ (TwoShared (map u.casefold a.career_anchors) (map u.casefold b.career_anchors)
          × (Agree a.office b.office ⊎ Agree a.organization b.organization))

  -- The birth dates are known and equal; where one is unknown, the context must do.
  abbrev pub EvidenceMeets :
      IdentityCandidate → IdentityCandidate → Option Date → Option Date → Type 0
  EvidenceMeets a b (some d) (some d') = d ≡ d'
  EvidenceMeets a b (some d) none = ContextMeets a b
  EvidenceMeets a b none birth = ContextMeets a b

  Agree-of_context : (l r : Option String) → is_agreement (compare_context u l r) ≡ true → Agree l r
  unfolding compare_context
  Agree-of_context none r h = cc
  Agree-of_context (some l) none h = cc
  Agree-of_context (some l) (some r) h = record {
    left = l;
    right = r;
    left_is = refl;
    right_is = refl;
    left_filled = ground arith;
    right_filled = ground arith;
    same = eq_of_== _ _ (ground arith);
  }

  context_of_Agree : (l r : Option String) → Agree l r → is_agreement (compare_context u l r) ≡ true
  unfolding compare_context
  context_of_Agree l r g =
      rw (g.left_is, g.right_is, compare_context, g.left_filled, g.right_filled, g.same)
        (ground (arith, ==-refl (u.casefold g.right)))

  pub names_meet :
      (a b : IdentityCandidate) → overlaps (names u a) (names u b) ≡ true → NamesMeet a b
  names_meet a b h = from (names u a) h (λ n i. i)
    where
      from :
          (xs : List String)
          → overlaps xs (names u b) ≡ true
          → ((n : String) → In n xs → In n (names u a))
          → NamesMeet a b
      from [] q within = cc
      from (x ∷ xs) q within = elim (Bool-cases (contains (names u b) x)) [
        | inl t ↦ record {
          name = x;
          left = within x (inl refl);
          right = In-of_contains x (names u b) t;
        }
        | inr t ↦ from xs (ground (arith, t)) (λ n i. within n (inr i))
      ]

  pub names_overlap :
      (a b : IdentityCandidate) → NamesMeet a b → overlaps (names u a) (names u b) ≡ true
  names_overlap a b m = from (names u a) m.left
    where
      from : (xs : List String) → In m.name xs → overlaps xs (names u b) ≡ true
      from [] i = elim i [ ]
      from (x ∷ xs) (inl q) =
          ground
            (arith, contains_of_In x (names u b) (subst (λ n. In n (names u b)) (sym q) m.right))
      from (x ∷ xs) (inr i) = ground (arith, from xs i)

  -- The three tests behind a resolution by context.
  abbrev Tests : Context → Context → List String → Type 0
  Tests o g overlap =
      ((is_agreement o ≡ true) × (is_agreement g ≡ true))
      ⊎ ((2 ≤ length overlap) × ((is_agreement o ≡ true) ⊎ (is_agreement g ≡ true)))

  Tests-sound :
      (o g : Context) (overlap : List String)
      → (resolve_by_context u o g overlap).status ≡ IdentityStatus.resolved
      → Tests o g overlap
  unfolding resolve_by_context
  Tests-sound agrees agrees overlap h = inl (refl, refl)
  Tests-sound agrees g overlap h = inr (ground arith, inl refl)
  Tests-sound o agrees overlap h = inr (ground arith, inr refl)
  Tests-sound o g overlap h = ground arith

  Tests-complete :
      (o g : Context) (overlap : List String)
      → Tests o g overlap
      → (resolve_by_context u o g overlap).status ≡ IdentityStatus.resolved
  unfolding resolve_by_context
  Tests-complete o g overlap t = ground arith

  abbrev by_context : IdentityCandidate → IdentityCandidate → IdentityDecision
  by_context a b =
      resolve_by_context u (compare_context u a.office b.office)
        (compare_context u a.organization b.organization) (anchor_overlap u a b)

  context_sound :
      (a b : IdentityCandidate)
      → (by_context a b).status ≡ IdentityStatus.resolved
      → ContextMeets a b
  unfolding anchor_overlap
  context_sound a b h = elim (Tests-sound _ _ _ h) [
    | inl (o, g) ↦ inl (Agree-of_context _ _ o, Agree-of_context _ _ g)
    | inr (n, inl o) ↦ inr ((TwoShared-iff _ _).0 n, inl (Agree-of_context _ _ o))
    | inr (n, inr g) ↦ inr ((TwoShared-iff _ _).0 n, inr (Agree-of_context _ _ g))
  ]

  context_complete :
      (a b : IdentityCandidate)
      → ContextMeets a b
      → (by_context a b).status ≡ IdentityStatus.resolved
  unfolding anchor_overlap
  context_complete a b (inl (o, g)) =
      Tests-complete _ _ _ (inl (context_of_Agree _ _ o, context_of_Agree _ _ g))
  context_complete a b (inr (t, inl o)) =
      Tests-complete _ _ _ (inr ((TwoShared-iff _ _).1 t, inl (context_of_Agree _ _ o)))
  context_complete a b (inr (t, inr g)) =
      Tests-complete _ _ _ (inr ((TwoShared-iff _ _).1 t, inr (context_of_Agree _ _ g)))

  birth_sound :
      (a b : IdentityCandidate) (x y : Option Date)
      → (resolve_by_birth u a b x y).status ≡ IdentityStatus.resolved
      → EvidenceMeets a b x y
  unfolding resolve_by_birth
  birth_sound a b (some x) (some y) h = ground arith
  birth_sound a b (some x) none h = context_sound a b h
  birth_sound a b none (some y) h = context_sound a b h
  birth_sound a b none none h = context_sound a b h

  birth_complete :
      (a b : IdentityCandidate) (x y : Option Date)
      → EvidenceMeets a b x y
      → (resolve_by_birth u a b x y).status ≡ IdentityStatus.resolved
  unfolding resolve_by_birth
  birth_complete a b (some x) (some y) h = ground arith
  birth_complete a b (some x) none h = context_complete a b h
  birth_complete a b none (some y) h = context_complete a b h
  birth_complete a b none none h = context_complete a b h

  identity_sound :
      (a b : IdentityCandidate)
      → (resolve_identity u a b).status ≡ IdentityStatus.resolved
      → NamesMeet a b × EvidenceMeets a b a.birth_date b.birth_date
  unfolding resolve_identity
  identity_sound a b h = elim (Bool-cases (overlaps (names u a) (names u b))) [
    | inl t ↦ (names_meet a b t, birth_sound a b _ _ (rw t at h))
    | inr t ↦ absurd (ground (arith, h, t))
  ]

  identity_complete :
      (a b : IdentityCandidate)
      → NamesMeet a b × EvidenceMeets a b a.birth_date b.birth_date
      → (resolve_identity u a b).status ≡ IdentityStatus.resolved
  unfolding resolve_identity
  identity_complete a b (m, e) = rw (names_overlap a b m) (birth_complete a b _ _ e)

  -- An identity is resolved exactly when a name is common to both and the evidence meets: equal
  -- birth dates, or, where one is unknown, the same office and organization, or one of these with
  -- two common career anchors.
  pub resolve_identity-resolved :
      (a b : IdentityCandidate)
      → ((resolve_identity u a b).status ≡ IdentityStatus.resolved)
        ↔ (NamesMeet a b × EvidenceMeets a b a.birth_date b.birth_date)
  resolve_identity-resolved a b = (identity_sound a b, identity_complete a b)
