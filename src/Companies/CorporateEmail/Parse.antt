-- ===== src/Companies/CorporateEmail/Parse.antt =====
-- Which texts are corporate e-mail addresses, and the value that they are stored as.
use mathlib.Core.Option.{some_inj}
use seniors_empregabilidade.Prelude.{
  ==_iff, Bool-cases, List, Option-cases, Str, [], ap, arith, false, false≢true, inl, inr, is_empty,
  mem, none, refl, some, strip, subst, sym, true, ◌++◌, ◌==◌, ◌||◌, ◌↔◌, ◌∙◌, ◌∷◌, ◌≡◌, ◌≢◌,
}
use seniors_empregabilidade.Companies.CorporateEmail.{
  before_separator, matches_personal, parse_corporate_email, rpartition,
}
use seniors_empregabilidade.Companies.CorporateEmail.Laws.{IsPersonal, matches_personal_iff}

rpartition_miss : (s : Str) → mem 64 s ≡ false → rpartition s ≡ none
rpartition_miss [] h = refl
rpartition_miss (c ∷ s) h = rw (rpartition_miss s (ground arith)) (ground (arith, h))

rpartition_hit : (l d : Str) → mem 64 d ≡ false → rpartition (l ++ (64 ∷ d)) ≡ some (l, d)
rpartition_hit [] d h = rw (rpartition_miss d h)
rpartition_hit (c ∷ l) d h = rw (rpartition_hit l d h)

rpartition-none : (s : Str) → rpartition s ≡ none → mem 64 s ≡ false
rpartition-none [] h = refl
rpartition-none (c ∷ s) h = elim (Option-cases (rpartition s)) [
  | inl n ↦
      let e : before_separator c s none ≡ none = sym (ap (before_separator c s) n) ∙ h in
      ground (arith, e, rpartition-none s n)
  | inr (p, f) ↦
      let e : before_separator c s (some p) ≡ none = sym (ap (before_separator c s) f) ∙ h in cc
]

abbrev IsSplit : Str → Str × Str → Type 0
IsSplit s p = (s ≡ p.0 ++ (64 ∷ p.1)) × (mem 64 p.1 ≡ false)

rpartition-some : (s : Str) (p : Str × Str) → rpartition s ≡ some p → IsSplit s p
rpartition-some [] p h = cc
rpartition-some (c ∷ s) p h = elim (Option-cases (rpartition s)) [
  | inl n ↦ elim (Bool-cases (c == 64)) [
    | inl hit ↦
        let e : some ([], s) ≡ some p = rw (← h, n, hit) in
        subst (IsSplit (c ∷ s)) (some_inj.0 e) (rw ((==_iff c 64).0 hit), rpartition-none s n)
    | inr miss ↦ let e : none ≡ some p = rw (← h, n, miss) in cc
  ]
  | inr (q, f) ↦
      let e : some (c ∷ q.0, q.1) ≡ some p = rw (← h, f) in
      let (a, b) = rpartition-some s q f in
      subst (IsSplit (c ∷ s)) (some_inj.0 e) (ap (λ r. c ∷ r) a, b)
]

-- An address with a part before its last "@", outside the personal domains.
pub record IsCorporate (personal_domains : List Str) (address : Str) : Type 0 where
  pub local_part : Str
  pub domain : Str
  pub parts : address ≡ local_part ++ (64 ∷ domain)
  pub last : mem 64 domain ≡ false
  pub nonempty : local_part ≢ []
  pub business : ¬ IsPersonal domain personal_domains

module _ (lower : Str → Str) (raw_value : Str) (personal_domains : List Str) where
  abbrev address : Str
  address = lower (strip raw_value)

  refused_part :
      (p : Str × Str)
      → rpartition address ≡ some p
      → is_empty p.0 || matches_personal p.1 personal_domains ≡ true
      → parse_corporate_email lower raw_value personal_domains ≡ none
  unfolding parse_corporate_email
  refused_part p f h = rw (f, h)

  accepted_part :
      (p : Str × Str)
      → rpartition address ≡ some p
      → is_empty p.0 || matches_personal p.1 personal_domains ≡ false
      → parse_corporate_email lower raw_value personal_domains ≡ some (p.0 ++ (64 ∷ p.1))
  unfolding parse_corporate_email
  accepted_part p f h = rw (f, h)

  no_part :
      rpartition address ≡ none → parse_corporate_email lower raw_value personal_domains ≡ none
  unfolding parse_corporate_email
  no_part f = rw f

  is_empty-nil : (s : Str) → (is_empty s ≡ false) ↔ (s ≢ [])
  is_empty-nil [] = (λ h. cc, λ h. absurd (h refl))
  is_empty-nil (c ∷ s) = (λ h e. cc, λ h. refl)

  not-IsPersonal :
      (d : Str) → matches_personal d personal_domains ≡ false → ¬ IsPersonal d personal_domains
  not-IsPersonal d h i = false≢true (sym h ∙ (matches_personal_iff d personal_domains).1 i)

  matches_personal-false :
      (d : Str) → ¬ IsPersonal d personal_domains → matches_personal d personal_domains ≡ false
  matches_personal-false d n = elim (Bool-cases (matches_personal d personal_domains)) [
    | inl h ↦ absurd (n ((matches_personal_iff d personal_domains).0 h))
    | inr h ↦ h
  ]

  accepts :
      (value : Str)
      → parse_corporate_email lower raw_value personal_domains ≡ some value
      → (value ≡ address) × IsCorporate personal_domains value
  accepts value h = elim (Option-cases (rpartition address)) [
    | inl n ↦ let e : none ≡ some value = sym (no_part n) ∙ h in cc
    | inr (p, f) ↦ elim (Bool-cases (is_empty p.0 || matches_personal p.1 personal_domains)) [
      | inl bad ↦ let e : none ≡ some value = sym (refused_part p f bad) ∙ h in cc
      | inr good ↦
          let e : p.0 ++ (64 ∷ p.1) ≡ value = some_inj.0 (sym (accepted_part p f good) ∙ h) in
          let (a, b) = rpartition-some address p f in
          (
            sym e ∙ sym a,
            record {
              local_part = p.0;
              domain = p.1;
              parts = sym e;
              last = b;
              nonempty = (is_empty-nil p.0).0 (ground (arith, good));
              business = not-IsPersonal p.1 (ground (arith, good));
            },
          )
    ]
  ]

-- A text is accepted exactly when, stripped and in lower case, it has a non-empty part before its
-- last "@" and a domain that neither is a personal domain nor is a subdomain of one, and then the
-- stripped lower-case text is the stored value.
pub parse_corporate_email_iff :
    (lower : Str → Str) (raw_value : Str) (personal_domains : List Str) (value : Str)
    → (parse_corporate_email lower raw_value personal_domains ≡ some value)
      ↔ ((value ≡ lower (strip raw_value)) × IsCorporate personal_domains value)
parse_corporate_email_iff lower raw_value personal_domains value = (
  accepts lower raw_value personal_domains value,
  λ (e, c).
      let f : rpartition (lower (strip raw_value)) ≡ some (c.local_part, c.domain) =
        ap rpartition (sym e ∙ c.parts) ∙ rpartition_hit c.local_part c.domain c.last in
      accepted_part lower raw_value personal_domains (c.local_part, c.domain) f
        (rw (
          (is_empty-nil lower raw_value personal_domains c.local_part).1 c.nonempty,
          matches_personal-false lower raw_value personal_domains c.domain c.business,
        ))
      ∙ ap some (sym c.parts),
)
