-- ===== src/Companies/CorporateEmail/Laws.antt =====
-- The corporate e-mail rule against a description of it without lists of labels.
use seniors_empregabilidade.Prelude.{
  ==_iff, Bool, Bool-cases, IsIn, List, Str, [], ap, arith, exists_where, exists_where-IsIn,
  false≢true, inl, inr, refl, str_eq, str_eq_refl, str_eq→eq, subst, sym, true, ℕ, ◌++◌, ◌==◌, ◌↔◌,
  ◌∙◌, ◌∷◌, ◌≡◌, ◌≢◌, ◌⊎◌,
}
use seniors_empregabilidade.Companies.CorporateEmail.{
  join_dots, label_suffixes, matches_personal, split_dots,
}

-- `suffix` is what follows some dot of the text.
abbrev pub IsAfterDot : (suffix text : Str) → Type 0
IsAfterDot suffix text = (front : Str) × (text ≡ front ++ (46 ∷ suffix))

-- The domain is one of these, or a subdomain of one of these.
abbrev pub IsPersonal : (domain : Str) (personal_domains : List Str) → Type 0
IsPersonal domain personal_domains =
    (p : Str) × (IsIn p personal_domains × ((p ≡ domain) ⊎ IsAfterDot p domain))

join_dots-cons : (c : ℕ) (l : Str) (ls : List Str) → join_dots (c ∷ l) ls ≡ c ∷ join_dots l ls
join_dots-cons c l [] = refl
join_dots-cons c l (m ∷ ls) = refl

join-split : (s : Str) → join_dots (split_dots s).0 (split_dots s).1 ≡ s
join-split [] = refl
join-split (c ∷ s) = elim (Bool-cases (c == 46)) [
  | inl hit ↦ rw (hit, join-split s, (==_iff c 46).0 hit)
  | inr miss ↦ rw (miss, join_dots-cons c (split_dots s).0 (split_dots s).1, join-split s)
]

dot_joins : (t s : Str) → (t ≡ s) ⊎ IsAfterDot t s → IsAfterDot t (46 ∷ s)
dot_joins t s (inl e) = ([], rw e)
dot_joins t s (inr (front, e)) = (46 ∷ front, ap (λ r. 46 ∷ r) e)

dot_cases : (t s front : Str) → 46 ∷ s ≡ front ++ (46 ∷ t) → (t ≡ s) ⊎ IsAfterDot t s
dot_cases t s [] e = inl (let f : s ≡ t = cc in sym f)
dot_cases t s (c ∷ front) e = inr (front, cc)

after_other : (t s front : Str) (c : ℕ) → c ≢ 46 → c ∷ s ≡ front ++ (46 ∷ t) → IsAfterDot t s
after_other t s [] c n e = absurd (n cc)
after_other t s (d ∷ front) c n e = (front, cc)

nothing_after : (t front : Str) → [] ≡ front ++ (46 ∷ t) → ⊥
nothing_after t [] e = cc
nothing_after t (c ∷ front) e = cc

-- The suffixes after the first label are exactly what follows the dots.
suffix_iff : (t s : Str) → IsIn t (label_suffixes (split_dots s).1) ↔ IsAfterDot t s
suffix_iff t [] = (λ m. absurd m, λ (front, e). nothing_after t front e)
suffix_iff t (c ∷ s) = elim (Bool-cases (c == 46)) [
  | inl hit ↦
      rw (hit, (==_iff c 46).0 hit, join-split s)
        (
          λ m. dot_joins t s (elim m [ inl e ↦ inl e | inr n ↦ inr ((suffix_iff t s).0 n) ]),
          λ (front, e). elim (dot_cases t s front e) [
            | inl f ↦ inl f
            | inr n ↦ inr ((suffix_iff t s).1 n)
          ],
        )
  | inr miss ↦ rw miss (
    λ m. let (front, e) = (suffix_iff t s).0 m in (c ∷ front, ap (λ r. c ∷ r) e),
    λ (front, e).
        (suffix_iff t s).1
          (after_other t s front c (λ h. false≢true (sym miss ∙ (==_iff c 46).1 h)) e),
  )
]

exists_iff :
    (p : Str → Bool) (xs : List Str)
    → (exists_where p xs ≡ true) ↔ ((t : Str) × (IsIn t xs × (p t ≡ true)))
exists_iff p [] = (λ h. absurd (false≢true h), λ (t, (m, h)). absurd m)
exists_iff p (x ∷ xs) = (
  λ h. elim (Bool-cases (p x)) [
    | inl hit ↦ (x, (inl refl, hit))
    | inr miss ↦ let (t, (m, q)) = (exists_iff p xs).0 (ground (arith, h, miss)) in (t, (inr m, q))
  ],
  λ (t, (m, q)). exists_where-IsIn p (x ∷ xs) t m q,
)

member_iff : (t : Str) (xs : List Str) → (exists_where (str_eq t) xs ≡ true) ↔ IsIn t xs
member_iff t xs = (
  λ h.
      let (s, (m, q)) = (exists_iff (str_eq t) xs).0 h in
      subst (λ s. IsIn s xs) (sym (str_eq→eq t s q)) m,
  λ m. exists_where-IsIn (str_eq t) xs t m (str_eq_refl t),
)

-- A domain is refused exactly when it is one of the personal domains or a subdomain of one: what
-- stands after one of its dots is a personal domain.
pub matches_personal_iff :
    (domain : Str) (personal_domains : List Str)
    → (matches_personal domain personal_domains ≡ true) ↔ IsPersonal domain personal_domains
unfolding matches_personal
matches_personal_iff domain personal_domains = (
  λ h.
      let (t, (m, q)) =
        (exists_iff (λ x. exists_where (str_eq x) personal_domains)
            (label_suffixes ((split_dots domain).0 ∷ (split_dots domain).1))).0
          h in
      (
        t,
        (
          (member_iff t personal_domains).0 q,
          elim m [ inl e ↦ inl (e ∙ join-split domain) | inr n ↦ inr ((suffix_iff t domain).0 n) ],
        ),
      ),
  λ (p, (m, where_)).
      (exists_iff (λ x. exists_where (str_eq x) personal_domains)
          (label_suffixes ((split_dots domain).0 ∷ (split_dots domain).1))).1
        (
          p,
          (
            elim where_ [
              | inl e ↦ inl (e ∙ sym (join-split domain))
              | inr n ↦ inr ((suffix_iff p domain).1 n)
            ],
            (member_iff p personal_domains).1 m,
          ),
        ),
)
