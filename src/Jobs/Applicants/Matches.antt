-- ===== src/Jobs/Applicants/Matches.antt =====
-- Automatic matches, described without the query and the score.
use seniors_empregabilidade.Prelude.{
  ==_iff, ==_refl, Bool, Bool-cases, List, [], ap, arith, exists_where, false, inl, inr,
  intersection, intersection-to_set, is_none_of, is_none_of-length, leb, length, mem,
  mem-select_where, mem-to_set, not, refl, select_where, subst, sym, to_set, true, ℕ, ◌&&◌, ◌*◌,
  ◌==◌, ◌↔◌, ◌∙◌, ◌∷◌, ◌≡◌, ◌≤◌,
}
use seniors_empregabilidade.Database.Enums.{is_active_account, is_available}
use seniors_empregabilidade.Database.Tables.{AppUser, Candidate, Db}
use seniors_empregabilidade.Applications.Submit.{candidate_skill_ids, has_applied}
use seniors_empregabilidade.Jobs.Applicants.{is_possible_match}
use seniors_empregabilidade.Jobs.Applicants.Members.{is_match_candidate, own_score}
use seniors_empregabilidade.Jobs.Compatibility.{is_automatic_match, matched_count, score}
use seniors_empregabilidade.Jobs.Compatibility.Ranking.{score_lem}

-- The job requires skills, and the candidate is available, has an active account, has not applied
-- and holds at least half of the required skills.
abbrev pub is_automatic : (job_id : ℕ) (required : List ℕ) → Db → (candidate_id : ℕ) → Bool
is_automatic job_id required db c =
    not (is_none_of required)
    && (exists_where (λ (k : Candidate). k.id == c && is_available k.availability) db.candidates
        && (exists_where (λ (u : AppUser). u.id == c && is_active_account u.account_status) db.users
            && (not (has_applied c job_id db.applications)
                && leb (length required)
                    (2 * length (intersection required (candidate_skill_ids c db))))))

-- What the query asks of a candidate besides being available, by identifier.
abbrev asked : (job_id : ℕ) (required : List ℕ) → Db → (candidate_id : ℕ) → Bool
asked job_id required db c =
    exists_where (λ (u : AppUser). u.id == c && is_active_account u.account_status) db.users
    && (not (has_applied c job_id db.applications)
        && not
            (is_none_of (to_set (select_where (λ id. mem id required) (candidate_skill_ids c db)))))

candidates_asked :
    (job_id c : ℕ) (required : List ℕ) (db : Db) (cs : List Candidate)
    → exists_where (λ (k : Candidate). is_possible_match job_id required db k && k.id == c) cs ≡ (
        exists_where (λ (k : Candidate). k.id == c && is_available k.availability) cs
        && asked job_id required db c)
candidates_asked job_id c required db [] = refl
candidates_asked job_id c required db (k ∷ cs) = elim (Bool-cases (k.id == c)) [
  | inl hit ↦
      rw ((==_iff k.id c).0 hit, ==_refl c)
        (ground (arith, candidates_asked job_id c required db cs))
  | inr miss ↦ ground (arith, miss, candidates_asked job_id c required db cs)
]

nonempty_mem : (a : ℕ) (xs : List ℕ) → mem a xs ≡ true → is_none_of xs ≡ false
nonempty_mem a [] h = cc
nonempty_mem a (x ∷ xs) h = refl

some_mem :
    (required held : List ℕ)
    → is_none_of (intersection required held) ≡ false
    → (a : ℕ) × ((mem a required ≡ true) × (mem a held ≡ true))
some_mem [] held h = cc
some_mem (x ∷ required) held h = elim (Bool-cases (mem x held)) [
  | inl hit ↦ (x, (ground (arith, ==_refl x), hit))
  | inr miss ↦
      let (a, (m, n)) = some_mem required held (ground (arith, h, miss)) in
      (a, (ground (arith, m), n))
]

-- Who holds a required skill is found by the query.
shares :
    (required held : List ℕ)
    → is_none_of (intersection required held) ≡ false
    → is_none_of (to_set (select_where (λ id. mem id required) held)) ≡ false
shares required held h =
    let (a, (m, n)) = some_mem required held h in
    nonempty_mem a (to_set (select_where (λ id. mem id required) held)) (
      mem-to_set a (select_where (λ id. mem id required) held)
      ∙ mem-select_where (λ id. mem id required) a held
      ∙ rw (m, n))

own_matched :
    (db : Db) (required : List ℕ) (c : ℕ)
    → matched_count (own_score db required c)
      ≡ length (intersection required (candidate_skill_ids c db))
unfolding score
own_matched db required c = ap length (
    intersection-to_set required (to_set (candidate_skill_ids c db))
    ∙ intersection-to_set required (candidate_skill_ids c db))

same_test : (p q : Bool) (P : Type 0) → (p ≡ true) ↔ P → (q ≡ true) ↔ P → p ≡ q
same_test true true P f g = refl
same_test true false P f g = sym (g.1 (f.0 refl))
same_test false true P f g = f.1 (g.0 refl)
same_test false false P f g = refl

highlighted :
    (db : Db) (required : List ℕ) (c : ℕ)
    → is_none_of required ≡ false
    → is_automatic_match (own_score db required c)
      ≡ leb (length required) (2 * length (intersection required (candidate_skill_ids c db)))
highlighted db required c h =
    same_test _ _ (length required ≤ 2 * length (intersection required (candidate_skill_ids c db)))
      (subst
        (λ n. (is_automatic_match (own_score db required c) ≡ true) ↔ (length required ≤ 2 * n))
        (own_matched db required c) (score_lem required c (to_set (candidate_skill_ids c db)) h).2)
      (ground arith)

holds_some :
    (required held : List ℕ)
    → is_none_of required ≡ false
    → leb (length required) (2 * length (intersection required held)) ≡ true
    → is_none_of (intersection required held) ≡ false
holds_some required held h k =
    ground (arith, h, k, is_none_of-length required, is_none_of-length (intersection required held))

-- The query and the threshold together accept exactly the automatic matches.
pub is_automatic_lem :
    (job_id : ℕ) (required : List ℕ) (db : Db) (c : ℕ)
    → is_none_of required ≡ false
    → (is_match_candidate job_id db c required && is_automatic_match (own_score db required c))
      ≡ is_automatic job_id required db c
is_automatic_lem job_id required db c h =
    rw (candidates_asked job_id c required db db.candidates, highlighted db required c h, h)
      (elim (Bool-cases
        (leb (length required) (2 * length (intersection required (candidate_skill_ids c db))))) [
          | inl enough ↦
              rw
                (
                  shares required (candidate_skill_ids c db)
                      (holds_some required (candidate_skill_ids c db) h enough),
                  enough,
                )
                (ground arith)
          | inr few ↦ rw few (ground arith)
        ])
