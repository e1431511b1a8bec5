-- ===== src/Applications/Automatic/Insert.antt =====
-- What the bulk insertion does to the application table.
use seniors_empregabilidade.Prelude.{
  ==_iff, ==_refl, All, Bool-cases, List, [], arith, exists_where, false, inl, inr, length, refl,
  subst, true, ℕ, ◌+◌, ◌==◌, ◌||◌, ◌∙◌, ◌∷◌, ◌≡◌, ◌≢◌, ◌≤◌,
}
use seniors_empregabilidade.Database.Session.{Server}
use seniors_empregabilidade.Database.Tables.{Application}
use seniors_empregabilidade.Applications.Automatic.{automatic_application, insert_new}
use seniors_empregabilidade.Applications.Invariant.{IsValid, insert-IsValid}
use seniors_empregabilidade.Applications.Submit.{has_applied}
use seniors_empregabilidade.Jobs.Compatibility.{CompatibilityScore}

module _ (server : Server) (job_id : ℕ) where
  -- Whoever has applied before or is in the list has applied afterwards, and nobody else.
  pub has_applied-insert_new :
      (n : ℕ) (candidate_id : ℕ) (ss : List CompatibilityScore) (rows : List Application)
      → has_applied candidate_id job_id (insert_new server n job_id ss rows).1 ≡ (
          has_applied candidate_id job_id rows
          || exists_where (λ s. s.candidate_id == candidate_id) ss)
  unfolding automatic_application
  has_applied-insert_new n candidate_id [] rows = ground arith
  has_applied-insert_new n candidate_id (s ∷ ss) rows =
      elim (Bool-cases (has_applied s.candidate_id job_id rows)) [
        | inl old ↦ rw old (
            has_applied-insert_new (n + 1) candidate_id ss rows
            ∙ elim (Bool-cases (s.candidate_id == candidate_id)) [
              | inl hit ↦
                  rw (subst (λ k. has_applied k job_id rows ≡ true) ((==_iff _ _).0 hit) old)
              | inr miss ↦ rw miss
            ])
        | inr new ↦ rw new (
            has_applied-insert_new (n + 1) candidate_id ss
              (automatic_application server n job_id s ∷ rows)
            ∙ ground (arith, ==_refl job_id))
      ]

  -- The count is the number of rows that the table has gained.
  pub length-insert_new :
      (n : ℕ) (ss : List CompatibilityScore) (rows : List Application)
      → length (insert_new server n job_id ss rows).1
        ≡ (insert_new server n job_id ss rows).0 + length rows
  length-insert_new n [] rows = omega arith
  length-insert_new n (s ∷ ss) rows = ground (
    arith,
    length-insert_new (n + 1) ss rows,
    length-insert_new (n + 1) ss (automatic_application server n job_id s ∷ rows),
  )

  -- The identifiers that the server generates from the `n`-th on are not in the table, and differ
  -- from one another.
  pub record IsFreshFrom (n : ℕ) (rows : List Application) : Type 0 where
    pub apart : (i j : ℕ) → server.uuid i ≡ server.uuid j → i ≡ j
    pub unused : (i : ℕ) → n ≤ i → All (λ a. a.id ≢ server.uuid i) rows

  skip_fresh : (n : ℕ) (rows : List Application) → IsFreshFrom n rows → IsFreshFrom (n + 1) rows
  skip_fresh n rows fresh = record {
    apart = fresh.apart;
    unused = λ i h. fresh.unused i (omega (arith, h));
  }

  add_fresh :
      (n : ℕ) (s : CompatibilityScore) (rows : List Application)
      → IsFreshFrom n rows
      → IsFreshFrom (n + 1) (automatic_application server n job_id s ∷ rows)
  unfolding automatic_application
  add_fresh n s rows fresh = record {
    apart = fresh.apart;
    unused = λ i h. (
      λ e. (let same : n ≡ i = fresh.apart n i e in omega (arith, h, same)),
      fresh.unused i (omega (arith, h)),
    );
  }

  add_IsValid :
      (n : ℕ) (s : CompatibilityScore) (rows : List Application)
      → has_applied s.candidate_id job_id rows ≡ false
      → IsFreshFrom n rows
      → IsValid rows
      → IsValid (automatic_application server n job_id s ∷ rows)
  unfolding automatic_application
  add_IsValid n s rows new fresh v =
      insert-IsValid (automatic_application server n job_id s) rows (fresh.unused n (omega arith))
        new (record { closing = refl; range = omega arith }) v

  pub insert_new-IsValid :
      (n : ℕ) (ss : List CompatibilityScore) (rows : List Application)
      → IsFreshFrom n rows
      → IsValid rows
      → IsValid (insert_new server n job_id ss rows).1
  insert_new-IsValid n [] rows fresh v = v
  insert_new-IsValid n (s ∷ ss) rows fresh v =
      elim (Bool-cases (has_applied s.candidate_id job_id rows)) [
        | inl old ↦ rw old (insert_new-IsValid (n + 1) ss rows (skip_fresh n rows fresh) v)
        | inr new ↦ rw new (
            insert_new-IsValid (n + 1) ss (automatic_application server n job_id s ∷ rows)
              (add_fresh n s rows fresh) (add_IsValid n s rows new fresh v))
      ]
