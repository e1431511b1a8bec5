-- ===== src/Skills/Catalog/Outcome.antt =====
-- What creating and editing a catalog skill checks, writes and answers, on every branch.
use seniors_empregabilidade.Prelude.{
  ==_iff, ==_refl, All-IsIn, Bool, Bool-cases, IsIn, List, Option-cases, [], ap, arith,
  exists_where, exists_where-false, false, false≢true, first_where_passes, inl, inr, is_other, none,
  not, refl, some, str_eq_refl, str_eq→eq, subst, sym, true, update_where, ℕ, ◌==◌, ◌∙◌, ◌∷◌, ◌≡◌,
  ◌≢◌,
}
use seniors_empregabilidade.Database.AccountErrors.{SkillError}
use seniors_empregabilidade.Database.Errors.{Constraint, Error}
use seniors_empregabilidade.Database.Session.{Result, Server, err, ok, rolled_back}
use seniors_empregabilidade.Database.Tables.{Db, Skill}
use seniors_empregabilidade.Skills.Catalog.{
  CatalogSkillResponse, CatalogSkillUpdateRequest, catalog_response_of, create_catalog_skill,
  find_and_save, insert_catalog_skill, is_named, renamed_skill, save_skill, skill_by_id,
  update_catalog_skill, with_conflict, with_skill_status, with_type,
}
use seniors_empregabilidade.Skills.Catalog.Fields.{
  catalog_response_of-IsAnswer, edit_fields, name_fields, name_to, refused_name_text, stated_from,
  typed_from,
}
use seniors_empregabilidade.Skills.Catalog.Spec.{
  CatalogCall, CatalogOutcome, CatalogReason, IsEdited, created_row, perform,
}
use seniors_empregabilidade.Skills.Catalog.Unique.{
  IsUniqueCatalog, clashes, replaced-IsUniqueCatalog,
}
use seniors_empregabilidade.Skills.Name.{Unicode, parse_skill_name}
use seniors_empregabilidade.Skills.Resolve.{SkillRequest}
use seniors_empregabilidade.Skills.Resolve.Outcome.{with_skills}

exists_where-found :
    (p : Skill → Bool) (xs : List Skill)
    → exists_where p xs ≡ true
    → (x : Skill) × (IsIn x xs × (p x ≡ true))
exists_where-found p [] h = cc
exists_where-found p (x ∷ xs) h = elim (Bool-cases (p x)) [
  | inl hit ↦ (x, (inl refl, hit))
  | inr miss ↦
      let (y, (m, e)) = exists_where-found p xs (ground (arith, h, miss)) in (y, (inr m, e))
]

module _ (unicode : Unicode) (db : Db) where
  module _ (server : Server) (request : SkillRequest) where
    create-CatalogOutcome :
        CatalogOutcome unicode db
          (CatalogCall.create_call server request)
          (create_catalog_skill unicode server request db)
    unfolding create_catalog_skill insert_catalog_skill
    create-CatalogOutcome = elim (Option-cases (parse_skill_name unicode request.name)) [
      | inl bad ↦
          CatalogOutcome.refused _ _ _ (CatalogReason.bad_new_name server request bad) (rw bad refl)
      | inr (n, parsed) ↦ elim (Bool-cases (exists_where (is_named n.normalized) db.skills)) [
        | inl taken ↦
            let (s, (m, e)) = exists_where-found (is_named n.normalized) db.skills taken in
            CatalogOutcome.refused _ _ _
              (CatalogReason.new_name_taken server request n s parsed m
                (str_eq→eq s.normalized_name n.normalized e))
              (rw (parsed, taken) refl)
        | inr free ↦
            let others = is_other (λ (s : Skill). s.normalized_name) n.normalized db.skills free in
            CatalogOutcome.created server request n _ _ parsed others
              (λ fresh u. record { keyed = (fresh, u.keyed); distinct = (others, u.distinct) })
              (catalog_response_of-IsAnswer (created_row server request.type n))
              (rw (parsed, free) refl)
      ]
    ]

  module _ (skill_id : ℕ) (request : CatalogSkillUpdateRequest) where
    abbrev edit : Skill → Skill
    edit renamed = with_skill_status request.status (with_type request.type renamed)

    edit-IsEdited :
        (old renamed : Skill)
        → renamed_skill unicode request.name old ≡ some renamed
        → IsEdited unicode request old (edit renamed)
    edit-IsEdited old renamed h =
        let (i, n, t, a) = name_fields unicode request.name old renamed h in
        let (i', n', m', t', a') = edit_fields request.type request.status renamed in
        record {
          same_id = i' ∙ i;
          renamed = name_to unicode request.name old renamed (edit renamed) n' m' n;
          typed = typed_from request.type old renamed (edit renamed) t t';
          stated = stated_from request.status old renamed (edit renamed) a a';
        }

    save_taken :
        (new : Skill)
        → exists_where (clashes new) db.skills ≡ true
        → save_skill new db ≡ (err (Error.integrity Constraint.uq_skill_normalized_name), db)
    unfolding save_skill
    save_taken new h = rw h refl

    save_free :
        (new : Skill)
        → exists_where (clashes new) db.skills ≡ false
        → save_skill new db ≡ (
          ok (catalog_response_of new),
          with_skills db (update_where (λ s. s.id == new.id) (λ _. new) db.skills),
        )
    unfolding save_skill
    save_free new h = rw h refl

    find_unknown :
        skill_by_id skill_id db ≡ none
        → find_and_save unicode skill_id request db
          ≡ (err (Error.skill SkillError.catalog_skill_not_found), db)
    unfolding find_and_save
    find_unknown h = rw h refl

    find_bad :
        (old : Skill)
        → skill_by_id skill_id db ≡ some old
        → renamed_skill unicode request.name old ≡ none
        → find_and_save unicode skill_id request db ≡ (err Error.invalid_skill_name, db)
    unfolding find_and_save
    find_bad old h k = rw h (rw k refl)

    find_saves :
        (old renamed : Skill)
        → skill_by_id skill_id db ≡ some old
        → renamed_skill unicode request.name old ≡ some renamed
        → find_and_save unicode skill_id request db ≡ save_skill (edit renamed) db
    unfolding find_and_save
    find_saves old renamed h k = rw h (rw k refl)

    -- What the rollback and the handlers make of the block's result.
    updates :
        (r : Result CatalogSkillResponse × Db)
        → find_and_save unicode skill_id request db ≡ r
        → update_catalog_skill unicode skill_id request db ≡ with_conflict (rolled_back db r)
    unfolding update_catalog_skill
    updates r h = ap (λ x. with_conflict (rolled_back db x)) h

    module _ (old new : Skill) (found : skill_by_id skill_id db ≡ some old)
        (edited : IsEdited unicode request old new)
        (saves : find_and_save unicode skill_id request db ≡ save_skill new db) where
      same_key : new.id ≡ skill_id
      same_key =
          edited.same_id
          ∙ (==_iff old.id skill_id).0
              (first_where_passes (λ (s : Skill). s.id == skill_id) db.skills old found)

      other_id : (s : Skill) → clashes new s ≡ true → s.id ≢ new.id
      other_id s c e =
          false≢true (sym (ap not (ap (λ k. k == new.id) e ∙ ==_refl new.id)) ∙ ground (arith, c))

      clashes_with :
          (s : Skill)
          → s.id ≢ skill_id
          → s.normalized_name ≡ new.normalized_name
          → clashes new s ≡ true
      clashes_with s other named = elim (Bool-cases (s.id == new.id)) [
        | inl same ↦ absurd (other ((==_iff s.id new.id).0 same ∙ same_key))
        | inr differs ↦ rw (differs, named) (str_eq_refl new.normalized_name)
      ]

      clash_parts :
          (s : Skill)
          → clashes new s ≡ true
          → (s.id ≢ skill_id) × (s.normalized_name ≡ new.normalized_name)
      clash_parts s c = (
        λ e. other_id s c (e ∙ sym same_key),
        str_eq→eq s.normalized_name new.normalized_name (ground (arith, c)),
      )

      save-CatalogOutcome :
          CatalogOutcome unicode db
            (CatalogCall.update_call skill_id request)
            (update_catalog_skill unicode skill_id request db)
      save-CatalogOutcome = elim (Bool-cases (exists_where (clashes new) db.skills)) [
        | inl taken ↦
            let (s, (m, c)) = exists_where-found (clashes new) db.skills taken in
            let (other, named) = clash_parts s c in
            CatalogOutcome.refused _ _ _
              (CatalogReason.edited_name_taken skill_id request old new s found edited m other
                named)
              (updates _ (saves ∙ save_taken new taken))
        | inr free ↦
            CatalogOutcome.updated skill_id request old new _ _ found edited
              (λ s m other named. false≢true (
                sym (All-IsIn _ db.skills s (exists_where-false (clashes new) db.skills free) m)
                ∙ clashes_with s other named))
              (λ u.
                subst (λ k. IsUniqueCatalog (update_where (λ s. s.id == k) (λ _. new) db.skills))
                  same_key (replaced-IsUniqueCatalog new db.skills free u))
              (catalog_response_of-IsAnswer new)
              (updates _ (saves ∙ save_free new free)
                ∙ ap
                    (λ k. (
                      ok (catalog_response_of new),
                      with_skills db (update_where (λ s. s.id == k) (λ _. new) db.skills),
                    ))
                    same_key)
      ]

    update-CatalogOutcome :
        CatalogOutcome unicode db
          (CatalogCall.update_call skill_id request)
          (update_catalog_skill unicode skill_id request db)
    update-CatalogOutcome = elim (Option-cases (skill_by_id skill_id db)) [
      | inl unknown ↦
          CatalogOutcome.refused _ _ _ (CatalogReason.unknown_skill skill_id request unknown)
            (updates _ (find_unknown unknown))
      | inr (old, found) ↦ elim (Option-cases (renamed_skill unicode request.name old)) [
        | inl bad ↦
            let (text, (named, unparsed)) = refused_name_text unicode request.name old bad in
            CatalogOutcome.refused _ _ _
              (CatalogReason.bad_edited_name skill_id request old text found named unparsed)
              (updates _ (find_bad old found bad))
        | inr (renamed, parsed) ↦
            save-CatalogOutcome old (edit renamed) found (edit-IsEdited old renamed parsed)
              (find_saves old renamed found parsed)
      ]
    ]

-- A creation and an edit of a catalog skill end in one of these ways. A creation adds exactly an
-- active row with the typed name and its normalized form, if the name is valid and no row has that
-- form; an invalid name and a taken one are refused. An edit replaces exactly the row with the
-- identifier: what the request does not name is kept, a new name is valid and brings its own
-- normalized form, and no other row has it; an unknown skill, an invalid name and a taken one are
-- refused. Both answer the written row, leave identifiers and names unique where they were (a
-- creation if its identifier is new), and change no other table. Every refusal leaves all tables as
-- they were, and a violated unique constraint is answered as a name conflict.
pub perform-CatalogOutcome :
    (unicode : Unicode) (call : CatalogCall) (db : Db)
    → CatalogOutcome unicode db call (perform unicode call db)
perform-CatalogOutcome unicode (CatalogCall.create_call server request) db =
    create-CatalogOutcome unicode db server request
perform-CatalogOutcome unicode (CatalogCall.update_call skill_id request) db =
    update-CatalogOutcome unicode db skill_id request
