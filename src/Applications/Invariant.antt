-- ===== src/Applications/Invariant.antt =====
-- What holds of the application table, and that every service keeps it.
use seniors_empregabilidade.Prelude.{
  All, All-map_implies, All-update_where, Bool, Bool-cases, IsIn, IsKeyed, IsKeyed-update_where,
  List, Option, Str, [], ap, exists_where-false, false, if◌then◌else◌, inl, inr, is_some, none,
  refl, some, subst, sym, update_where, update_where_const, ℕ, ◌&&◌, ◌==◌, ◌∙◌, ◌∷◌, ◌≡◌, ◌≢◌, ◌≤◌,
}
use seniors_empregabilidade.Database.Enums.{ApplicationType}
use seniors_empregabilidade.Database.Session.{Server}
use seniors_empregabilidade.Database.Tables.{Application, Db}
use seniors_empregabilidade.Applications.Policies.{match_requirements, match_requirements_lem}
use seniors_empregabilidade.Applications.Status.{
  CompanyApplicationStatus, Step, Step-is_terminal, is_terminal, target_status,
}
use seniors_empregabilidade.Applications.Submit.{has_applied, new_application}
use seniors_empregabilidade.Applications.UpdateStatus.{closes, moved}
use seniors_empregabilidade.Applications.Withdraw.{withdrawn}

-- `CheckConstraint(..., name="requirements_range")`
abbrev pub RequirementsHold : (matched total : Option ℕ) → Type 0
RequirementsHold none total = Unit {0}
RequirementsHold (some m) none = ⊥
RequirementsHold (some m) (some t) = m ≤ t

-- An application has its closing time exactly when its status is terminal.
pub record IsValidApplication (a : Application) : Type 0 where
  pub closing : is_some a.closed_at ≡ is_terminal a.status
  pub range : RequirementsHold a.matched_requirements a.total_requirements

abbrev pub same_pair : Application → Application → Bool
same_pair a b = b.candidate_id == a.candidate_id && b.job_id == a.job_id

-- `UniqueConstraint("candidate_id", "job_id")`
abbrev pub IsUnique : List Application → Type 0
IsUnique [] = Unit {0}
IsUnique (a ∷ rows) = All (λ b. same_pair a b ≡ false) rows × IsUnique rows

pub record IsValid (rows : List Application) : Type 0 where
  pub keyed : IsKeyed (λ a. a.id) rows
  pub unique : IsUnique rows
  pub valid : All IsValidApplication rows

-- The identifier that the server generates for the new row is not taken.
abbrev pub IsFresh : (id : ℕ) → Db → Type 0
IsFresh id db = All (λ a. a.id ≢ id) db.applications

IsUnique-update_where :
    (p : Application → Bool) (f : Application → Application)
    → ((a : Application) → (f a).candidate_id ≡ a.candidate_id)
    → ((a : Application) → (f a).job_id ≡ a.job_id)
    → (rows : List Application) → IsUnique rows
    → IsUnique (update_where p f rows)
IsUnique-update_where p f c j [] u = tt
IsUnique-update_where p f c j (a ∷ rows) u = (
  elim (Bool-cases (p a)) [
    | inl hit ↦ rw hit (
        All-update_where (λ b. same_pair (f a) b ≡ false) p f rows (λ b h e. rw (c b, j b) e)
          (All-map_implies (λ b. same_pair a b ≡ false) (λ b. same_pair (f a) b ≡ false) rows
            (λ b e. rw (c a, j a) e) u.0))
    | inr miss ↦
        rw miss
          (All-update_where (λ b. same_pair a b ≡ false) p f rows (λ b h e. rw (c b, j b) e) u.0)
  ],
  IsUnique-update_where p f c j rows u.1,
)

same_update :
    (f : Application → Application) (a : Application) (rows : List Application)
    → ((b : Application) → (f b).id ≡ b.id)
    → IsIn a rows
    → IsKeyed (λ x. x.id) rows
    → update_where (λ x. x.id == (f a).id) (λ _. f a) rows ≡ update_where (λ x. x.id == a.id) f rows
same_update f a rows i m keyed =
    ap (λ k. update_where (λ x. x.id == k) (λ x. f a) rows) (i a)
    ∙ update_where_const (λ x. x.id) f a rows keyed m

-- Replacing a row of the table by one with the same key and pair.
pub save-IsValid :
    (f : Application → Application) (a : Application) (rows : List Application)
    → ((b : Application) → (f b).id ≡ b.id)
    → ((b : Application) → (f b).candidate_id ≡ b.candidate_id)
    → ((b : Application) → (f b).job_id ≡ b.job_id)
    → IsIn a rows
    → IsValidApplication (f a)
    → IsValid rows
    → IsValid (update_where (λ x. x.id == (f a).id) (λ _. f a) rows)
save-IsValid f a rows i c j m ok_row v = record {
  keyed = IsKeyed-update_where (λ x. x.id) (λ x. f a) (f a).id (λ x h. refl) rows v.keyed;
  unique =
      subst IsUnique (sym (same_update f a rows i m v.keyed))
        (IsUnique-update_where (λ x. x.id == a.id) f c j rows v.unique);
  valid =
      All-update_where IsValidApplication (λ x. x.id == (f a).id) (λ x. f a) rows
        (λ x h old. ok_row) v.valid;
}

moved_closing :
    (c : CompanyApplicationStatus) (now : ℕ) (closed_at : Option ℕ)
    → is_some closed_at ≡ false
    → is_some (if closes (target_status c) then some now else closed_at)
      ≡ is_terminal (target_status c)
moved_closing CompanyApplicationStatus.under_review now closed_at none_yet = none_yet
moved_closing CompanyApplicationStatus.in_selection_process now closed_at none_yet = none_yet
moved_closing CompanyApplicationStatus.hired now closed_at none_yet = refl
moved_closing CompanyApplicationStatus.not_selected now closed_at none_yet = refl

pub moved-IsValidApplication :
    (c : CompanyApplicationStatus) (reason : Option Str) (now : ℕ) (a : Application)
    → Step a.status (target_status c)
    → IsValidApplication a
    → IsValidApplication (moved (target_status c) reason now a)
unfolding moved
moved-IsValidApplication c reason now a st v = record {
  closing = moved_closing c now a.closed_at (v.closing ∙ Step-is_terminal st);
  range = v.range;
}

pub withdrawn-IsValidApplication :
    (now : ℕ) (a : Application) → IsValidApplication a → IsValidApplication (withdrawn now a)
unfolding withdrawn
withdrawn-IsValidApplication now a v = record { closing = refl; range = v.range }

pub new_application-IsValidApplication :
    (server : Server) (candidate_id job_id : ℕ) (type : ApplicationType) (required held : List ℕ)
    → IsValidApplication
        (new_application server candidate_id job_id type (match_requirements required held))
unfolding new_application
new_application-IsValidApplication server candidate_id job_id type required held = record {
  closing = refl;
  range = (match_requirements_lem required held).0;
}

-- A new row whose identifier and pair are not taken.
pub insert-IsValid :
    (a : Application) (rows : List Application)
    → All (λ b. b.id ≢ a.id) rows
    → has_applied a.candidate_id a.job_id rows ≡ false
    → IsValidApplication a
    → IsValid rows
    → IsValid (a ∷ rows)
insert-IsValid a rows fresh new ok_row v = record {
  keyed = (fresh, v.keyed);
  unique = (exists_where-false (same_pair a) rows new, v.unique);
  valid = (ok_row, v.valid);
}
