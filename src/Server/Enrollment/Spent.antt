-- ===== src/Server/Enrollment/Spent.antt =====
-- Used rows in the table of enrollment tokens: apps/server/internal/repository/enrollment_token.go.
use dysonsphere.Common.{
  ℕ, ◌≡◌, Bool, true, false, Option, none, some, List, [], ◌∷◌, ◌++◌, Text, text_eq, text_beq,
  arith,
}
use dysonsphere.Common.Tables.{find, update_where, exists_row}
use dysonsphere.Server.Domain.{EnrollmentToken}
use dysonsphere.Server.Store.{Db}
use dysonsphere.Server.Repository.EnrollmentTokenRepo.{spend}

abbrev pub was_used : Option EnrollmentToken → Bool
was_used none = false
was_used (some r) = r.used

-- The token that a lookup of the hash finds has been used.
abbrev pub spent_in : Text → List EnrollmentToken → Bool
spent_in h rows = was_used (find (λ t. text_beq t.token_hash h) rows)

abbrev pub Spent : Text → Db → Type 0
Spent h db = spent_in h db.tokens ≡ true

-- Marking any token leaves a used token used.
pub mark-spent :
    (h g : Text) (now : ℕ) (rows : List EnrollmentToken)
    → spent_in h rows ≡ true
    → spent_in h (update_where (λ t. text_beq t.token_hash g) (spend now) rows) ≡ true
unfolding find update_where
mark-spent h g now [] e = e
mark-spent h g now (t ∷ rows) e = ground (arith, mark-spent h g now rows)

-- Marking the token makes it used.
pub marked-spent :
    (h : Text) (now : ℕ) (rows : List EnrollmentToken)
    → exists_row (λ t. text_beq t.token_hash h) rows ≡ true
    → spent_in h (update_where (λ t. text_beq t.token_hash h) (spend now) rows) ≡ true
unfolding find update_where exists_row
marked-spent h now [] e = ground arith
marked-spent h now (t ∷ rows) e = ground (arith, marked-spent h now rows)

pub spent-append :
    (h : Text) (t : EnrollmentToken) (rows : List EnrollmentToken)
    → spent_in h rows ≡ true
    → spent_in h (rows ++ t ∷ []) ≡ true
unfolding find
spent-append h t [] e = ground arith
spent-append h t (u ∷ rows) e = ground (arith, spent-append h t rows)

pub spent-exists :
    (h : Text) (rows : List EnrollmentToken)
    → spent_in h rows ≡ true
    → exists_row (λ t. text_beq t.token_hash h) rows ≡ true
unfolding find exists_row
spent-exists h [] e = ground arith
spent-exists h (t ∷ rows) e = ground (arith, spent-exists h rows)
