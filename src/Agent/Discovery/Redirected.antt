-- ===== src/Agent/Discovery/Redirected.antt =====
-- A job that is logged to a file is the job that is not: `normalizeCommand` of
-- apps/agent/internal/discovery/cron.go.
use dysonsphere.Common.{ℕ, ◌≡◌, false, [], ◌∷◌, ◌++◌, All, Text, nat_eq, nat_beq}
use dysonsphere.Common.Strings.{has_prefix}
use dysonsphere.Agent.Discovery.{is_blank}

-- A text without the sign of a redirection.
abbrev IsPlain : Text → Type 0
IsPlain = All (λ c. nat_beq b'>' c ≡ false)

-- A text that does not end in a blank.
abbrev pub Ends : Text → Type 0
Ends [] = ⊥
Ends (c ∷ []) = is_blank c ≡ false
Ends (c ∷ d ∷ s) = Ends (d ∷ s)

-- A text without blanks.
abbrev pub IsPath : Text → Type 0
IsPath = All (λ c. is_blank c ≡ false)

-- A pattern that begins at no character that is followed by a plain text and by `t`.
abbrev Misses : Text → Text → Type 0
Misses old t =
    (c : ℕ) (s : Text) → nat_beq b'>' c ≡ false → IsPlain s → has_prefix old (c ∷ s ++ t) ≡ false
