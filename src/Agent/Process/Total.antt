-- ===== src/Agent/Process/Total.antt =====
-- When the matching of processes panics: apps/agent/internal/observer/process.go.
use dysonsphere.Common.{
  ◌≡◌, ◌≢◌, refl, Bool, true, false, Bool-cases, inl, inr, Option, none, some, List, [], ◌∷◌, Text,
  All, arith,
}
use dysonsphere.Common.Assoc.{Assoc}
use dysonsphere.Common.Strings.{codes, is_empty, fields, join}
use dysonsphere.Agent.Discovery.{normalize_command}
use dysonsphere.Agent.Discovery.Normalize.{normalize_words}
use dysonsphere.Agent.Process.{
  ProcessSnapshot, MatchedProcess, first_field, contains_word, matches_command, match_of, or_next,
  match_one, add_match, match_jobs,
}

-- A command that a discovery has normalized.
abbrev pub Normalized : Text × Text → Type 0
Normalized job = (cmd : Text) × (job.1 ≡ normalize_command cmd)

no_words :
    (s : Text) (ws : List Text)
    → join (codes " ") ws ≡ s
    → first_field ws ≡ none
    → is_empty s ≡ true
unfolding join
no_words s [] p h = rw (← p) refl
no_words s (w ∷ ws) p h = ground (arith, h)

word_found : (w : Option Text) (cmdline : Text) → contains_word w cmdline ≡ none → w ≡ none
word_found none cmdline h = refl
word_found (some w) cmdline h = ground (arith, h)

matches_total :
    (cmdline : Text) (job : Text × Text) → Normalized job → matches_command cmdline job.1 ≢ none
unfolding matches_command
matches_total cmdline job (cmd, p) h = elim (Bool-cases (is_empty job.1)) [
  | inl blank ↦ ground (arith, (rw blank at h))
  | inr filled ↦
      let f : first_field (fields job.1) ≡ none =
        word_found (first_field (fields job.1)) cmdline (rw filled at h) in
      let q : join (codes " ") (fields job.1) ≡ job.1 = (rw p (normalize_words cmd).1) in
      ground (arith, no_words job.1 (fields job.1) q f, filled)
]

module _ (quote : Text → Text) where
  or_next_total :
      (b : Option Bool) (m : MatchedProcess) (rest : Option (Option MatchedProcess))
      → b ≢ none
      → rest ≢ none
      → or_next quote b m rest ≢ none
  or_next_total none m rest h k e = h refl
  or_next_total (some true) m rest h k e = ground (arith, e)
  or_next_total (some false) m rest h k e = k e

  match_one_total :
      (snap : ProcessSnapshot) (jobs : Assoc Text Text)
      → All Normalized jobs
      → match_one quote snap jobs ≢ none
  unfolding match_one
  match_one_total snap [] h e = ground (arith, e)
  match_one_total snap (job ∷ jobs) h e =
      or_next_total (matches_command snap.cmdline job.1) (match_of quote snap job.0 job.1)
        (match_one quote snap jobs) (matches_total snap.cmdline job h.0)
        (match_one_total snap jobs h.1) e

  add_match_total :
      (m : Option (Option MatchedProcess)) (ms : Option (List MatchedProcess))
      → m ≢ none
      → ms ≢ none
      → add_match quote m ms ≢ none
  add_match_total none ms h k e = h refl
  add_match_total (some m) none h k e = k refl
  add_match_total (some none) (some ms) h k e = ground (arith, e)
  add_match_total (some (some m)) (some ms) h k e = ground (arith, e)

  -- The matching of processes does not panic if every command is one that a discovery has normalized.
  pub match_jobs_total :
      (snaps : List (ProcessSnapshot × Assoc Text Text))
      → All (λ s. All Normalized s.1) snaps
      → match_jobs quote snaps ≢ none
  unfolding match_jobs
  match_jobs_total [] h e = ground (arith, e)
  match_jobs_total ((snap, jobs) ∷ rest) h e =
      add_match_total (match_one quote snap jobs) (match_jobs quote rest)
        (match_one_total snap jobs h.0) (match_jobs_total rest h.1) e
