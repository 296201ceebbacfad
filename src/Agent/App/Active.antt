-- ===== src/Agent/App/Active.antt =====
-- The active executions follow the processes: `runProcessScan` of apps/agent/internal/app/app.go.
use dysonsphere.Common.{
  ℕ, suc, ◌≡◌, refl, sym, ◌∙◌, Bool, true, false, ◌&&◌, ◌||◌, Bool-cases, ◌⊎◌, inl, inr, Option,
  none, some, List, [], ◌∷◌, map, Text, text_eq, text_beq_iff, nat_eq, nat_beq_iff, ◌==◌,
  if◌then◌else◌, All, arith,
}
use dysonsphere.Common.Assoc.{Assoc, lookup, lookup-insert, lookup-remove}
use dysonsphere.Common.Tables.{exists_row}
use dysonsphere.Common.Strings.{is_some}
use dysonsphere.Agent.World.{AgentEnv, World}
use dysonsphere.Agent.Discovery.{DiscoveredJob}
use dysonsphere.Agent.Process.{
  ProcessSnapshot, MatchedProcess, matches_command, match_of, match_one, or_next, add_match,
  match_jobs,
}
use dysonsphere.Agent.App.{
  ActiveExecution, Memory, start_job, start_one, start_all, finish_one, is_current, finish_all,
  command_of, with_orders, scanned, run_process_scan,
}

abbrev pub has {ℓ} : {V : Type ℓ} → ℕ → Assoc ℕ V → Bool
has pid active = is_some (lookup pid active)

-- The job of a match is known.
abbrev pub JobKnown : Assoc Text DiscoveredJob → MatchedProcess → Type 0
JobKnown known m = is_some (lookup m.job_hash known) ≡ true

module _ (env : AgentEnv) where
  start_job-has :
      (m : MatchedProcess) (job : Option DiscoveredJob) (active : Assoc ℕ ActiveExecution)
      (w : World env) (pid : ℕ)
      → is_some job ≡ true
      → has pid (start_job env m job active w).0 ≡ (m.process.pid == pid || has pid active)
  start_job-has m none active w pid h = ground (arith, h)
  start_job-has m (some job) active w pid h =
      rw (lookup-insert m.process.pid pid _ active) (ground arith)

  start_one-has :
      (known : Assoc Text DiscoveredJob) (m : MatchedProcess) (active : Assoc ℕ ActiveExecution)
      (w : World env) (pid : ℕ)
      → JobKnown known m
      → has pid (start_one env known m active w).0 ≡ (m.process.pid == pid || has pid active)
  unfolding start_one
  start_one-has known m active w pid h = elim (Bool-cases (has m.process.pid active)) [
    | inl old ↦ rw old (elim (Bool-cases (m.process.pid == pid)) [
      | inl same ↦
          let p : m.process.pid ≡ pid = (nat_beq_iff m.process.pid pid).0 same in
          rw same (rw p at old)
      | inr other ↦ rw other refl
    ])
    | inr new ↦ rw new (start_job-has m (lookup m.job_hash known) active w pid h)
  ]

  start_all-has :
      (known : Assoc Text DiscoveredJob) (ms : List MatchedProcess)
      (active : Assoc ℕ ActiveExecution) (w : World env) (pid : ℕ)
      → All (JobKnown known) ms
      → has pid (start_all env known ms active w).0 ≡ (is_current ms pid || has pid active)
  unfolding start_all exists_row
  start_all-has known [] active w pid h = refl
  start_all-has known (m ∷ ms) active w pid h = ground (
    arith,
    start_one-has known m active w pid h.0,
    start_all-has known ms (start_one env known m active w).0 (start_one env known m active w).1 pid
        h.1,
  )

  finish_one-has :
      (now k : ℕ) (a : ActiveExecution) (active : Assoc ℕ ActiveExecution) (w : World env) (pid : ℕ)
      → has pid (finish_one env now k a active w).0 ≡ (if k == pid then false else has pid active)
  unfolding finish_one
  finish_one-has now k a active w pid = rw (lookup-remove k pid active) (ground arith)

  current_at :
      (matched : List MatchedProcess) (j k : ℕ)
      → (j == k) ≡ true
      → is_current matched j ≡ is_current matched k
  current_at matched j k h = let p : j ≡ k = (nat_beq_iff j k).0 h in λ i. is_current matched (p i)

  -- An execution stays active if it is current, or if the loop does not come to it.
  finish_all-has :
      (matched : List MatchedProcess) (now : ℕ) (order : List (ℕ × ActiveExecution))
      (active : Assoc ℕ ActiveExecution) (w : World env) (pid : ℕ)
      → has pid (finish_all env matched now order active w).0 ≡ (
          if exists_row (λ e. e.0 == pid) order
          then has pid active && is_current matched pid
          else has pid active)
  unfolding finish_all exists_row
  finish_all-has matched now [] active w pid = refl
  finish_all-has matched now ((k, a) ∷ rest) active w pid =
      elim (Bool-cases (is_current matched k)) [
        | inl current ↦ rw current (
            ground (
              arith,
              finish_all-has matched now rest active w pid,
              current_at matched k pid,
              current,
            ))
        | inr gone ↦ rw gone (
            ground (
              arith,
              finish_all-has matched now rest (finish_one env now k a active w).0
                  (finish_one env now k a active w).1 pid,
              finish_one-has now k a active w pid,
              current_at matched k pid,
              gone,
            ))
      ]

exists-has :
    (pid : ℕ) (active : Assoc ℕ ActiveExecution)
    → exists_row (λ e. e.0 == pid) active ≡ has pid active
unfolding exists_row lookup
exists-has pid [] = refl
exists-has pid ((k, a) ∷ active) = ground (arith, exists-has pid active)

exists-known :
    (hash : Text) (known : Assoc Text DiscoveredJob)
    → exists_row (λ e. e.0 == hash) (map command_of known) ≡ is_some (lookup hash known)
unfolding exists_row lookup
exists-known hash [] = refl
exists-known hash ((k, a) ∷ known) = ground (arith, exists-known hash known)

module _ (quote : Text → Text) where
  -- A match is of one of the jobs that were gone through.
  abbrev Among : Assoc Text Text → MatchedProcess → Type 0
  Among jobs m = exists_row (λ j. j.0 == m.job_hash) jobs ≡ true

  first_match :
      (snap : ProcessSnapshot) (hash cmd : Text) (b : Option Bool)
      (rest : Option (Option MatchedProcess)) (m : MatchedProcess)
      → or_next quote b (match_of quote snap hash cmd) rest ≡ some (some m)
      → (m.job_hash ≡ hash) ⊎ (rest ≡ some (some m))
  first_match snap hash cmd none rest m h = ground (arith, h)
  first_match snap hash cmd (some true) rest m h = inl (ground (arith, h))
  first_match snap hash cmd (some false) rest m h = inr h

  match_one-Among :
      (snap : ProcessSnapshot) (jobs : Assoc Text Text) (m : MatchedProcess)
      → match_one quote snap jobs ≡ some (some m)
      → Among jobs m
  unfolding match_one exists_row
  match_one-Among snap [] m h = ground (arith, h)
  match_one-Among snap ((hash, cmd) ∷ jobs) m h =
      elim (first_match snap hash cmd (matches_command snap.cmdline cmd) (match_one quote snap jobs)
        m h) [
          | inl here ↦ ground (arith, text_beq_iff hash m.job_hash, sym here)
          | inr later ↦ ground (arith, match_one-Among snap jobs m later)
        ]

  added :
      (P : MatchedProcess → Type 0) (o : Option (Option MatchedProcess))
      (rest : Option (List MatchedProcess)) (ms : List MatchedProcess)
      → add_match quote o rest ≡ some ms
      → ((m : MatchedProcess) → o ≡ some (some m) → P m)
      → ((xs : List MatchedProcess) → rest ≡ some xs → All P xs)
      → All P ms
  added P none rest ms h f g = ground (arith, h)
  added P (some none) none ms h f g = ground (arith, h)
  added P (some (some m)) none ms h f g = ground (arith, h)
  added P (some none) (some xs) ms h f g = g ms h
  added P (some (some m)) (some xs) ms h f g =
      let q : m ∷ xs ≡ ms = ground (arith, h) in rw (← q) (f m refl, g xs refl)

  match_jobs-All :
      (P : MatchedProcess → Type 0) (snaps : List (ProcessSnapshot × Assoc Text Text))
      (ms : List MatchedProcess)
      → All (λ s. (m : MatchedProcess) → Among s.1 m → P m) snaps
      → match_jobs quote snaps ≡ some ms
      → All P ms
  unfolding match_jobs
  match_jobs-All P [] ms h e = let q : [] ≡ ms = ground (arith, e) in rw (← q) tt
  match_jobs-All P ((snap, jobs) ∷ rest) ms h e =
      added P (match_one quote snap jobs) (match_jobs quote rest) ms e
        (λ m f. h.0 m (match_one-Among snap jobs m f)) (λ xs f. match_jobs-All P rest xs h.1 f)

some_inj : {A : Type 0} {a b : A} → some a ≡ some b → a ≡ b
some_inj h = ground (arith, h)

-- A `range` goes through every entry of a map, and through nothing else.
abbrev pub GoesThrough : AgentEnv → Type 1
GoesThrough env =
    (A : Type 0) (p : A → Bool) (n : ℕ) (xs : List A)
    → exists_row p (env.visit n xs) ≡ exists_row p xs

module _ (env : AgentEnv) (through : GoesThrough env) where
  orders-known :
      (known : Assoc Text DiscoveredJob) (n : ℕ) (snaps : List ProcessSnapshot)
      → All
          (λ s. (m : MatchedProcess) → Among env.quote s.1 m → JobKnown known m)
          (with_orders env (map command_of known) n snaps)
  unfolding with_orders
  orders-known known n [] = tt
  orders-known known n (snap ∷ snaps) = (
    (λ m h.
        sym (exists-known m.job_hash known)
        ∙ (sym (through (Text × Text) (λ j. j.0 == m.job_hash) n (map command_of known)) ∙ h)),
    orders-known known (suc n) snaps,
  )

  scanned-has :
      (mem mem' : Memory) (matched : List MatchedProcess) (w : World env) (pid : ℕ)
      → All (JobKnown mem.known_jobs) matched
      → (scanned env mem (some matched) w).0 ≡ some mem'
      → has pid mem'.active_jobs ≡ is_current matched pid
  scanned-has mem mem' matched w pid known h =
      let started = start_all env mem.known_jobs matched mem.active_jobs w in
      let active = started.0 in
      let now = env.now started.1.steps in
      let n = suc started.1.steps in
      let later = record started.1 { steps = suc n } in
      let left = (finish_all env matched now (env.visit n active) active later).0 in
      let q : record mem { active_jobs = left } ≡ mem' = some_inj h in
      rw (← q) (
        ground (
          arith,
          start_all-has env mem.known_jobs matched mem.active_jobs w pid known,
          finish_all-has env matched now (env.visit n active) active later pid,
          through (ℕ × ActiveExecution) (λ e. e.0 == pid) n active,
          exists-has pid active,
        ))

-- A process scan that does not panic leaves active exactly the processes that it matched, if a
-- `range` goes through every entry of a map and through nothing else.
pub active_exactly :
    (env : AgentEnv) (mem mem' : Memory) (snaps : List ProcessSnapshot)
    (matched : List MatchedProcess) (w : World env) (pid : ℕ)
    → GoesThrough env
    → match_jobs env.quote (with_orders env (map command_of mem.known_jobs) w.steps snaps)
      ≡ some matched
    → (run_process_scan env (some snaps) mem w).0 ≡ some mem'
    → has pid mem'.active_jobs ≡ is_current matched pid
unfolding run_process_scan
active_exactly env mem mem' snaps matched w pid through m h =
    scanned-has env through mem mem' matched (record w { steps = suc w.steps }) pid
      (match_jobs-All env.quote (JobKnown mem.known_jobs) _ matched
        (orders-known env through mem.known_jobs w.steps snaps) m)
      (rw m at h)
