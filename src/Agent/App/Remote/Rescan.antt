-- ===== src/Agent/App/Remote/Rescan.antt =====
-- A mail spool that has not changed is reported once: `runMailScan` of apps/agent/internal/app/app.go
-- over apps/agent/internal/state/store.go and apps/agent/internal/observer/mailspool.go.
use dysonsphere.Common.{
  ℕ, suc, ◌≡◌, refl, sym, ◌∙◌, true, false, Bool-cases, inl, inr, none, some, List, [], ◌∷◌, Text,
  text_eq, text_beq_refl, nat_eq, nat_beq_iff, ◌==◌, arith,
}
use dysonsphere.Common.Assoc.{Assoc}
use dysonsphere.Server.Domain.{Json}
use dysonsphere.Agent.World.{AgentEnv, World, ask, update, view, clock, new_uuid}
use dysonsphere.Agent.World.Keeps.{Keeps, Keeps-pure, Keeps-update, Keeps-bind}
use dysonsphere.Agent.Store.{text_or_empty, save_execution, get_meta, set_meta}
use dysonsphere.Agent.MailSpool.{
  MailEnv, CronMailMessage, spool, Reading, start_of, size, drop_bytes, read_new,
}
use dysonsphere.Agent.Discovery.{DiscoveredJob}
use dysonsphere.Agent.Reporter.{buffer_execution}
use dysonsphere.Agent.App.Remote.{
  correlate, process_mail_message, process_mails, offset_key, offset_of, save_offset, read_mails,
  scan_spool,
}
use dysonsphere.Agent.App.Events.{mail_event}

drop_none : (s : Text) → drop_bytes 0 s ≡ s
unfolding drop_bytes
drop_none [] = refl
drop_none (c ∷ s) = refl

start_at : (n : ℕ) → start_of n n ≡ n
start_at n = ground arith

start_zero : (n : ℕ) → start_of 0 n ≡ 0
start_zero n = ground arith

-- A reading from the start ends at the end.
read_whole :
    (mail : MailEnv) (s : Text) (step : ℕ)
    → ((read_new mail (spool s) 0 step).0.offset ≡ size s)
      × ((read_new mail (spool s) 0 step).0.failed ≡ false)
unfolding read_new
read_whole mail s step = elim (Bool-cases (size s == 0)) [
  | inl blank ↦ rw blank (ground (arith, nat_beq_iff (size s) 0, blank), refl)
  | inr filled ↦
      let more : (0 == size s) ≡ false =
        ground (arith, nat_beq_iff 0 (size s), nat_beq_iff (size s) 0, filled) in
      rw (filled, start_zero (size s), more, drop_none s) (omega arith, refl)
]

-- A reading from the end finds nothing.
read_rest :
    (mail : MailEnv) (s : Text) (step : ℕ)
    → (read_new mail (spool s) (size s) step).0
      ≡ record { messages = []; offset = size s; failed = false }
unfolding read_new
read_rest mail s step = elim (Bool-cases (size s == 0)) [
  | inl blank ↦ let p : size s ≡ 0 = (nat_beq_iff (size s) 0).0 blank in rw p refl
  | inr filled ↦
      let whole : (size s == size s) ≡ true = (nat_beq_iff (size s) (size s)).1 refl in
      rw (filled, start_at (size s), whole) refl
]

module _ (env : AgentEnv) (path : Text) (end : ℕ) where
  -- The offset that the next scan reads.
  abbrev Stands : World env → Type 0
  Stands w =
      offset_of env
        (some (text_or_empty env (env.bolt.get w.buckets.settings (offset_key env path))))
      ≡ end

  buffer-Stands : (id : Text) (event : Json) → Keeps Stands (buffer_execution env id event)
  unfolding buffer_execution save_execution
  buffer-Stands id event =
      Keeps-bind (save_execution env id event) _
        (Keeps-bind (clock env) _ (record { after = λ w h. h })
          λ now.
            Keeps-update env Stands
              (λ b. record b {
                executions =
                    env.bolt.put b.executions id
                      (record { id = id; created_at = now; payload = event });
              })
              (λ w h. h) (λ w h. h))
        λ r. Keeps-pure tt

  mails-Stands :
      (known : Assoc Text DiscoveredJob) (msgs : List CronMailMessage)
      → Keeps Stands (process_mails env known msgs)
  unfolding process_mails process_mail_message
  mails-Stands known [] = Keeps-pure tt
  mails-Stands known (msg ∷ msgs) =
      Keeps-bind (process_mail_message env known msg) _
        (Keeps-bind (ask λ n. env.visit n known) _ (record { after = λ w h. h })
          λ jobs.
            Keeps-bind (new_uuid env) _ (record { after = λ w h. h })
              λ id. buffer-Stands id (mail_event env msg (correlate env msg jobs)))
        λ u. mails-Stands known msgs

module _ (env : AgentEnv) (path : Text) (up : (n : ℕ) → env.store_fails n ≡ false) where
  -- What the setting of the path gives as an offset.
  abbrev offset_in : World env → ℕ
  offset_in w =
      offset_of env
        (some (text_or_empty env (env.bolt.get w.buckets.settings (offset_key env path))))

  second_scan :
      (mail : MailEnv) (known : Assoc Text DiscoveredJob) (s : Text) (w : World env)
      → offset_in w ≡ size s
      → (scan_spool env mail known path (spool s) w).1.buckets ≡ w.buckets
  unfolding scan_spool get_meta view process_mails
  second_scan mail known s w h =
      let whole : (size s == size s) ≡ true = (nat_beq_iff (size s) (size s)).1 refl in
      rw (up w.steps, h, read_rest (record mail { now = env.now }) s (suc w.steps), whole) refl

  module _ (back : (n : ℕ) → env.scan_int (env.show_int n) ≡ n) (blank : env.scan_int [] ≡ 0) where
    saved :
        (end : ℕ) (w : World env)
        → env.bolt.get w.buckets.settings (offset_key env path) ≡ none
        → offset_in (save_offset env path 0 end w).1 ≡ end
    unfolding set_meta update
    saved end w fresh = elim (Bool-cases (end == 0)) [
      | inl none_read ↦ rw (none_read, fresh, blank) (sym ((nat_beq_iff end 0).0 none_read))
      | inr read ↦
          rw
            (
              read,
              up w.steps,
              env.bolt.get-put w.buckets.settings (offset_key env path) (env.show_int end)
                  (offset_key env path),
              text_beq_refl (offset_key env path),
            )
            (back end)
    ]

    first_mails :
        (known : Assoc Text DiscoveredJob) (r : Reading) (w : World env)
        → r.failed ≡ false
        → env.bolt.get w.buckets.settings (offset_key env path) ≡ none
        → offset_in (read_mails env known path 0 r w).1 ≡ r.offset
    first_mails known r w fine fresh = rw fine (
        (mails-Stands env path r.offset known r.messages).after
          (save_offset env path 0 r.offset w).1 (saved r.offset w fresh))

    first_scan :
        (mail : MailEnv) (known : Assoc Text DiscoveredJob) (s : Text) (w : World env)
        → env.bolt.get w.buckets.settings (offset_key env path) ≡ none
        → offset_in (scan_spool env mail known path (spool s) w).1 ≡ size s
    unfolding scan_spool get_meta view
    first_scan mail known s w fresh =
        let (reading, later) = read_new (record mail { now = env.now }) (spool s) 0 (suc w.steps) in
        let (ends, fine) = read_whole (record mail { now = env.now }) s (suc w.steps) in
        rw (up w.steps, fresh, blank)
          (first_mails known reading (record w { steps = later }) fine fresh ∙ ends)

-- Where bbolt does not fail and a number is read back as it was written, a spool that was scanned for
-- the first time is not reported again: a second scan of the same text leaves the state file as it is.
pub rescan_is_silent :
    (env : AgentEnv) (mail : MailEnv) (known : Assoc Text DiscoveredJob) (path s : Text)
    (w : World env)
    → ((n : ℕ) → env.store_fails n ≡ false)
    → ((n : ℕ) → env.scan_int (env.show_int n) ≡ n)
    → env.scan_int [] ≡ 0
    → env.bolt.get w.buckets.settings (offset_key env path) ≡ none
    → let first = (scan_spool env mail known path (spool s) w).1 in
      (scan_spool env mail known path (spool s) first).1.buckets ≡ first.buckets
rescan_is_silent env mail known path s w up back blank fresh =
    let first = (scan_spool env mail known path (spool s) w).1 in
    second_scan env path up mail known s first
      (first_scan env path up back blank mail known s w fresh)
