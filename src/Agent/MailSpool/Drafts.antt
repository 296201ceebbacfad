-- ===== src/Agent/MailSpool/Drafts.antt =====
-- The mails of a spool before the clock dates those that show no date:
-- apps/agent/internal/observer/mailspool.go.
pub mod Ends
use dysonsphere.Common.{
  ℕ, ◌≡◌, refl, sym, ◌∙◌, ◌⊎◌, Option, none, some, List, [], ◌∷◌, ◌++◌, Text, text_eq, Bool-cases,
  inl, inr, if◌then◌else◌,
}
use dysonsphere.Common.Strings.{codes, is_empty}
use dysonsphere.Common.Assoc.{lookup}
use dysonsphere.Agent.MailSpool.{
  MailEnv, CronMailMessage, written_date, date_or_now, parse_envelope_date, is_mbox_from_line,
  read_headers, parse_cron_subject, strip_blank, text_of, message_for, message_of, build_message,
  keep, finished, extend, read_lines,
}

-- The date that a mail shows, and the mail with the date 0.
abbrev pub Draft : Type 0
Draft = Option ℕ × CronMailMessage

abbrev pub undated : CronMailMessage → CronMailMessage
undated m = record m { envelope_date = 0 }

-- A date is the one that the mail shows, or else one of the clock.
abbrev pub IsDate : MailEnv → Option ℕ → ℕ → Type 0
IsDate env (some t) date = date ≡ t
IsDate env none date = (step : ℕ) × (date ≡ env.now step)

abbrev pub IsDated : MailEnv → Draft → CronMailMessage → Type 0
IsDated env d m = (undated m ≡ d.1) × IsDate env d.0 m.envelope_date

abbrev pub AreDated : MailEnv → List Draft → List CronMailMessage → Type 0
AreDated env [] [] = Unit
AreDated env [] (m ∷ ms) = ⊥
AreDated env (d ∷ ds) [] = ⊥
AreDated env (d ∷ ds) (m ∷ ms) = IsDated env d m × AreDated env ds ms

-- Two mails are the same but for their dates, and these differ only where both are the clock's.
abbrev pub SameMail : MailEnv → CronMailMessage → CronMailMessage → Type 0
SameMail env m n =
    (undated m ≡ undated n)
    × ((m.envelope_date ≡ n.envelope_date)
        ⊎ (((step : ℕ) × (m.envelope_date ≡ env.now step))
            × ((step : ℕ) × (n.envelope_date ≡ env.now step))))

abbrev pub SameMails : MailEnv → List CronMailMessage → List CronMailMessage → Type 0
SameMails env [] [] = Unit
SameMails env [] (n ∷ ns) = ⊥
SameMails env (m ∷ ms) [] = ⊥
SameMails env (m ∷ ms) (n ∷ ns) = SameMail env m n × SameMails env ms ns

abbrev pub draft_of : Option ℕ → Option CronMailMessage → Option Draft
draft_of date none = none
draft_of date (some m) = some (date, m)

unfoldable pub draft_message : MailEnv → List Text → Option Draft
draft_message env [] = none
draft_message env (envelope ∷ lines) =
    let (headers, body) = read_headers [] lines in
    draft_of (written_date env envelope)
      (message_of env 0 envelope (text_of (lookup (codes "subject") headers)) (strip_blank body))

abbrev pub drafted : MailEnv → Option (List Text) → List Draft
drafted env none = []
drafted env (some lines) = keep (draft_message env lines)

-- What a line completes, and the message that is read after it.
abbrev pub draft_line : MailEnv → Option (List Text) → Text → List Draft × Option (List Text)
draft_line env current line =
    if is_mbox_from_line line
    then (drafted env current, some (line ∷ []))
    else ([], extend current line)

unfoldable pub draft_lines : MailEnv → Option (List Text) → List Text → List Draft
draft_lines env current [] = drafted env current
draft_lines env current (line ∷ lines) =
    let (done, next) = draft_line env current line in done ++ draft_lines env next lines

date_or_now-IsDate :
    (env : MailEnv) (date : Option ℕ) (step : ℕ) → IsDate env date (date_or_now env date step).0
date_or_now-IsDate env (some t) step = refl
date_or_now-IsDate env none step = (step, refl)

message_for-AreDated :
    (env : MailEnv) (date : Option ℕ) (t : ℕ) (envelope subject : Text) (body : List Text)
    (parsed : Option (Text × Text))
    → IsDate env date t
    → AreDated env
        (keep (draft_of date (message_for env 0 envelope subject body parsed)))
        (keep (message_for env t envelope subject body parsed))
message_for-AreDated env date t envelope subject body none h = tt
message_for-AreDated env date t envelope subject body (some (command, mail_user)) h =
    ((refl, h), tt)

message_of-AreDated :
    (env : MailEnv) (date : Option ℕ) (t : ℕ) (envelope subject : Text) (body : List Text)
    → IsDate env date t
    → AreDated env
        (keep (draft_of date (message_of env 0 envelope subject body)))
        (keep (message_of env t envelope subject body))
message_of-AreDated env date t envelope subject body h = elim (Bool-cases (is_empty subject)) [
  | inl blank ↦ rw blank tt
  | inr filled ↦
      rw filled
        (message_for-AreDated env date t envelope subject body (parse_cron_subject subject) h)
]

build_message-AreDated :
    (env : MailEnv) (lines : List Text) (step : ℕ)
    → AreDated env (keep (draft_message env lines)) (keep (build_message env lines step).0)
unfolding build_message draft_message parse_envelope_date
build_message-AreDated env [] step = tt
build_message-AreDated env (envelope ∷ lines) step =
    message_of-AreDated env (written_date env envelope) _ envelope _ _
      (date_or_now-IsDate env (written_date env envelope) step)

finished-AreDated :
    (env : MailEnv) (current : Option (List Text)) (step : ℕ)
    → AreDated env (drafted env current) (finished env current step).0
finished-AreDated env none step = tt
finished-AreDated env (some lines) step = build_message-AreDated env lines step

pub AreDated-append :
    (env : MailEnv) (ds es : List Draft) (ms ns : List CronMailMessage)
    → AreDated env ds ms
    → AreDated env es ns
    → AreDated env (ds ++ es) (ms ++ ns)
AreDated-append env [] es [] ns h k = k
AreDated-append env [] es (m ∷ ms) ns h k = absurd h
AreDated-append env (d ∷ ds) es [] ns h k = absurd h
AreDated-append env (d ∷ ds) es (m ∷ ms) ns h k = (h.0, AreDated-append env ds es ms ns h.1 k)

-- A reading of the lines is their drafts with dates, at any time.
pub read_lines-AreDated :
    (env : MailEnv) (current : Option (List Text)) (lines : List Text) (step : ℕ)
    → AreDated env (draft_lines env current lines) (read_lines env current lines step).0
unfolding read_lines draft_lines
read_lines-AreDated env current [] step = finished-AreDated env current step
read_lines-AreDated env current (line ∷ lines) step = elim (Bool-cases (is_mbox_from_line line)) [
  | inl from ↦ rw from (
      AreDated-append env (drafted env current) _ (finished env current step).0 _
        (finished-AreDated env current step)
        (read_lines-AreDated env (some (line ∷ [])) lines (finished env current step).1))
  | inr inside ↦ rw inside (read_lines-AreDated env (extend current line) lines step)
]

same_date :
    (env : MailEnv) (date : Option ℕ) (s t : ℕ)
    → IsDate env date s
    → IsDate env date t
    → (s ≡ t) ⊎ (((step : ℕ) × (s ≡ env.now step)) × ((step : ℕ) × (t ≡ env.now step)))
same_date env (some d) s t h k = inl (h ∙ sym k)
same_date env none s t h k = inr (h, k)

-- Two datings of the same drafts are the same mails.
pub AreDated-SameMails :
    (env : MailEnv) (ds : List Draft) (ms ns : List CronMailMessage)
    → AreDated env ds ms
    → AreDated env ds ns
    → SameMails env ms ns
AreDated-SameMails env [] [] [] h k = tt
AreDated-SameMails env [] [] (n ∷ ns) h k = absurd k
AreDated-SameMails env [] (m ∷ ms) ns h k = absurd h
AreDated-SameMails env (d ∷ ds) [] ns h k = absurd h
AreDated-SameMails env (d ∷ ds) (m ∷ ms) [] h k = absurd k
AreDated-SameMails env (d ∷ ds) (m ∷ ms) (n ∷ ns) h k = (
  (h.0.0 ∙ sym k.0.0, same_date env d.0 m.envelope_date n.envelope_date h.0.1 k.0.1),
  AreDated-SameMails env ds ms ns h.1 k.1,
)
