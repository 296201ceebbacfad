-- ===== src/Agent/MailSpool.antt =====
-- The reader of cron's mails: apps/agent/internal/observer/mailspool.go. MD5, Go's time.Parse and the
-- clock are not code of the repository: they are the operations of a `MailEnv`.
pub mod Drafts
pub mod Incremental
use dysonsphere.Common.{
  ℕ, suc, ◌+◌, ◌-◌, Bool, true, false, ◌&&◌, ◌||◌, not, Option, none, some, List, [], ◌∷◌, ◌++◌,
  map, Text, text_eq, nat_eq, ◌==◌, ltb, leb, length, drop, if◌then◌else◌,
}
use dysonsphere.Common.Assoc.{Assoc, lookup, insert}
use dysonsphere.Common.Strings.{
  codes, is_empty, trim_space, strip_prefix, has_prefix, cut, join, split, fields, to_lower,
  to_upper,
}
use dysonsphere.Server.Auth.Secure.{hex_encode}

-- `now` is the time at each step of the program. What reads the clock takes the number of the steps
-- made before, and gives it back with its own readings counted.
pub record MailEnv : Type 0 where
  pub md5 : Text → Text
  pub time_parse : Text → Text → Option ℕ
  pub now : ℕ → ℕ

pub record CronMailMessage : Type 0 where
  pub envelope_date : ℕ
  pub subject : Text
  pub command : Text
  pub mail_user : Text
  pub body : Text
  pub message_hash : Text

abbrev envelope_date_formats : List Text
envelope_date_formats =
    codes "Mon Jan _2 15:04:05 2006"
    ∷ codes "Mon Jan  2 15:04:05 2006"
    ∷ codes "Mon Jan 02 15:04:05 2006"
    ∷ codes "Mon Jan _2 15:04:05 MST 2006"
    ∷ codes "Mon Jan  2 15:04:05 MST 2006"
    ∷ codes "Mon Jan 02 15:04:05 MST 2006"
    ∷ []

-- By the first format that fits.
unfoldable pub try_formats : MailEnv → Text → List Text → Option ℕ
try_formats env date [] = none
try_formats env date (f ∷ fs) = elim (env.time_parse f date) [
  | none ↦ try_formats env date fs
  | some t ↦ some t
]

-- The date that an envelope line shows, if it can be read.
unfoldable pub written_date : MailEnv → Text → Option ℕ
written_date env line =
    if ltb (length (fields line)) 6
    then none
    else try_formats env (join (codes " ") (drop 2 (fields line))) envelope_date_formats

-- time.Now() where there is no date.
abbrev pub date_or_now : MailEnv → Option ℕ → ℕ → ℕ × ℕ
date_or_now env (some t) step = (t, step)
date_or_now env none step = (env.now step, suc step)

unfoldable pub parse_envelope_date : MailEnv → Text → ℕ → ℕ × ℕ
parse_envelope_date env line step = date_or_now env (written_date env line) step

unfoldable pub is_mbox_from_line : Text → Bool
unfolding has_prefix fields
is_mbox_from_line line = has_prefix (codes "From ") line && leb 3 (length (fields line))

abbrev is_folded : Text → Bool
is_folded [] = false
is_folded (c ∷ line) = c == b' ' || c == b'\t'

-- One header line. The keys are lower-cased in ASCII.
abbrev pub add_header : Assoc Text Text → Text → Assoc Text Text
add_header headers line = if is_folded line then headers else elim (cut b':' line) [
  | none ↦ headers
  | some (key, value) ↦
      if is_empty key
      then headers
      else insert (map to_lower (trim_space key)) (trim_space value) headers
]

-- The headers, and the lines after the blank line that ends them.
unfoldable pub read_headers : Assoc Text Text → List Text → Assoc Text Text × List Text
read_headers headers [] = (headers, [])
read_headers headers (line ∷ lines) =
    if is_empty line then (headers, lines) else read_headers (add_header headers line) lines

unfoldable pub parse_cron_subject : Text → Option (Text × Text)
parse_cron_subject subject =
    if has_prefix (codes "CRON ") (map to_upper subject)
    then elim (strip_prefix (codes "<") (trim_space (drop 5 subject))) [
      | none ↦ none
      | some rest ↦ elim (cut b'>' rest) [
        | none ↦ none
        | some (mail_user, after) ↦
            if is_empty (trim_space after) then none else some (trim_space after, mail_user)
      ]
    ]
    else none

-- Drops the blank lines at the end.
unfoldable pub strip_blank : List Text → List Text
strip_blank [] = []
strip_blank (line ∷ lines) =
    let rest = strip_blank lines in
    if is_empty (trim_space line) && is_empty rest then [] else line ∷ rest

abbrev pub unescape : Text → Text
unescape line = if has_prefix (codes ">From ") line then drop 1 line else line

abbrev pub text_of : Option Text → Text
text_of none = []
text_of (some s) = s

-- The message of a date, an envelope line, a subject with its command and user, and the lines of a
-- body without blank lines at its end.
abbrev pub message_for :
    MailEnv → ℕ → Text → Text → List Text → Option (Text × Text) → Option CronMailMessage
message_for env date envelope subject body none = none
message_for env date envelope subject body (some (command, mail_user)) = some (record {
  envelope_date = date;
  subject = subject;
  command = command;
  mail_user = mail_user;
  body = join (codes "\n") (map unescape body);
  message_hash = hex_encode (env.md5 (envelope ++ subject));
})

abbrev pub message_of : MailEnv → ℕ → Text → Text → List Text → Option CronMailMessage
message_of env date envelope subject body =
    if is_empty subject
    then none
    else message_for env date envelope subject body (parse_cron_subject subject)

-- The date is made before it is known whether the mail is one of cron.
unfoldable pub build_message : MailEnv → List Text → ℕ → Option CronMailMessage × ℕ
build_message env [] step = (none, step)
build_message env (envelope ∷ lines) step =
    let (date, later) = parse_envelope_date env envelope step in
    let (headers, body) = read_headers [] lines in
    (
      message_of env date envelope (text_of (lookup (codes "subject") headers)) (strip_blank body),
      later,
    )

abbrev pub keep {ℓ} : {A : Type ℓ} → Option A → List A
keep none = []
keep (some a) = a ∷ []

-- The lines of the message that is being read, if the loop is in one.
abbrev pub finished : MailEnv → Option (List Text) → ℕ → List CronMailMessage × ℕ
finished env none step = ([], step)
finished env (some lines) step =
    let (built, later) = build_message env lines step in (keep built, later)

abbrev pub extend : Option (List Text) → Text → Option (List Text)
extend none line = none
extend (some lines) line = some (lines ++ line ∷ [])

-- What a line completes, and the message that is read after it.
abbrev pub read_line :
    MailEnv → Option (List Text) → Text → ℕ → (List CronMailMessage × ℕ) × Option (List Text)
read_line env current line step =
    if is_mbox_from_line line
    then (finished env current step, some (line ∷ []))
    else (([], step), extend current line)

unfoldable pub read_lines : MailEnv → Option (List Text) → List Text → ℕ → List CronMailMessage × ℕ
read_lines env current [] step = finished env current step
read_lines env current (line ∷ lines) step =
    let (done, next) = read_line env current line step in
    let (messages, later) = read_lines env next lines done.1 in (done.0 ++ messages, later)

unfoldable pub parse_mbox : MailEnv → Text → ℕ → List CronMailMessage × ℕ
parse_mbox env text step = read_lines env none (split b'\n' text) step

-- The bytes of a character in UTF-8.
abbrev pub width : ℕ → ℕ
width c = if ltb c 0x80 then 1 else if ltb c 0x800 then 2 else if ltb c 0x10000 then 3 else 4

unfoldable pub size : Text → ℕ
size [] = 0
size (c ∷ s) = width c + size s

-- What follows the first n bytes, which end with a character.
unfoldable pub drop_bytes : ℕ → Text → Text
drop_bytes n [] = []
drop_bytes n (c ∷ s) = if n == 0 then c ∷ s else drop_bytes (n - width c) s

-- A spool that does not exist, one that cannot be read, or one with a text.
pub data Spool : Type 0 where
  missing unreadable : Spool
  spool : Text → Spool

pub record Reading : Type 0 where
  pub messages : List CronMailMessage
  pub offset : ℕ
  pub failed : Bool

-- A mailbox that was cleared is read from its start.
abbrev pub start_of : ℕ → ℕ → ℕ
start_of from_offset bytes = if ltb bytes from_offset then 0 else from_offset

unfoldable pub read_new : MailEnv → Spool → ℕ → ℕ → Reading × ℕ
read_new env missing from_offset step = (record { messages = []; offset = 0; failed = false }, step)
read_new env unreadable from_offset step =
    (record { messages = []; offset = from_offset; failed = true }, step)
read_new env (spool text) from_offset step =
    let start = start_of from_offset (size text) in
    let (messages, later) = parse_mbox env (drop_bytes start text) step in
    if size text == 0
    then (record { messages = []; offset = 0; failed = false }, step)
    else if start == size text
    then (record { messages = []; offset = start; failed = false }, step)
    else (
      record { messages = messages; offset = start + size (drop_bytes start text); failed = false },
      later,
    )
