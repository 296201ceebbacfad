-- ===== src/Agent/Discovery.antt =====
-- The discovery of cron jobs: apps/agent/internal/discovery/cron.go. SHA-256 is an argument, and the
-- files are given by their texts, absent where one cannot be opened.
pub mod Normalize
pub mod Line
pub mod Redirected
use dysonsphere.Common.{
  ℕ, zero, suc, ◌+◌, ◌-◌, Bool, true, false, ◌&&◌, ◌||◌, Option, none, some, List, [], ◌∷◌, ◌++◌,
  map, Text, text_eq, nat_eq, ◌==◌, leb, length, take, if◌then◌else◌,
}
use dysonsphere.Common.Strings.{
  codes, is_empty, trim, trim_space, strip_prefix, has_prefix, cut, join, split, fields,
}
use dysonsphere.Server.Auth.Secure.{hex_encode}
use dysonsphere.Agent.MailSpool.{size}

pub record DiscoveredJob : Type 0 where
  pub source_type : Text
  pub schedule : Text
  pub timezone : Text
  pub user : Text
  pub raw_command : Text
  pub normalized_command : Text
  pub command_hash : Text
  pub enabled : Bool
  pub source_file : Text

-- \s of a regular expression
unfoldable pub is_blank : ℕ → Bool
is_blank c = c == 9 || c == 10 || c == 12 || c == 13 || c == 32

-- \S* and what follows it
unfoldable pub word_of : Text → Text × Text
word_of [] = ([], [])
word_of (c ∷ s) = let (w, rest) = word_of s in if is_blank c then ([], c ∷ s) else (c ∷ w, rest)

-- What follows \s*
unfoldable pub skip_blanks : Text → Text
skip_blanks [] = []
skip_blanks (c ∷ s) = let rest = skip_blanks s in if is_blank c then rest else c ∷ s

abbrev pub starts_blank : Text → Bool
starts_blank [] = false
starts_blank (c ∷ s) = is_blank c

-- (\S+)\s+
unfoldable pub take_field : Text → Option (Text × Text)
take_field s =
    let (w, rest) = word_of s in
    if is_empty w then none else if starts_blank rest then some (w, skip_blanks rest) else none

abbrev pub then_fields :
    Option (Text × Text) → (Text → Option (List Text × Text)) → Option (List Text × Text)
then_fields none f = none
then_fields (some (w, rest)) f = elim (f rest) [
  | none ↦ none
  | some (ws, last) ↦ some (w ∷ ws, last)
]

-- The first n fields of a line, and the rest, which is not empty. A line here does not end in a blank,
-- so that the regular expression finds no other way to match.
unfoldable pub take_fields : ℕ → Text → Option (List Text × Text)
take_fields zero [] = none
take_fields zero (c ∷ s) = some ([], c ∷ s)
take_fields (suc n) s = then_fields (take_field s) (take_fields n)

-- The user and the command of the rest of a line.
abbrev pub user_command : Bool → Text → Option (Text × Text)
user_command false rest = some ([], rest)
user_command true rest = elim (cut b' ' rest) [
  | none ↦ none
  | some (user, cmd) ↦ some (user, trim_space cmd)
]

-- How long a match of \s*>\s*/\S+ at the start of a text is: 0 for none.
unfoldable pub redirection : Text → ℕ
redirection s = elim (strip_prefix (codes ">") (skip_blanks s)) [
  | none ↦ 0
  | some t ↦ elim (strip_prefix (codes "/") (skip_blanks t)) [
    | none ↦ 0
    | some u ↦ let (w, rest) = word_of u in if is_empty w then 0 else length s - length rest
  ]
]

abbrev pub literal : Text → Text → ℕ
literal old s = if has_prefix old s then length old else 0

-- What a place of the text adds to the result, and how many places after it are skipped.
abbrev pub place_of : ℕ → ℕ → ℕ → Text × ℕ
place_of (suc n) matched c = ([], n)
place_of zero (suc m) c = ([], m)
place_of zero zero c = (c ∷ [], 0)

-- Removes every match, from left to right, a match being given by its length.
unfoldable pub remove_all : (Text → ℕ) → ℕ → Text → Text
remove_all matched skip [] = []
remove_all matched skip (c ∷ s) =
    let (kept, next) = place_of skip (matched (c ∷ s)) c in kept ++ remove_all matched next s

-- The command without redirections and the usual patterns of no output.
unfoldable pub strip_output : Text → Text
strip_output cmd = remove_all (literal (codes ">/dev/null")) 0 (
    remove_all (literal (codes "2>&1")) 0
      (remove_all (literal (codes "> /dev/null 2>&1")) 0 (remove_all redirection 0 cmd)))

unfoldable pub normalize_command : Text → Text
normalize_command cmd = trim_space (join (codes " ") (fields (strip_output cmd)))

unfoldable pub command_hash : (Text → Text) → Text → Text
command_hash sha256 normalized = hex_encode (take 8 (sha256 normalized))

abbrev pub new_job : (Text → Text) → Text → Text → Text → Text → Text → DiscoveredJob
new_job sha256 path tz schedule user raw = record {
  source_type = codes "cron";
  schedule = schedule;
  timezone = tz;
  user = user;
  raw_command = raw;
  normalized_command = normalize_command raw;
  command_hash = command_hash sha256 (normalize_command raw);
  enabled = true;
  source_file = path;
}

unfoldable pub parse_cron_line : (Text → Text) → Text → Text → Bool → Text → Option DiscoveredJob
parse_cron_line sha256 line path has_user tz = elim (take_fields 5 line) [
  | none ↦ none
  | some (schedule, rest) ↦ elim (user_command has_user (trim_space rest)) [
    | none ↦ none
    | some (user, raw) ↦ some (new_job sha256 path tz (join (codes " ") schedule) user raw)
  ]
]

abbrev is_quote : ℕ → Bool
is_quote c = c == b'"' || (c == b'\'' || c == b' ')

unfoldable pub parse_tz_line : Text → Option Text
parse_tz_line line = elim (strip_prefix (codes "CRON_TZ=") line) [
  | some tz ↦ some (trim is_quote tz)
  | none ↦ elim (strip_prefix (codes "TZ=") line) [
    | none ↦ none
    | some tz ↦ some (trim is_quote tz)
  ]
]

abbrev pub keep {ℓ} : {A : Type ℓ} → Option A → List A
keep none = []
keep (some a) = a ∷ []

-- The job of a trimmed line, and the timezone after it.
abbrev pub read_entry : (Text → Text) → Text → Bool → Text → Text → List DiscoveredJob × Text
read_entry sha256 path has_user tz line =
    if is_empty line || has_prefix (codes "#") line then ([], tz) else elim (parse_tz_line line) [
      | some new ↦ ([], new)
      | none ↦
          if has_prefix (codes "@") line
          then ([], tz)
          else (keep (parse_cron_line sha256 line path has_user tz), tz)
    ]

unfoldable pub read_entries : (Text → Text) → Text → Bool → Text → List Text → List DiscoveredJob
read_entries sha256 path has_user tz [] = []
read_entries sha256 path has_user tz (line ∷ lines) =
    let (found, next) = read_entry sha256 path has_user tz (trim_space line) in
    found ++ read_entries sha256 path has_user next lines

abbrev too_long : List Text → Bool
too_long [] = false
too_long (line ∷ lines) = leb 65_536 (size line) || too_long lines

-- A file that cannot be opened is an error, and one with a line of 64 KiB, at which the scanner stops.
unfoldable pub parse_crontab :
    (Text → Text) → Text → Bool → Option Text → Option (List DiscoveredJob)
parse_crontab sha256 path has_user none = none
parse_crontab sha256 path has_user (some text) =
    if too_long (split b'\n' text)
    then none
    else some (read_entries sha256 path has_user (codes "UTC") (split b'\n' text))

abbrev jobs_or_none : Option (List DiscoveredJob) → List DiscoveredJob
jobs_or_none none = []
jobs_or_none (some js) = js

-- A file is its path and its text.
abbrev pub File : Type 0
File = Text × Option Text

unfoldable pub parse_files : (Text → Text) → List File → List DiscoveredJob
parse_files sha256 [] = []
parse_files sha256 (f ∷ fs) =
    jobs_or_none (parse_crontab sha256 f.0 true f.1) ++ parse_files sha256 fs

abbrev pub owned_by : Text → DiscoveredJob → DiscoveredJob
owned_by user j = record j { user = user }

-- The crontab of a user: the name of the user, and the file.
unfoldable pub scan_user_crontabs : (Text → Text) → List (Text × File) → List DiscoveredJob
scan_user_crontabs sha256 [] = []
scan_user_crontabs sha256 ((user, f) ∷ fs) =
    map (owned_by user) (jobs_or_none (parse_crontab sha256 f.0 false f.1))
    ++ scan_user_crontabs sha256 fs

-- The files that a scan reads: the crontab, cron.d, the extra directories and the users' crontabs.
pub record CronFiles : Type 0 where
  pub crontab : Option Text
  pub cron_d : List File
  pub extra : List File
  pub users : List (Text × File)

unfoldable pub scan : (Text → Text) → Bool → CronFiles → List DiscoveredJob
scan sha256 skip_system_crons files =
    if skip_system_crons
    then parse_files sha256 files.extra
    else jobs_or_none (parse_crontab sha256 (codes "/etc/crontab") true files.crontab)
      ++ (parse_files sha256 files.cron_d
          ++ (parse_files sha256 files.extra ++ scan_user_crontabs sha256 files.users))
