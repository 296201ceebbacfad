-- ===== src/Agent/Process.antt =====
-- The observation of processes and of the journal: apps/agent/internal/observer/process.go and
-- journal.go. The process table and journalctl are read outside of the repository's code.
pub mod Total
pub mod Cut
use dysonsphere.Common.{
  ℕ, zero, suc, ◌+◌, ◌-◌, ◌*◌, Bool, true, false, not, ◌&&◌, ◌||◌, Option, none, some, List, [],
  ◌∷◌, ◌++◌, Text, text_eq, ◌==◌, leb, replicate, if◌then◌else◌,
}
use dysonsphere.Common.Assoc.{Assoc}
use dysonsphere.Common.Strings.{codes, is_empty, contains, fields, cut}
use dysonsphere.Server.Domain.{Float64}
use dysonsphere.Agent.MailSpool.{size, width}

pub record ProcessSnapshot : Type 0 where
  pub pid : ℕ
  pub ppid : ℕ
  pub cmdline : Text
  pub create_time : ℕ

pub record MatchedProcess : Type 0 where
  pub process : ProcessSnapshot
  pub job_hash : Text
  pub confidence : Float64
  pub evidence : Text

-- The first `n` bytes of a text. A byte of a character that is cut is no text any more, and is written
-- as U+FFFD.
unfoldable pub take_bytes : ℕ → Text → Text
take_bytes n [] = []
take_bytes n (c ∷ s) =
    let rest = take_bytes (n - width c) s in
    if leb (width c) n then c ∷ rest else replicate n 0xFFFD

unfoldable pub truncate : Text → ℕ → Text
truncate s n = if leb (size s) n then s else take_bytes n s ++ codes "..."

-- strings.Fields(s)[0], absent where the index is out of range.
abbrev pub first_field : List Text → Option Text
first_field [] = none
first_field (w ∷ ws) = some w

abbrev pub contains_word : Option Text → Text → Option Bool
contains_word none cmdline = none
contains_word (some w) cmdline = some (contains w cmdline)

-- none is a panic.
unfoldable pub matches_command : Text → Text → Option Bool
matches_command cmdline norm_cmd =
    if is_empty norm_cmd then some false else contains_word (first_field (fields norm_cmd)) cmdline

-- 0.75 and 0.95
abbrev pub confidence_of : ProcessSnapshot → Text → Float64
confidence_of snap norm_cmd =
    if snap.cmdline == norm_cmd then 0x3FEE_6666_6666_6666 else 0x3FE8_0000_0000_0000

module _ (quote : Text → Text) where
  abbrev pub match_of : ProcessSnapshot → Text → Text → MatchedProcess
  match_of snap hash norm_cmd = record {
    process = snap;
    job_hash = hash;
    confidence = confidence_of snap norm_cmd;
    evidence =
        codes "process cmdline "
        ++ quote (truncate snap.cmdline 80)
        ++ codes " matches job command "
        ++ quote norm_cmd;
  }

  abbrev pub or_next :
      Option Bool → MatchedProcess → Option (Option MatchedProcess) → Option (Option MatchedProcess)
  or_next none m rest = none
  or_next (some true) m rest = some (some m)
  or_next (some false) m rest = rest

  -- The first command that matches, in the order in which the map is gone through.
  unfoldable pub match_one : ProcessSnapshot → Assoc Text Text → Option (Option MatchedProcess)
  match_one snap [] = some none
  match_one snap ((hash, norm_cmd) ∷ jobs) =
      or_next (matches_command snap.cmdline norm_cmd) (match_of snap hash norm_cmd)
        (match_one snap jobs)

  abbrev pub add_match :
      Option (Option MatchedProcess) → Option (List MatchedProcess) → Option (List MatchedProcess)
  add_match (some (some m)) (some ms) = some (m ∷ ms)
  add_match (some none) (some ms) = some ms
  add_match _ _ = none

  -- The snapshots with the order in which the map is gone through for each.
  unfoldable pub match_jobs :
      List (ProcessSnapshot × Assoc Text Text) → Option (List MatchedProcess)
  match_jobs [] = some []
  match_jobs ((snap, jobs) ∷ rest) = add_match (match_one snap jobs) (match_jobs rest)

pub record JournalEvent : Type 0 where
  pub timestamp : ℕ
  pub unit : Text
  pub message : Text
  pub raw_line : Text

abbrev kept_event : Text → Text → Option ℕ → Option JournalEvent
kept_event line msg none = none
kept_event line msg (some ts) =
    some (record { timestamp = ts; unit = codes "cron"; message = msg; raw_line = line })

-- strings.SplitN(line, " ", 4), of which the first and the last part are read.
abbrev pub four_parts : Text → Option (Text × Text)
four_parts line = elim (cut b' ' line) [
  | none ↦ none
  | some (first, a) ↦ elim (cut b' ' a) [
    | none ↦ none
    | some (second, b) ↦ elim (cut b' ' b) [ none ↦ none | some (third, last) ↦ some (first, last) ]
  ]
]

-- `time_parse` is time.Parse with the layout "2006-01-02T15:04:05-0700".
unfoldable pub parse_journal_line : (Text → Option ℕ) → Text → Option JournalEvent
parse_journal_line time_parse line = elim (four_parts line) [
  | none ↦ none
  | some (first, last) ↦
      if contains (codes "CMD") last || contains (codes "CRON") last
      then kept_event line last (time_parse first)
      else none
]

abbrev add_event : Option JournalEvent → List JournalEvent → List JournalEvent
add_event none es = es
add_event (some e) es = e ∷ es

-- The loop over the lines of journalctl.
unfoldable pub read_journal : (Text → Option ℕ) → List Text → List JournalEvent
read_journal time_parse [] = []
read_journal time_parse (line ∷ lines) =
    add_event (parse_journal_line time_parse line) (read_journal time_parse lines)

-- `ReadCronEvents`: the lines of journalctl, none if it fails, and whether they were read to the end. An
-- error is logged, and there are no events then.
unfoldable pub read_cron_events : (Text → Option ℕ) → Option (List Text × Bool) → List JournalEvent
read_cron_events time_parse none = []
read_cron_events time_parse (some (lines, complete)) =
    if complete then read_journal time_parse lines else []

-- A process that is listed: none where it is gone, and what it shows of itself, its start in
-- milliseconds. An error of the command line is none; one of the others gives 0.
pub record ProcessInfo : Type 0 where
  pub pid : ℕ
  pub cmdline : Option Text
  pub ppid : ℕ
  pub create_ms : ℕ

-- 1970 in nanoseconds since Go's zero time.
abbrev unix_epoch : ℕ
unix_epoch = 62_135_596_800 * 1_000_000_000

-- time.Unix of the milliseconds.
abbrev snapshot : ProcessInfo → Text → ProcessSnapshot
snapshot p cmdline = record {
  pid = p.pid;
  ppid = p.ppid;
  cmdline = cmdline;
  create_time = unix_epoch + p.create_ms * 1_000_000;
}

abbrev pub snapshots_of : Option ProcessInfo → List ProcessSnapshot
snapshots_of none = []
snapshots_of (some p) = elim p.cmdline [
  | none ↦ []
  | some s ↦ if is_empty s then [] else snapshot p s ∷ []
]

-- The loop over the pids.
unfoldable pub take_snapshots : List (Option ProcessInfo) → List ProcessSnapshot
take_snapshots [] = []
take_snapshots (p ∷ ps) = snapshots_of p ++ take_snapshots ps

-- `Scan`; none is an error of the listing of the pids.
unfoldable pub scan_processes : Option (List (Option ProcessInfo)) → Option (List ProcessSnapshot)
scan_processes none = none
scan_processes (some ps) = some (take_snapshots ps)
