-- ===== src/Agent/Tests.antt =====
-- Runs of the agent's operations on concrete inputs.
use dysonsphere.Common.{true, ◌≡◌, refl, none, some, [], ◌∷◌, ◌++◌, Text}
use dysonsphere.Common.Strings.{
  codes, has_prefix, strip_prefix, fields, fields_from, split_from, join, is_space, trim_space,
}
use dysonsphere.Agent.MailSpool.{MailEnv, spool, read_new, size, is_mbox_from_line}
use dysonsphere.Agent.Discovery.{
  new_job, normalize_command, strip_output, parse_cron_line, remove_all, redirection, word_of,
  skip_blanks, is_blank,
}
use dysonsphere.Agent.Discovery.Line.{cron_line_roundtrip}
use dysonsphere.Agent.MailSpool.Drafts.{SameMails}
use dysonsphere.Agent.MailSpool.Incremental.{read_incremental}

abbrev mail_env : MailEnv
mail_env = record { md5 = λ s. s; time_parse = λ f s. none; now = λ n. n }

abbrev first_mail : Text
first_mail = codes "From root Mon\nSubject: Cron <root@box> /bin/a\n\nout"

abbrev second_mail : Text
second_mail = codes "From root Tue\nSubject: Cron <root@box> /bin/b\n\n>From here\n"

read_incremental_example :
    let old = first_mail ++ b'\n' ∷ [] in
    let first = (read_new mail_env (spool old) 0 3).0 in
    let second = (read_new mail_env (spool (old ++ second_mail)) first.offset 8).0 in
    SameMails mail_env
      (first.messages ++ second.messages)
      (read_new mail_env (spool (old ++ second_mail)) 0 9).0.messages
    × (second.offset ≡ size (old ++ second_mail))
unfolding is_mbox_from_line has_prefix fields fields_from split_from strip_prefix
read_incremental_example = read_incremental mail_env first_mail second_mail 3 8 9 refl

cron_line_roundtrip_example :
    parse_cron_line
      (λ s. s)
      (codes "0 3 * * 1-5 root /bin/backup  -v")
      (codes "/etc/crontab")
      true
      (codes "UTC")
    ≡ some (
        new_job
          (λ s. s)
          (codes "/etc/crontab")
          (codes "UTC")
          (join (codes " ") (codes "0" ∷ codes "3" ∷ codes "*" ∷ codes "*" ∷ codes "1-5" ∷ []))
          (codes "root")
          (codes "/bin/backup  -v"))
unfolding is_space trim_space
cron_line_roundtrip_example =
    cron_line_roundtrip (λ s. s) (codes "/etc/crontab") (codes "UTC") (codes "0") (codes "3")
      (codes "*") (codes "*") (codes "1-5") (codes "root") (codes "/bin/backup  -v")
      (refl, (refl, tt)) (refl, (refl, tt)) (refl, (refl, tt)) (refl, (refl, tt))
      (refl, (refl, (refl, (refl, tt)))) (refl, (refl, (refl, (refl, (refl, tt))))) refl refl

normalized : normalize_command (codes "a  b > /tmp/x 2>&1") ≡ codes "a b"
unfolding normalize_command strip_output remove_all redirection word_of skip_blanks is_blank
    is_space trim_space join fields fields_from has_prefix strip_prefix
normalized = refl

-- One sign of an appended output stays.
appended : normalize_command (codes "a >> /tmp/x") ≡ codes "a >"
unfolding normalize_command strip_output remove_all redirection word_of skip_blanks is_blank
    is_space trim_space join fields fields_from has_prefix strip_prefix
appended = refl
