-- ===== src/Agent/Discovery/Line.antt =====
-- Lines of a system crontab: apps/agent/internal/discovery/cron.go.
use dysonsphere.Common.{
  ℕ, suc, ◌≡◌, refl, true, false, some, List, [], ◌∷◌, ◌++◌, Text, nat_eq, nat_beq, arith,
}
use dysonsphere.Common.Strings.{
  codes, is_empty, is_space, trim, trim_space, trim_left, trim_right, cut, join,
}
use dysonsphere.Common.Strings.Trim.{starts, trim_left_id, trim_right-append, trim_right_idem}
use dysonsphere.Common.Strings.Fields.{IsSolid, IsWord}
use dysonsphere.Agent.Discovery.{
  is_blank, word_of, skip_blanks, starts_blank, take_field, take_fields, new_job, parse_cron_line,
}

solid_blank : (c : ℕ) → is_space c ≡ false → is_blank c ≡ false
unfolding is_space is_blank
solid_blank c h = ground arith

word_of-append : (w s : Text) → IsSolid w → word_of (w ++ b' ' ∷ s) ≡ (w, b' ' ∷ s)
unfolding word_of is_blank
word_of-append [] s h = refl
word_of-append (c ∷ w) s h = rw (solid_blank c h.0, word_of-append w s h.1) refl

space_blank : is_blank b' ' ≡ true
unfolding is_blank
space_blank = refl

skip_space : (s : Text) → skip_blanks (b' ' ∷ s) ≡ skip_blanks s
unfolding skip_blanks is_blank
skip_space s = refl

skip_blanks_id : (s : Text) → starts_blank s ≡ false → skip_blanks s ≡ s
unfolding skip_blanks
skip_blanks_id [] h = refl
skip_blanks_id (c ∷ s) h = rw h refl

take_field-append :
    (w s : Text) → IsWord w → starts_blank s ≡ false → take_field (w ++ b' ' ∷ s) ≡ some (w, s)
unfolding take_field
take_field-append w s h k =
    rw (word_of-append w s h.1, h.0, space_blank, skip_space s, skip_blanks_id s k) refl

-- A word begins with no blank, also with something behind it.
word_starts : (w s : Text) → IsWord w → starts_blank (w ++ s) ≡ false
word_starts [] s h = ground (arith, h.0)
word_starts (c ∷ w) s h = solid_blank c h.1.0

not_space : (c : ℕ) → is_space c ≡ false → nat_beq c b' ' ≡ false
unfolding is_space
not_space c h = ground arith

cut-append : (w s : Text) → IsSolid w → cut b' ' (w ++ b' ' ∷ s) ≡ some (w, s)
unfolding cut is_space
cut-append [] s h = refl
cut-append (c ∷ w) s h = rw (cut-append w s h.1) (rw (not_space c h.0) refl)

word_solid : (w s : Text) → IsWord w → starts is_space (w ++ s) ≡ false
word_solid [] s h = ground (arith, h.0)
word_solid (c ∷ w) s h = h.1.0

word_rest : (w s : Text) → IsWord w → take_fields 0 (w ++ s) ≡ some ([], w ++ s)
unfolding take_fields
word_rest [] s h = ground (arith, h.0)
word_rest (c ∷ w) s h = refl

-- A command that is trimmed keeps its end behind a user's name.
trim_space-append :
    (w cmd : Text)
    → IsWord w
    → is_empty cmd ≡ false
    → trim_space cmd ≡ cmd
    → trim_space (w ++ b' ' ∷ cmd) ≡ w ++ b' ' ∷ cmd
unfolding trim_space trim
trim_space-append w cmd h k t =
    let ends : trim_right is_space cmd ≡ cmd =
      (rw t at (trim_right_idem is_space (trim_left is_space cmd))) in
    let from_space : trim_right is_space (b' ' ∷ cmd) ≡ b' ' ∷ cmd =
      (rw (trim_right-append is_space (b' ' ∷ []) cmd (rw ends k)) (rw ends refl)) in
    rw (trim_left_id is_space (w ++ b' ' ∷ cmd) (word_solid w (b' ' ∷ cmd) h))
      (rw (trim_right-append is_space w (b' ' ∷ cmd) (rw from_space refl)) (rw from_space refl))

next_field :
    (n : ℕ) (w s last : Text) (ws : List Text)
    → IsWord w
    → starts_blank s ≡ false
    → take_fields n s ≡ some (ws, last)
    → take_fields (suc n) (w ++ b' ' ∷ s) ≡ some (w ∷ ws, last)
unfolding take_fields
next_field n w s last ws h k e = rw (take_field-append w s h k, e) refl

five_fields :
    (minute hour day month weekday user cmd : Text)
    → IsWord minute
    → IsWord hour
    → IsWord day
    → IsWord month
    → IsWord weekday
    → IsWord user
    → take_fields 5 (
        minute
        ++ b' '
          ∷ (hour
              ++ b' ' ∷ (day ++ b' ' ∷ (month ++ b' ' ∷ (weekday ++ b' ' ∷ (user ++ b' ' ∷ cmd))))))
      ≡ some (minute ∷ hour ∷ day ∷ month ∷ weekday ∷ [], user ++ b' ' ∷ cmd)
five_fields minute hour day month weekday user cmd h1 h2 h3 h4 h5 h6 =
    next_field 4 minute _ _ _ h1 (word_starts hour _ h2) (
      next_field 3 hour _ _ _ h2 (word_starts day _ h3) (
        next_field 2 day _ _ _ h3 (word_starts month _ h4) (
          next_field 1 month _ _ _ h4 (word_starts weekday _ h5) (
            next_field 0 weekday _ _ _ h5 (word_starts user _ h6)
              (word_rest user (b' ' ∷ cmd) h6)))))

-- A line of five fields, a user and a command, each separated by a space, gives the job of that
-- schedule, user and command in the timezone in force.
pub cron_line_roundtrip :
    (sha256 : Text → Text) (path tz minute hour day month weekday user cmd : Text)
    → IsWord minute
    → IsWord hour
    → IsWord day
    → IsWord month
    → IsWord weekday
    → IsWord user
    → is_empty cmd ≡ false
    → trim_space cmd ≡ cmd
    → parse_cron_line sha256
        (minute
          ++ b' '
            ∷ (hour
                ++ b' '
                  ∷ (day ++ b' ' ∷ (month ++ b' ' ∷ (weekday ++ b' ' ∷ (user ++ b' ' ∷ cmd))))))
        path
        true
        tz
      ≡ some (
          new_job sha256 path tz
            (join (codes " ") (minute ∷ hour ∷ day ∷ month ∷ weekday ∷ []))
            user
            cmd)
unfolding parse_cron_line
cron_line_roundtrip sha256 path tz minute hour day month weekday user cmd h1 h2 h3 h4 h5 h6 k t =
    rw (five_fields minute hour day month weekday user cmd h1 h2 h3 h4 h5 h6, parse_cron_line)
      (rw (trim_space-append user cmd h6 k t) (rw (cut-append user cmd h6.1) (rw t refl)))
