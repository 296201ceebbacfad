-- ===== src/Agent/Discovery/Normalize.antt =====
-- The normal form of a command: apps/agent/internal/discovery/cron.go.
use dysonsphere.Common.{◌≡◌, refl, false, List, [], ◌∷◌, ◌++◌, Text, arith, All}
use dysonsphere.Common.Strings.{
  codes, is_empty, is_space, trim, trim_space, trim_right, join, fields,
}
use dysonsphere.Common.Strings.Trim.{starts, trim_right_solid, trim_left_id, trim_right-append}
use dysonsphere.Common.Strings.Fields.{IsWord, fields_words, fields-join}
use dysonsphere.Agent.Discovery.{strip_output, normalize_command}

word_starts : (w s : Text) → IsWord w → starts is_space (w ++ s) ≡ false
word_starts [] s h = ground (arith, h.0)
word_starts (c ∷ w) s h = h.1.0

word_not_empty : (w s : Text) → IsWord w → is_empty (w ++ s) ≡ false
word_not_empty [] s h = ground (arith, h.0)
word_not_empty (c ∷ w) s h = refl

join_begins : (ws : List Text) → All IsWord ws → starts is_space (join (codes " ") ws) ≡ false
unfolding join
join_begins [] h = refl
join_begins ([] ∷ []) h = refl
join_begins ((c ∷ w) ∷ []) h = h.0.1.0
join_begins (w ∷ v ∷ ws) h = word_starts w _ h.0

join_not_empty :
    (w : Text) (ws : List Text) → IsWord w → is_empty (join (codes " ") (w ∷ ws)) ≡ false
unfolding join
join_not_empty w [] h = h.0
join_not_empty w (v ∷ ws) h = word_not_empty w _ h

join_ends :
    (ws : List Text)
    → All IsWord ws
    → trim_right is_space (join (codes " ") ws) ≡ join (codes " ") ws
unfolding join
join_ends [] h = unfold trim_right in refl
join_ends (w ∷ []) h = trim_right_solid is_space w h.0.1
join_ends (w ∷ v ∷ ws) h =
    let rest = join (codes " ") (v ∷ ws) in
    let ends = join_ends (v ∷ ws) h.1 in
    let spaced : trim_right is_space (codes " " ++ rest) ≡ codes " " ++ rest =
      (rw (trim_right-append is_space (codes " ") rest (rw ends (join_not_empty v ws h.1.0)))
        (rw ends refl)) in
    rw (trim_right-append is_space w (codes " " ++ rest) (rw spaced refl)) (rw spaced refl)

pub normal_words :
    (cmd : Text) → normalize_command cmd ≡ join (codes " ") (fields (strip_output cmd))
unfolding normalize_command trim_space trim
normal_words cmd =
    let ws = fields (strip_output cmd) in
    let h = fields_words (strip_output cmd) in
    rw (trim_left_id is_space (join (codes " ") ws) (join_begins ws h)) (join_ends ws h)

-- A normalized command is its words joined by single spaces, and they are the words of the command
-- without its redirections and output patterns.
pub normalize_words :
    (cmd : Text)
    → (fields (normalize_command cmd) ≡ fields (strip_output cmd))
      × (join (codes " ") (fields (normalize_command cmd)) ≡ normalize_command cmd)
normalize_words cmd =
    let ws = fields (strip_output cmd) in
    let e = normal_words cmd in
    let f : fields (normalize_command cmd) ≡ ws =
      (rw e (fields-join ws (fields_words (strip_output cmd)))) in
    (f, rw (f, e) refl)
