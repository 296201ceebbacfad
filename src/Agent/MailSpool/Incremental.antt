-- ===== src/Agent/MailSpool/Incremental.antt =====
-- Reading a spool in parts: apps/agent/internal/observer/mailspool.go.
use dysonsphere.Common.{
  ℕ, ◌+◌, ◌-◌, ◌<◌, ◌≡◌, refl, true, false, none, List, [], ◌∷◌, ◌++◌, Text, text_eq, nat_eq,
  nat_beq, ltb, arith, Bool-cases, inl, inr,
}
use dysonsphere.Common.Strings.{split, split_from}
use dysonsphere.Agent.MailSpool.{
  MailEnv, is_mbox_from_line, parse_mbox, size, width, drop_bytes, spool, read_new,
}
use dysonsphere.Agent.MailSpool.Drafts.{
  Draft, draft_lines, AreDated, AreDated-append, SameMails, read_lines-AreDated, AreDated-SameMails,
}
use dysonsphere.Agent.MailSpool.Drafts.Ends.{
  append_assoc, draft_lines-blank_end, draft_lines-append,
}

split_from-append :
    (c : ℕ) (s t : Text)
    → split_from c (s ++ c ∷ t) ≡ ((split_from c s).0, (split_from c s).1 ++ split c t)
unfolding split_from split
split_from-append c [] t = ground arith
split_from-append c (d ∷ s) t =
    rw (split_from-append c s t)
      (elim (Bool-cases (nat_beq d c)) [ inl same ↦ rw same refl | inr other ↦ rw other refl ])

-- The line that a text begins with.
abbrev pub first_line : Text → Text
first_line s = (split_from b'\n' s).0

split_nil : (c : ℕ) → split c [] ≡ [] ∷ []
unfolding split split_from
split_nil c = refl

-- The mails of a text, before their dates are read.
abbrev drafts : MailEnv → Text → List Draft
drafts env text = draft_lines env none (split b'\n' text)

drafts-append :
    (env : MailEnv) (a b : Text)
    → is_mbox_from_line (first_line b) ≡ true
    → drafts env (a ++ b'\n' ∷ b) ≡ drafts env (a ++ b'\n' ∷ []) ++ drafts env b
unfolding split
drafts-append env a b h =
    let l = (split_from b'\n' a).0 in
    let ls = (split_from b'\n' a).1 in
    rw (split_from-append b'\n' a b, split_from-append b'\n' a [], split_nil b'\n')
      (rw (draft_lines-blank_end env none (l ∷ ls) tt)
        (draft_lines-append env none (l ∷ ls) (first_line b) (split_from b'\n' b).1 h))

parse_mbox-AreDated :
    (env : MailEnv) (text : Text) (step : ℕ)
    → AreDated env (drafts env text) (parse_mbox env text step).0
unfolding parse_mbox
parse_mbox-AreDated env text step = read_lines-AreDated env none (split b'\n' text) step

-- A text is read in two parts as in one.
parse_mbox-append :
    (env : MailEnv) (a b : Text) (i j k : ℕ)
    → is_mbox_from_line (first_line b) ≡ true
    → SameMails env
        ((parse_mbox env (a ++ b'\n' ∷ []) i).0 ++ (parse_mbox env b j).0)
        (parse_mbox env (a ++ b'\n' ∷ b) k).0
parse_mbox-append env a b i j k h =
    let old = a ++ b'\n' ∷ [] in
    AreDated-SameMails env (drafts env old ++ drafts env b) _ _
      (AreDated-append env (drafts env old) (drafts env b) _ _ (parse_mbox-AreDated env old i)
        (parse_mbox-AreDated env b j))
      (rw (← drafts-append env a b h) (parse_mbox-AreDated env (a ++ b'\n' ∷ b) k))

size-append : (a b : Text) → size (a ++ b) ≡ size a + size b
unfolding size
size-append [] b = omega arith
size-append (c ∷ a) b = omega (arith, size-append a b)

drop_bytes_zero : (s : Text) → drop_bytes 0 s ≡ s
unfolding drop_bytes
drop_bytes_zero [] = refl
drop_bytes_zero (c ∷ s) = refl

width_pos : (c : ℕ) → 0 < width c
width_pos c = ground arith

drop_bytes-size : (a b : Text) → drop_bytes (size a) (a ++ b) ≡ b
unfolding size drop_bytes
drop_bytes-size [] b = drop_bytes_zero b
drop_bytes-size (c ∷ a) b =
    let some_width : nat_beq (width c + size a) 0 ≡ false = ground (arith, width_pos c) in
    let rest : width c + size a - width c ≡ size a = omega arith in
    rw (some_width, rest) (drop_bytes-size a b)

first_line-size : (b : Text) → is_mbox_from_line (first_line b) ≡ true → 0 < size b
unfolding size split_from is_mbox_from_line
first_line-size [] h = ground arith
first_line-size (c ∷ b) h = omega (arith, width_pos c)

size_newline : size (b'\n' ∷ []) ≡ 1
unfolding size
size_newline = refl

read_unread :
    (env : MailEnv) (text : Text) (from_offset step : ℕ)
    → from_offset < size text
    → let messages = (parse_mbox env (drop_bytes from_offset text) step).0 in
      (read_new env (spool text) from_offset step).0 ≡ record {
        messages = messages;
        offset = from_offset + size (drop_bytes from_offset text);
        failed = false;
      }
unfolding read_new
read_unread env text from_offset step h =
    let later : ltb (size text) from_offset ≡ false = ground arith in
    let not_empty : nat_beq (size text) 0 ≡ false = ground arith in
    let unread : nat_beq from_offset (size text) ≡ false = ground arith in
    rw (later, not_empty, unread) refl

-- A spool of whole lines is read, and then its continuation with a text that begins with a message:
-- whenever each of them and a reading of the whole begins, the two readings give the mails of the
-- reading of the whole, and end at its end. The mails are the same in all but their dates, and their
-- dates in all but those that the clock gave.
pub read_incremental :
    (env : MailEnv) (a b : Text) (i j k : ℕ)
    → is_mbox_from_line (first_line b) ≡ true
    → let old = a ++ b'\n' ∷ [] in
      let first = (read_new env (spool old) 0 i).0 in
      let second = (read_new env (spool (old ++ b)) first.offset j).0 in
      SameMails env
        (first.messages ++ second.messages)
        (read_new env (spool (old ++ b)) 0 k).0.messages
      × (second.offset ≡ size (old ++ b))
read_incremental env a b i j k h =
    let old = a ++ b'\n' ∷ [] in
    let some_old : 0 < size old = omega (arith, size-append a (b'\n' ∷ []), size_newline) in
    let from_old : 0 + size old ≡ size old = omega arith in
    let more = size-append old b in
    let unread = first_line-size b h in
    let first = read_unread env old 0 i some_old in
    let whole = read_unread env (old ++ b) 0 k (omega (arith, more, some_old)) in
    let second = read_unread env (old ++ b) (size old) j (omega (arith, more, unread)) in
    rw
      (
        first,
        drop_bytes_zero old,
        from_old,
        whole,
        second,
        drop_bytes_zero (old ++ b),
        drop_bytes-size old b,
      )
      (rw (append_assoc a (b'\n' ∷ []) b) (parse_mbox-append env a b i j k h), omega (arith, more))
