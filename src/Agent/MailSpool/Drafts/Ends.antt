-- ===== src/Agent/MailSpool/Drafts/Ends.antt =====
-- Where a mail ends in a spool: apps/agent/internal/observer/mailspool.go.
use dysonsphere.Common.{
  ◌≡◌, refl, sym, true, Option, none, some, List, [], ◌∷◌, ◌++◌, Text, text_eq, nat_eq, Bool-cases,
  inl, inr,
}
use dysonsphere.Common.Assoc.{Assoc, lookup}
use dysonsphere.Common.Strings.{codes, trim_space}
use dysonsphere.Agent.MailSpool.{
  MailEnv, written_date, is_mbox_from_line, add_header, read_headers, strip_blank, message_of,
  extend, text_of,
}
use dysonsphere.Agent.MailSpool.Drafts.{draft_of, draft_message, drafted, draft_line, draft_lines}

module _ {ℓ} {A : Type ℓ} where
  pub append_assoc : (xs ys zs : List A) → (xs ++ ys) ++ zs ≡ xs ++ (ys ++ zs)
  append_assoc [] ys zs = refl
  append_assoc (x ∷ xs) ys zs = rw (append_assoc xs ys zs) refl

strip-blank_end : (lines : List Text) → strip_blank (lines ++ [] ∷ []) ≡ strip_blank lines
unfolding strip_blank trim_space
strip-blank_end [] = refl
strip-blank_end (line ∷ lines) = rw (strip-blank_end lines) refl

-- A blank line at the end changes no header, and adds at most a blank line to the body.
headers-blank_end :
    (headers : Assoc Text Text) (lines : List Text)
    → ((read_headers headers (lines ++ [] ∷ [])).0 ≡ (read_headers headers lines).0)
      × (strip_blank (read_headers headers (lines ++ [] ∷ [])).1
          ≡ strip_blank (read_headers headers lines).1)
unfolding read_headers
headers-blank_end headers [] = (refl, refl)
headers-blank_end headers ([] ∷ lines) = (refl, strip-blank_end lines)
headers-blank_end headers ((c ∷ line) ∷ lines) =
    headers-blank_end (add_header headers (c ∷ line)) lines

build-blank_end :
    (env : MailEnv) (line : Text) (lines : List Text)
    → draft_message env (line ∷ lines ++ [] ∷ []) ≡ draft_message env (line ∷ lines)
unfolding draft_message
build-blank_end env line lines =
    let h = headers-blank_end [] lines in
    λ i.
      draft_of (written_date env line)
        (message_of env 0 line (text_of (lookup (codes "subject") (h.0 i))) (h.1 i))

-- A message that is being read has an envelope line.
abbrev Started : Option (List Text) → Type 0
Started none = Unit
Started (some []) = ⊥
Started (some (l ∷ ls)) = Unit

extended :
    (current : Option (List Text)) (line : Text) → Started current → Started (extend current line)
extended none line s = tt
extended (some []) line s = absurd s
extended (some (l ∷ ls)) line s = tt

drafted-blank_end :
    (env : MailEnv) (current : Option (List Text))
    → Started current
    → drafted env (extend current []) ≡ drafted env current
drafted-blank_end env none s = refl
drafted-blank_end env (some []) s = absurd s
drafted-blank_end env (some (line ∷ lines)) s = rw (build-blank_end env line lines) refl

draft_line-Started :
    (env : MailEnv) (current : Option (List Text)) (line : Text)
    → Started current
    → Started (draft_line env current line).1
draft_line-Started env current line s = elim (Bool-cases (is_mbox_from_line line)) [
  | inl from ↦ rw from tt
  | inr inside ↦ rw inside (extended current line s)
]

-- A blank line at the end completes the same messages.
pub draft_lines-blank_end :
    (env : MailEnv) (current : Option (List Text)) (lines : List Text)
    → Started current
    → draft_lines env current (lines ++ [] ∷ []) ≡ draft_lines env current lines
unfolding draft_lines is_mbox_from_line
draft_lines-blank_end env current [] s = drafted-blank_end env current s
draft_lines-blank_end env current (line ∷ lines) s =
    rw
      (draft_lines-blank_end env (draft_line env current line).1 lines
        (draft_line-Started env current line s))
      refl

-- A From line ends what comes before it.
pub draft_lines-append :
    (env : MailEnv) (current : Option (List Text)) (before : List Text) (from : Text)
    (after : List Text)
    → is_mbox_from_line from ≡ true
    → draft_lines env current (before ++ from ∷ after)
      ≡ draft_lines env current before ++ draft_lines env none (from ∷ after)
unfolding draft_lines
draft_lines-append env current [] from after h = rw h refl
draft_lines-append env current (line ∷ before) from after h =
    rw (draft_lines-append env (draft_line env current line).1 before from after h)
      (sym (append_assoc (draft_line env current line).0 _ _))
