-- ===== src/Common/Strings.antt =====
-- What the program uses of Go's `strings`, over texts as lists of character codes.
pub mod Trim
pub mod Fields
use Prim.Native.Char.{code}
use Prim.Native.String.{String}
use mathlib.Core.Bool.{Bool, true, false, ◌&&◌, ◌||◌}
use mathlib.Core.Option.{Option, none, some}
use mathlib.Core.List.{List, [], ◌∷◌, ◌++◌}
use Prim.Native.Nat.{ℕ, ◌+◌, ◌-◌}
use dysonsphere.Common.Tests.{leb, nat_beq, if◌then◌else◌}
use dysonsphere.Common.Classes.{Text, text_beq}

-- len(s) == 0
abbrev pub is_empty {ℓ} : {A : Type ℓ} → List A → Bool
is_empty [] = true
is_empty (x ∷ xs) = false

-- The text of a literal.
abbrev pub codes : String → Text
codes (String.◌∷◌ letter rest) = code letter ∷ codes rest
codes String.[] = []

-- unicode.IsSpace
unfoldable pub is_space : ℕ → Bool
is_space c =
    leb 9 c && leb c 13
    || nat_beq c 32
    || nat_beq c 0x85
    || nat_beq c 0xa0
    || nat_beq c 0x1680
    || leb 0x2000 c && leb c 0x200a
    || nat_beq c 0x2028
    || nat_beq c 0x2029
    || nat_beq c 0x202f
    || nat_beq c 0x205f
    || nat_beq c 0x3000

-- strings.TrimLeft by a set of characters.
unfoldable pub trim_left : (ℕ → Bool) → Text → Text
trim_left p [] = []
trim_left p (c ∷ s) = if p c then trim_left p s else c ∷ s

-- strings.TrimRight by a set of characters.
unfoldable pub trim_right : (ℕ → Bool) → Text → Text
trim_right p [] = []
trim_right p (c ∷ s) = let rest = trim_right p s in if p c && is_empty rest then [] else c ∷ rest

-- strings.Trim by a set of characters.
unfoldable pub trim : (ℕ → Bool) → Text → Text
unfolding trim_left trim_right
trim p s = trim_right p (trim_left p s)

-- strings.TrimSpace
unfoldable pub trim_space : Text → Text
unfolding trim is_space
trim_space s = trim is_space s

-- What follows a prefix: strings.HasPrefix with strings.TrimPrefix.
unfoldable pub strip_prefix : Text → Text → Option Text
strip_prefix [] s = some s
strip_prefix (c ∷ p) [] = none
strip_prefix (c ∷ p) (d ∷ s) = if nat_beq c d then strip_prefix p s else none

abbrev pub is_some {ℓ} : {A : Type ℓ} → Option A → Bool
is_some none = false
is_some (some a) = true

-- strings.HasPrefix(s, p), with the prefix first
unfoldable pub has_prefix : Text → Text → Bool
unfolding strip_prefix
has_prefix p s = is_some (strip_prefix p s)

-- strings.Contains(s, p), with the part first
unfoldable pub contains : Text → Text → Bool
unfolding has_prefix
contains p [] = has_prefix p []
contains p (c ∷ s) = has_prefix p (c ∷ s) || contains p s

abbrev cons_first : ℕ → Option (Text × Text) → Option (Text × Text)
cons_first c none = none
cons_first c (some (a, b)) = some (c ∷ a, b)

-- The parts before and after the first `c`: s[:i] and s[i+1:] for i = strings.Index(s, c).
unfoldable pub cut : ℕ → Text → Option (Text × Text)
cut c [] = none
cut c (d ∷ s) = if nat_beq d c then some ([], s) else cons_first d (cut c s)

-- strings.Join
unfoldable pub join : Text → List Text → Text
join sep [] = []
join sep (w ∷ []) = w
join sep (w ∷ v ∷ ws) = w ++ (sep ++ join sep (v ∷ ws))

-- The head of the text up to the first `c`, and what is split off the rest.
unfoldable pub split_from : ℕ → Text → Text × List Text
split_from c [] = ([], [])
split_from c (d ∷ s) =
    let (w, ws) = split_from c s in if nat_beq d c then ([], w ∷ ws) else (d ∷ w, ws)

-- strings.Split at a character
unfoldable pub split : ℕ → Text → List Text
unfolding split_from
split c s = let (w, ws) = split_from c s in w ∷ ws

-- A word that has ended joins the words after it.
abbrev pub emit : Text → List Text → List Text
emit [] ws = ws
emit (c ∷ w) ws = (c ∷ w) ∷ ws

-- The word that the text begins with, perhaps empty, and the words after it.
unfoldable pub fields_from : Text → Text × List Text
fields_from [] = ([], [])
fields_from (c ∷ s) =
    let (w, ws) = fields_from s in if is_space c then ([], emit w ws) else (c ∷ w, ws)

-- strings.Fields
unfoldable pub fields : Text → List Text
unfolding fields_from is_space
fields s = let (w, ws) = fields_from s in emit w ws

-- The lower-case form of an ASCII letter; other characters stand for themselves.
unfoldable pub to_lower : ℕ → ℕ
to_lower c = if leb b'A' c && leb c b'Z' then c + 32 else c

-- The upper-case form of an ASCII letter.
unfoldable pub to_upper : ℕ → ℕ
to_upper c = if leb b'a' c && leb c b'z' then c - 32 else c
