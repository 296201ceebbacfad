-- ===== src/Common/Strings/Trim.antt =====
-- Laws of trimming.
use Prim.Native.Nat.{ℕ}
use mathlib.Core.Path.{◌≡◌, refl}
use mathlib.Core.Bool.{Bool, false}
use mathlib.Core.List.{[], ◌∷◌, ◌++◌}
use native.Mathlib.Omega.{arith}
use dysonsphere.Common.Classes.{Text}
use dysonsphere.Common.Lists.{All}
use mathlib.Core.Option.{some}
use dysonsphere.Common.Strings.{
  strip_prefix, trim_left, trim_right, trim, trim_space, is_space, is_empty,
}

-- Whether the first character passes a test.
abbrev pub starts : (ℕ → Bool) → Text → Bool
starts p [] = false
starts p (c ∷ s) = p c

module _ (p : ℕ → Bool) where
  pub starts-trim_left : (s : Text) → starts p (trim_left p s) ≡ false
  unfolding trim_left
  starts-trim_left [] = refl
  starts-trim_left (c ∷ s) = ground (arith, starts-trim_left s)

  pub trim_left_id : (s : Text) → starts p s ≡ false → trim_left p s ≡ s
  unfolding trim_left
  trim_left_id [] h = refl
  trim_left_id (c ∷ s) h = ground arith

  pub starts-trim_right : (s : Text) → starts p s ≡ false → starts p (trim_right p s) ≡ false
  unfolding trim_right
  starts-trim_right [] h = refl
  starts-trim_right (c ∷ s) h = ground arith

  pub trim_right_idem : (s : Text) → trim_right p (trim_right p s) ≡ trim_right p s
  unfolding trim_right
  trim_right_idem [] = refl
  trim_right_idem (c ∷ s) = ground (arith, trim_right_idem s)

  pub starts-trim : (s : Text) → starts p (trim p s) ≡ false
  unfolding trim
  starts-trim s = starts-trim_right (trim_left p s) (starts-trim_left s)

  pub trim_idem : (s : Text) → trim p (trim p s) ≡ trim p s
  trim_idem s =
      unfold trim in
      rw (trim_left_id (trim_right p (trim_left p s)) (starts-trim s))
        (trim_right_idem (trim_left p s))

-- Trimming twice changes nothing more, and what is left begins with no space.
pub trim_space_idem : (s : Text) → trim_space (trim_space s) ≡ trim_space s
unfolding trim_space
trim_space_idem s = trim_idem is_space s

pub trim_right_solid : (p : ℕ → Bool) (s : Text) → All (λ c. p c ≡ false) s → trim_right p s ≡ s
unfolding trim_right
trim_right_solid p [] h = refl
trim_right_solid p (c ∷ s) h = rw h.0 (rw (trim_right_solid p s h.1))

-- A text without the trimmed characters stays whole.
pub trim_solid : (p : ℕ → Bool) (s : Text) → All (λ c. p c ≡ false) s → trim p s ≡ s
unfolding trim trim_left trim_right
trim_solid p [] h = refl
trim_solid p (c ∷ s) h = rw h.0 (rw h.0 (rw (trim_right_solid p s h.1)))

pub strip_prefix-append : (p s : Text) → strip_prefix p (p ++ s) ≡ some s
unfolding strip_prefix
strip_prefix-append [] s = refl
strip_prefix-append (c ∷ p) s = ground (arith, strip_prefix-append p s)

append_solid : (s t : Text) → is_empty t ≡ false → is_empty (s ++ t) ≡ false
append_solid [] t h = h
append_solid (c ∷ s) t h = refl

-- Trimming the end of a text that has more than the trimmed characters.
pub trim_right-append :
    (p : ℕ → Bool) (s t : Text)
    → is_empty (trim_right p t) ≡ false
    → trim_right p (s ++ t) ≡ s ++ trim_right p t
unfolding trim_right
trim_right-append p [] t h = refl
trim_right-append p (c ∷ s) t h =
    rw (trim_right-append p s t h) (ground (arith, append_solid s (trim_right p t) h))
