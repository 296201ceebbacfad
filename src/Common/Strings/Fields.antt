-- ===== src/Common/Strings/Fields.antt =====
-- Laws of splitting into words.
use mathlib.Core.Path.{◌≡◌, refl, ◌∙◌, ap}
use mathlib.Core.Bool.{false}
use mathlib.Core.Logic.{inl, inr}
use mathlib.Core.List.{List, [], ◌∷◌, ◌++◌, append-nil}
use native.Mathlib.Omega.{arith}
use dysonsphere.Common.Tests.{Bool-cases}
use dysonsphere.Common.Lists.{All}
use dysonsphere.Common.Classes.{Text}
use dysonsphere.Common.Strings.{is_empty, is_space, emit, fields_from, fields, join}

-- No character is a space.
abbrev pub IsSolid : Text → Type 0
IsSolid w = All (λ c. is_space c ≡ false) w

-- A word: some characters, none a space.
abbrev pub IsWord : Text → Type 0
IsWord w = (is_empty w ≡ false) × IsSolid w

All-emit : (w : Text) (ws : List Text) → IsSolid w → All IsWord ws → All IsWord (emit w ws)
All-emit [] ws h k = k
All-emit (c ∷ w) ws h k = ((refl, h), k)

fields_from_words : (s : Text) → IsSolid (fields_from s).0 × All IsWord (fields_from s).1
unfolding fields_from
fields_from_words [] = (tt, tt)
fields_from_words (c ∷ s) = elim (Bool-cases (is_space c)) [
  | inl space ↦ rw space (tt, All-emit _ _ (fields_from_words s).0 (fields_from_words s).1)
  | inr solid ↦ rw solid ((solid, (fields_from_words s).0), (fields_from_words s).1)
]

pub fields_words : (s : Text) → All IsWord (fields s)
unfolding fields
fields_words s = All-emit _ _ (fields_from_words s).0 (fields_from_words s).1

-- A solid text in front of another one belongs to its first word.
fields_from-append :
    (w s : Text) → IsSolid w → fields_from (w ++ s) ≡ (w ++ (fields_from s).0, (fields_from s).1)
unfolding fields_from
fields_from-append [] s h = refl
fields_from-append (c ∷ w) s h = rw h.0 (rw (fields_from-append w s h.1))

emit_word : (w : Text) (ws : List Text) → is_empty w ≡ false → emit w ws ≡ w ∷ ws
emit_word [] ws h = ground arith
emit_word (c ∷ w) ws h = refl

fields_from_word : (w : Text) → IsSolid w → fields_from w ≡ (w, [])
unfolding fields_from
fields_from_word [] h = refl
fields_from_word (c ∷ w) h = rw h.0 (rw (fields_from_word w h.1))

pub fields-append_space : (w s : Text) → IsWord w → fields (w ++ (b' ' ∷ s)) ≡ w ∷ fields s
unfolding fields
fields-append_space w s h =
    rw (fields_from-append w (b' ' ∷ s) h.1) (rw append-nil (emit_word w (fields s) h.0))

-- Words joined by a space are found again.
pub fields-join : (ws : List Text) → All IsWord ws → fields (join (b' ' ∷ []) ws) ≡ ws
unfolding join
fields-join [] h = unfold fields in refl
fields-join (w ∷ []) h = unfold fields in rw (fields_from_word w h.0.1) (emit_word w [] h.0.0)
fields-join (w ∷ v ∷ ws) h =
    fields-append_space w (join (b' ' ∷ []) (v ∷ ws)) h.0
    ∙ ap (λ l. w ∷ l) (fields-join (v ∷ ws) h.1)
