-- ===== src/Agent/Process/Cut.antt =====
-- What is left of a text that is cut: `truncateString` of apps/agent/internal/app/app.go.
use dysonsphere.Common.{
  ℕ, ◌+◌, ◌-◌, ◌≤◌, ◌<◌, ◌≡◌, refl, sym, ap, Bool-cases, inl, inr, [], ◌∷◌, ◌++◌, Text, leb,
  replicate, arith,
}
use mathlib.Core.List.{append-nil}
use dysonsphere.Agent.MailSpool.{size, width}
use dysonsphere.Agent.Process.{take_bytes}
use dysonsphere.Agent.App.Events.{truncate_string}

-- Where a text is cut at `n` bytes, of which the characters before the cut take `bytes`: not at all,
-- or in the next character, of which `stray` bytes lie before it.
abbrev EndsAt : Text → ℕ → ℕ → ℕ → Type 0
EndsAt [] n bytes stray = (stray ≡ 0) × (bytes ≤ n)
EndsAt (c ∷ rest) n bytes stray = (bytes + stray ≡ n) × (stray < width c)

-- The characters of `s` that are kept, and U+FFFD for each byte that is left of the one that is cut.
pub record CutAt (s : Text) (n : ℕ) (t : Text) : Type 0 where
  pub kept : Text
  pub rest : Text
  pub stray : ℕ
  pub starts : s ≡ kept ++ rest
  pub left : t ≡ kept ++ replicate stray 0xFFFD
  pub ends : EndsAt rest n (size kept) stray

EndsAt-cons :
    (w : ℕ) (rest : Text) (n bytes stray : ℕ)
    → w ≤ n
    → EndsAt rest (n - w) bytes stray
    → EndsAt rest n (w + bytes) stray
EndsAt-cons w [] n bytes stray h e = (e.0, omega arith)
EndsAt-cons w (c ∷ rest) n bytes stray h e = (omega arith, e.1)

take_bytes-CutAt : (s : Text) (n : ℕ) → CutAt s n (take_bytes n s)
unfolding take_bytes size
take_bytes-CutAt [] n = record {
  kept = [];
  rest = [];
  stray = 0;
  starts = refl;
  left = refl;
  ends = omega arith;
}
take_bytes-CutAt (c ∷ s) n =
    let cut = take_bytes-CutAt s (n - width c) in
    elim (Bool-cases (leb (width c) n)) [
      | inr wide ↦ rw wide (record {
        kept = [];
        rest = c ∷ s;
        stray = n;
        starts = refl;
        left = refl;
        ends = (omega arith, ground (arith, wide));
      })
      | inl fitting ↦ rw fitting (record {
        kept = c ∷ cut.kept;
        rest = cut.rest;
        stray = cut.stray;
        starts = ap (λ t. c ∷ t) cut.starts;
        left = ap (λ t. c ∷ t) cut.left;
        ends =
            EndsAt-cons (width c) cut.rest n (size cut.kept) cut.stray (ground (arith, fitting))
              cut.ends;
      })
    ]

-- A text is cut at `n` bytes: it is left as it is if it has at most so many, and otherwise its
-- characters within the first `n` bytes are, and of the next one U+FFFD for each of its bytes within
-- them, which are fewer than it has.
pub truncate_string-CutAt : (s : Text) (n : ℕ) → CutAt s n (truncate_string s n)
unfolding truncate_string
truncate_string-CutAt s n = elim (Bool-cases (leb (size s) n)) [
  | inr long ↦ rw long (take_bytes-CutAt s n)
  | inl short ↦ rw short (record {
    kept = s;
    rest = [];
    stray = 0;
    starts = sym (append-nil s);
    left = sym (append-nil s);
    ends = (refl, ground (arith, short));
  })
]
