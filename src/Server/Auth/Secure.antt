-- ===== src/Server/Auth/Secure.antt =====
-- `secureEqual` and the tokens of apps/server/internal/api/auth.go, over bytes.
use dysonsphere.Common.{
  ℕ, ◌+◌, ◌-◌, ◌*◌, ◌/◌, ◌%◌, ◌^◌, ◌≤◌, ◌<◌, ◌≡◌, ◌↔◌, Bool, true, [], ◌∷◌, ◌++◌, arith, length,
  replicate, Text, text_beq, text_beq_iff, text_beq_refl, ltb, nat_beq, if◌then◌else◌,
}

-- The bit pattern of Go's conversion `int32(n)`.
abbrev pub int32 : ℕ → ℕ
int32 n = n % 2 ^ 32

-- subtle.ConstantTimeEq
abbrev constant_time_eq : ℕ → ℕ → ℕ
constant_time_eq x y = if nat_beq x y then 1 else 0

-- subtle.ConstantTimeCompare
abbrev constant_time_compare : Text → Text → ℕ
constant_time_compare x y = if text_beq x y then 1 else 0

-- The bytes, with zeros up to the length of the other operand.
unfoldable pub pad_to : ℕ → Text → Text
pad_to n s = if ltb (length s) n then s ++ replicate (n - length s) 0 else s

unfoldable pub secure_equal : Text → Text → Bool
secure_equal got want =
    let len_ok = constant_time_eq (int32 (length got)) (int32 (length want)) in
    let content_ok = constant_time_compare (pad_to (length want) got) (pad_to (length got) want) in
    nat_beq (constant_time_eq (int32 (len_ok + content_ok)) 2) 1

pad_to_id : (n : ℕ) (s : Text) → n ≤ length s → pad_to n s ≡ s
unfolding pad_to
pad_to_id n s h = ground arith

equal_parts :
    (got want : Text)
    → secure_equal got want ≡ true
    → (int32 (length got) ≡ int32 (length want))
      × (text_beq (pad_to (length want) got) (pad_to (length got) want) ≡ true)
unfolding secure_equal
equal_parts got want h = (ground arith, ground arith)

pub secure_equal_refl : (s : Text) → secure_equal s s ≡ true
unfolding secure_equal
secure_equal_refl s = ground (arith, text_beq_refl (pad_to (length s) s))

secure_equal_sound :
    (got want : Text)
    → length got < 2 ^ 32
    → length want < 2 ^ 32
    → secure_equal got want ≡ true
    → got ≡ want
secure_equal_sound got want h k e =
    let p = equal_parts got want e in
    let same : length got ≡ length want = omega (arith, p.0) in
    let q =
      (rw (pad_to_id (length want) got (omega arith), pad_to_id (length got) want (omega arith)) at
        p.1) in
    (text_beq_iff got want).0 q

-- The comparison accepts exactly equal operands, if both are shorter than 2^32 bytes.
pub secure_equal_iff :
    (got want : Text)
    → length got < 2 ^ 32
    → length want < 2 ^ 32
    → (secure_equal got want ≡ true) ↔ (got ≡ want)
secure_equal_iff got want h k =
    (secure_equal_sound got want h k, λ e. rw e (secure_equal_refl want))

-- hex.EncodeToString: two digits for each byte.
abbrev pub hex_digit : ℕ → ℕ
hex_digit n = if ltb n 10 then b'0' + n else b'a' + (n - 10)

unfoldable pub hex_encode : Text → Text
hex_encode [] = []
hex_encode (b ∷ s) = hex_digit (b / 16) ∷ hex_digit (b % 16) ∷ hex_encode s

pub length-hex_encode : (s : Text) → length (hex_encode s) ≡ 2 * length s
unfolding hex_encode
length-hex_encode [] = omega arith
length-hex_encode (b ∷ s) = omega (arith, length-hex_encode s)
