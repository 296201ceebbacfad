-- ===== src/Server/Api/Query.antt =====
-- The query parameters of a request: `parseWindow` and `parsePagination` of
-- apps/server/internal/api/handlers.go.
use dysonsphere.Common.{
  ℕ, zero, suc, ◌+◌, ◌-◌, ◌*◌, ◌^◌, Bool, true, false, ◌&&◌, Option, none, some, [], ◌∷◌, Text,
  text_eq, nat_eq, ◌==◌, ltb, leb, if◌then◌else◌,
}
use dysonsphere.Common.Strings.{codes, is_empty}

-- The integers of the machine: `negsuc n` is −(n + 1).
pub data ℤ : Type 0 where
  pos : ℕ → ℤ
  negsuc : ℕ → ℤ

abbrev pub max_int : ℕ
max_int = 2 ^ 63 - 1

-- The value of a text of digits, after those read; the reading ends where it exceeds 64 bits.
unfoldable pub digits : ℕ → Text → Option ℕ
digits n [] = some n
digits n (c ∷ s) =
    let value = n * 10 + (c - b'0') in
    let rest = digits value s in
    if leb b'0' c && leb c b'9' then (if leb (2 ^ 64) value then some value else rest) else none

abbrev pub number : Text → Option ℕ
number [] = none
number (c ∷ s) = digits 0 (c ∷ s)

abbrev pub opposite : ℕ → ℤ
opposite zero = pos 0
opposite (suc n) = negsuc n

-- The value beside an error of the range is the nearest integer, and beside one of the syntax 0.
abbrev pub positive : Option ℕ → ℤ × Bool
positive none = (pos 0, false)
positive (some n) = if leb n max_int then (pos n, true) else (pos max_int, false)

abbrev pub negative : Option ℕ → ℤ × Bool
negative none = (pos 0, false)
negative (some n) = if leb n (max_int + 1) then (opposite n, true) else (negsuc max_int, false)

-- strconv.Atoi: the value, and whether there was no error.
unfoldable pub atoi : Text → ℤ × Bool
atoi [] = (pos 0, false)
atoi (c ∷ s) =
    if c == b'-'
    then negative (number s)
    else if c == b'+'
    then positive (number s)
    else positive (number (c ∷ s))

-- An integer where what is not positive counts as 0.
abbrev pub at_least_zero : ℤ → ℕ
at_least_zero (pos n) = n
at_least_zero (negsuc n) = 0

abbrev pub is_natural : ℤ → Bool
is_natural (pos n) = true
is_natural (negsuc n) = false

abbrev pub parse_limit : Text → ℕ
parse_limit l =
    let (v, fine) = atoi l in
    if fine && (ltb 0 (at_least_zero v) && leb (at_least_zero v) 500) then at_least_zero v else 50

abbrev pub parse_offset : Text → ℕ
parse_offset o = let (v, fine) = atoi o in if fine && is_natural v then at_least_zero v else 0

-- The parameters `limit` and `offset`, empty where they are missing.
unfoldable pub parse_pagination : Text → Text → ℕ × ℕ
parse_pagination limit offset = (
  if is_empty limit then 50 else parse_limit limit,
  if is_empty offset then 0 else parse_offset offset,
)

pub record Window : Type 0 where
  pub since : ℕ
  pub label : Text
  pub bucket_seconds : ℕ

abbrev pub hour : ℕ
hour = 3600 * 1_000_000_000

-- The parameter `window`, at the time of the request.
unfoldable pub parse_window : ℕ → Text → Window
parse_window now window =
    if window == codes "7d"
    then record { since = now - 7 * 24 * hour; label = codes "7d"; bucket_seconds = 6 * 3600 }
    else if window == codes "30d"
    then record { since = now - 30 * 24 * hour; label = codes "30d"; bucket_seconds = 86400 }
    else if window == codes "90d"
    then record { since = now - 90 * 24 * hour; label = codes "90d"; bucket_seconds = 86400 }
    else record { since = now - 24 * hour; label = codes "24h"; bucket_seconds = 3600 }
