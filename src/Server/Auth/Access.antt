-- ===== src/Server/Auth/Access.antt =====
-- Which requests `APIAuthMiddleware` lets through: apps/server/internal/api/auth.go.
use dysonsphere.Common.{
  ℕ, ◌/◌, ◌%◌, ◌<◌, ◌≡◌, Bool, false, Option, none, some, [], ◌∷◌, ◌++◌, arith, All, Text, text_eq,
  not, ◌&&◌, ◌||◌,
}
use dysonsphere.Common.Strings.{codes, is_empty, is_space, trim_space}
use dysonsphere.Common.Strings.Trim.{trim_solid, strip_prefix-append}
use dysonsphere.Common.Strings.Fields.{IsSolid}
use dysonsphere.Common.Assoc.{lookup}
use dysonsphere.Server.Auth.{
  AuthManager, SessionEntry, is_live, bearer_token, api_auth, is_session_token, validates,
}
use dysonsphere.Server.Auth.Secure.{secure_equal, hex_digit, hex_encode}

abbrev pub live_entry : ℕ → Option SessionEntry → Bool
live_entry now none = false
live_entry now (some entry) = is_live now entry

-- A request is let through exactly if its bearer token is not empty and is a live session, or the
-- legacy agent token where one is set, or a credential of the host named in the request.
pub access_rule :
    (a : AuthManager) (now : ℕ) (authorization host_id : Text)
    → (api_auth a now authorization host_id).1 ≡ (
        let token = bearer_token authorization in
        not (is_empty token)
        && (live_entry now (lookup token a.sessions)
            || not (is_empty a.legacy_agent_token) && secure_equal token a.legacy_agent_token
            || not (is_empty host_id) && validates a.validator host_id token))
unfolding api_auth is_session_token
access_rule a now authorization host_id = ground arith

-- The header that a client sends for a token.
abbrev pub bearer : Text → Text
bearer token = codes "Bearer " ++ token

pub bearer_token-bearer : (token : Text) → IsSolid token → bearer_token (bearer token) ≡ token
unfolding bearer_token trim_space
bearer_token-bearer token h =
    rw (strip_prefix-append (codes "Bearer ") token, bearer_token) (trim_solid is_space token h)

hex_digit_solid : (n : ℕ) → n < 16 → is_space (hex_digit n) ≡ false
unfolding is_space
hex_digit_solid n h = ground arith

pub hex_encode-IsSolid : (s : Text) → All (λ b. b < 256) s → IsSolid (hex_encode s)
unfolding hex_encode
hex_encode-IsSolid [] h = tt
hex_encode-IsSolid (b ∷ s) h = (
  hex_digit_solid (b / 16) (omega arith),
  (hex_digit_solid (b % 16) (omega arith), hex_encode-IsSolid s h.1),
)
