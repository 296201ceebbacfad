-- ===== src/Agent/Paths.antt =====
-- The helpers on paths and values of apps/agent/cmd/agent/main.go.
use dysonsphere.Common.{
  ℕ, Bool, Option, none, some, [], ◌∷◌, ◌++◌, Text, nat_eq, ◌==◌, leb, if◌then◌else◌,
}
use dysonsphere.Agent.MailSpool.{size}
use dysonsphere.Agent.Process.{take_bytes}
use dysonsphere.Common.Strings.{codes, is_empty}

abbrev pub default_value : Text → Text → Text
default_value value fallback = if is_empty value then fallback else value

abbrev below : ℕ → Bool → Option Text → Option Text
below c here (some dir) = some (c ∷ dir)
below c here none = if here then some [] else none

-- What stands before the last slash.
unfoldable pub before_slash : Text → Option Text
before_slash [] = none
before_slash (c ∷ s) = below c (c == b'/') (before_slash s)

abbrev or_here : Option Text → Text
or_here none = codes "."
or_here (some dir) = dir

unfoldable pub state_dir : Text → Text
unfolding before_slash
state_dir path = or_here (before_slash path)

unfoldable pub default_token_file : Text → Text
unfolding state_dir
default_token_file config_path = state_dir config_path ++ codes "/credentials.yaml"

-- The first `n` bytes.
unfoldable pub truncate : Text → ℕ → Text
truncate s n = if leb (size s) n then s else take_bytes n s
