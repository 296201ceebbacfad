-- ===== src/Agent/Client/Signed.antt =====
-- The headers of the requests of apps/agent/internal/client/client.go.
use dysonsphere.Common.{ℕ, ◌≡◌, ◌≢◌, refl, false, Option, List, ◌∷◌, length, Text, arith, ap}
use dysonsphere.Common.Strings.{is_empty}
use dysonsphere.Server.Domain.{Json}
use dysonsphere.Server.Auth.Access.{bearer}
use dysonsphere.Agent.Client.{
  HttpRequest, Transport, Client, authorization, post_raw, post_json, get_json, heartbeat,
  submit_discovery, batch_executions, batch_metrics, claim_run_commands, complete_run_command,
}

-- The requests of an enrolled agent.
pub data ClientOp : Type 0 where
  beat : Text → ClientOp
  submit : Json → ClientOp
  report : Json → ClientOp
  measure : Json → ClientOp
  claim : ℕ → ClientOp
  complete : Text → Text → Text → ℕ → ℕ → Option ℕ → ClientOp

longer : (q : HttpRequest) (sent : List HttpRequest) → sent ≢ q ∷ sent
longer q sent e = let p : length sent ≡ length (q ∷ sent) = ap length e in omega arith

module _ (t : Transport) (c : Client) where
  abbrev pub perform : ClientOp → List HttpRequest → List HttpRequest
  perform (beat ip) sent = (heartbeat t c ip sent).1
  perform (submit jobs) sent = (submit_discovery t c jobs sent).1
  perform (report events) sent = (batch_executions t c events sent).1
  perform (measure metrics) sent = (batch_metrics t c metrics sent).1
  perform (claim limit) sent = (claim_run_commands t c limit sent).1
  perform (complete id status message started finished code) sent =
      (complete_run_command t c id status message started finished code sent).1

  -- A request that was added has the headers of the client.
  pub record Signed (sent after : List HttpRequest) : Type 0 where
    pub headers :
        (q : HttpRequest)
        → after ≡ q ∷ sent
        → (q.authorization ≡ authorization c) × (q.host_id ≡ c.host_id)

  post_json-Signed :
      (path : Text) (body : Json) (sent : List HttpRequest)
      → Signed sent (post_json t c path c.host_id body sent).1
  unfolding post_json post_raw
  post_json-Signed path body sent = record { headers = λ q e. ground (arith, longer q sent) }

  get_json-Signed :
      {A : Type 0} (read : Text → Option A) (path : Text) (sent : List HttpRequest)
      → Signed sent (get_json t read c path c.host_id sent).1
  unfolding get_json
  get_json-Signed read path sent = record { headers = λ q e. ground (arith, longer q sent) }

  pub perform-Signed : (op : ClientOp) (sent : List HttpRequest) → Signed sent (perform op sent)
  unfolding heartbeat submit_discovery batch_executions batch_metrics claim_run_commands
      complete_run_command
  perform-Signed (beat ip) sent = post_json-Signed _ _ sent
  perform-Signed (submit jobs) sent = post_json-Signed _ _ sent
  perform-Signed (report events) sent = post_json-Signed _ _ sent
  perform-Signed (measure metrics) sent = post_json-Signed _ _ sent
  perform-Signed (claim limit) sent = get_json-Signed t.read_commands _ sent
  perform-Signed (complete id status message started finished code) sent = post_json-Signed _ _ sent

-- The header of a client that has a token.
pub authorization-bearer :
    (c : Client) → is_empty c.token ≡ false → authorization c ≡ bearer c.token
unfolding authorization
authorization-bearer c h = rw h refl
