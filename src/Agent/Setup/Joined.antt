-- ===== src/Agent/Setup/Joined.antt =====
-- What the setup of an agent has done when it succeeds: apps/agent/cmd/agent/main.go.
use dysonsphere.Common.{
  ℕ, suc, ◌≡◌, refl, ◌∙◌, false, ◌||◌, Bool-cases, inl, inr, Option, none, some, List, [], Text,
  text_eq, ◌==◌, arith,
}
use dysonsphere.Common.Strings.{codes, is_empty}
use dysonsphere.Common.Assoc.{Assoc, lookup, insert, lookup-insert, beq_refl}
use dysonsphere.Agent.World.{AgentEnv, update}
use dysonsphere.Agent.Store.{set_meta}
use dysonsphere.Agent.Client
use dysonsphere.Agent.Client.{EnrollRequest, EnrollResponse, HttpRequest, new_client, post_raw}
use dysonsphere.Agent.Machine.{Machine, MachineEnv, ok, sys, read_file, write_file}
use dysonsphere.Agent.Machine.Ran.{ran, written, write_file-written}
use dysonsphere.Agent.Machine.Stores.{cannot_open, buckets_at, open_state, in_state}
use dysonsphere.Agent.Config.{Yamls}
use dysonsphere.Agent.Setup.{
  enrolled, build_config, credential_document, generate_machine_id, write_credential_file,
  write_config_file, enroll, save_host_id, join_server,
}

answer_read :
    (env : MachineEnv) (answer : Client.Result Text) (sent : List HttpRequest)
    (resp : EnrollResponse)
    → enrolled
        (Client.continue answer
          (λ s. Client.lift Client.not_decoded (env.transport.read_enrollment s))
          sent).0
      ≡ ok resp
    → (s : Text) × (env.transport.read_enrollment s ≡ some resp)
answer_read env (Client.ok s) sent resp e = (s, read (env.transport.read_enrollment s) refl)
  where
    read :
        (o : Option EnrollResponse)
        → env.transport.read_enrollment s ≡ o
        → env.transport.read_enrollment s ≡ some resp
    read none p = ground (arith, (rw p at e))
    read (some r) p = let q = rw p at e in ground (arith, p, q)
answer_read env (Client.failed f) sent resp e = ground arith

module _ {agent : AgentEnv} (env : MachineEnv) where
  generated-nonempty :
      (m : Machine agent) (id : Text)
      → ((n : ℕ) → is_empty (agent.uuid n) ≡ false)
      → (generate_machine_id env m).0 ≡ ok id
      → is_empty id ≡ false
  unfolding generate_machine_id read_file
  generated-nonempty m id named e = ground (arith, named (suc m.world.steps))

  enrolled_read :
      (url : Text) (r : EnrollRequest) (m : Machine agent) (resp : EnrollResponse)
      → (enroll env url r m).0 ≡ ok resp
      → (s : Text) × (env.transport.read_enrollment s ≡ some resp)
  unfolding enroll Client.enroll
  enrolled_read url r m resp e =
      answer_read env
        (post_raw env.transport (new_client url [] []) (codes "/api/v1/agents/enroll") []
          (Client.enrollment r) m.sent).0
        (post_raw env.transport (new_client url [] []) (codes "/api/v1/agents/enroll") []
          (Client.enrollment r) m.sent).1
        resp e

  enroll-files :
      (url : Text) (r : EnrollRequest) (m : Machine agent) → (enroll env url r m).1.files ≡ m.files
  unfolding enroll
  enroll-files url r m = refl

  credential-written :
      (path content : Text) (m : Machine agent)
      → (write_credential_file env path content m).0 ≡ ok tt
      → (write_credential_file env path content m).1.files ≡ written path content m.files
  unfolding write_credential_file sys write_file
  credential-written path content m h = ground arith

  config-written :
      (path content : Text) (m : Machine agent)
      → (write_config_file env path content m).0 ≡ ok tt
      → (write_config_file env path content m).1.files ≡ written path content m.files
  unfolding write_config_file
  config-written path content m h = write_file-written env _ path content _ h

  -- The id is in the state file of this path, which can be opened again.
  saved_host :
      (path host_id : Text) (m : Machine agent)
      → (save_host_id env path host_id m).0 ≡ ok tt
      → let after = (save_host_id env path host_id m).1 in
        (after.files ≡ m.files)
        × (cannot_open path after ≡ false)
        × (agent.bolt.get (buckets_at path after.stores).settings (codes "host_id") ≡ some host_id)
  unfolding save_host_id open_state in_state set_meta update
  saved_host path host_id m h =
      let steps = m.world.steps in
      let old = buckets_at path m.stores in
      let new = record old { settings = agent.bolt.put old.settings (codes "host_id") host_id } in
      elim (Bool-cases (env.fails (suc steps) || cannot_open path m)) [
        | inl shut ↦ let e = rw shut at h in ground (arith, e)
        | inr free ↦ elim (Bool-cases (agent.store_fails (suc (suc steps)))) [
          | inl down ↦ let e = rw (free, down) at h in ground (arith, e)
          | inr up ↦
              rw (free, up)
                (
                  refl,
                  ground (arith, free),
                  rw
                      (
                        lookup-insert path path new (insert path old m.stores),
                        beq_refl path,
                        agent.bolt.get-put old.settings (codes "host_id") host_id (codes "host_id"),
                        beq_refl (codes "host_id"),
                      )
                      refl,
                )
        ]
      ]

-- What a setup has done.
pub record Joined {agent : AgentEnv} (env : MachineEnv) (yaml : Yamls)
    (url config_path state_path token_path : Text) (after : Machine agent) : Type 0 where
  pub id : Text
  pub s : Text
  pub resp : EnrollResponse
  pub named : is_empty id ≡ false
  pub answered : env.transport.read_enrollment s ≡ some resp
  pub opens_again : cannot_open state_path after ≡ false
  pub saved :
      agent.bolt.get (buckets_at state_path after.stores).settings (codes "host_id")
      ≡ some resp.host_id
  pub config_there :
      lookup config_path after.files
      ≡ some (yaml.encode (build_config url token_path id env.hostname state_path resp))
  pub token_there :
      (config_path == token_path) ≡ false
      → lookup token_path after.files
        ≡ some (yaml.encode (credential_document resp.credential.token))

-- Of two files that were written, both are there.
both_there :
    (c k a b : Text) (files : Assoc Text Text)
    → (lookup c (written c a (written k b files)) ≡ some a)
      × ((c == k) ≡ false → lookup k (written c a (written k b files)) ≡ some b)
both_there c k a b files = (
  rw (lookup-insert c c a (insert c [] (written k b files)), beq_refl c) refl,
  λ other. ground (
    arith,
    lookup-insert c k a (insert c [] (written k b files)),
    lookup-insert c k [] (written k b files),
    lookup-insert k k b (insert k [] files),
    beq_refl k,
    other,
  ),
)

pub joins :
    {agent : AgentEnv} (env : MachineEnv) (yaml : Yamls)
    (url secret config_path state_path token_path : Text) (m : Machine agent)
    → ((n : ℕ) → is_empty (agent.uuid n) ≡ false)
    → (join_server env yaml url secret config_path state_path token_path m).0 ≡ ok tt
    → Joined env yaml url config_path state_path token_path
        (join_server env yaml url secret config_path state_path token_path m).1
unfolding join_server
joins env yaml url secret config_path state_path token_path m uuids e =
    let r1 = ran (generate_machine_id env) _ m tt e in
    let m1 = (generate_machine_id env m).1 in
    let r2 = ran (enroll env url _) _ m1 tt r1.second in
    let m2 = (enroll env url _ m1).1 in
    let resp = r2.value in
    let r3 = ran (write_credential_file env token_path _) _ m2 tt r2.second in
    let m3 = (write_credential_file env token_path _ m2).1 in
    let r4 = ran (write_config_file env config_path _) _ m3 tt r3.second in
    let m4 = (write_config_file env config_path _ m3).1 in
    let (files, opens_again, saved) = saved_host env state_path resp.host_id m4 r4.second in
    let credential = yaml.encode (credential_document resp.credential.token) in
    let config = yaml.encode (build_config url token_path r1.value env.hostname state_path resp) in
    let w3 = credential-written env token_path credential m2 r3.first in
    let w4 = config-written env config_path config m3 r4.first in
    let final = rw w3 at (files ∙ w4) in
    let both = both_there config_path token_path config credential m2.files in
    let (s, p) = enrolled_read env url _ m1 resp r2.first in
    rw (r1.left ∙ r2.left ∙ r3.left ∙ r4.left) (record {
      id = r1.value;
      s = s;
      resp = resp;
      named = generated-nonempty env m r1.value uuids r1.first;
      answered = p;
      opens_again = opens_again;
      saved = saved;
      config_there = rw final both.0;
      token_there = rw final both.1;
    })
