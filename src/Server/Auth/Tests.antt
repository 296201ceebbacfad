-- ===== src/Server/Auth/Tests.antt =====
-- Runs of the authentication on concrete requests.
use dysonsphere.Common.{
  ℕ, ◌+◌, ◌*◌, ◌≡◌, refl, true, false, none, some, List, [], ◌∷◌, map, arith, Text, text_eq,
  text_beq, ◌↔◌,
}
use dysonsphere.Common.Assoc.{lookup, insert, remove}
use dysonsphere.Common.Strings.{codes}
use dysonsphere.Server.Auth.{
  AuthManager, second, new_auth_manager, login, logout, api_auth, is_session_token, cleanup,
  is_locked_out, clear_failures, new_session_token,
}
use dysonsphere.Server.Auth.Secure.{secure_equal, secure_equal_iff, pad_to, hex_encode}
use dysonsphere.Server.Auth.Request.{
  Attempt, Request, login_from, logout_of, access, cleanup_at, step, run,
}
use dysonsphere.Server.Auth.Lockout.Failures.{lockout_after_failures}
use dysonsphere.Server.Auth.Cleanup.{cleanup_keeps_live, kept_session, kept_attempt}
use dysonsphere.Server.Auth.Access.{bearer}
use dysonsphere.Server.Auth.Sessions.Expiry.{
  session_until_expiry, logout_revokes, expiry_revokes, entry_of,
}

abbrev manager : AuthManager
manager = new_auth_manager (codes "dev-token") (codes "admin") (codes "pw") none

abbrev ip : Text
ip = codes "10.0.0.1"

-- A login that starts at a second, with one random byte and the given password.
abbrev try_at : ℕ → Text → Attempt
try_at s password = record {
  now = s * second;
  later = s * second + 1;
  bytes = some (0xa7 ∷ []);
  username = codes "admin";
  password = password;
}

abbrev wrong_tries : List Attempt
wrong_tries =
    try_at 600 (codes "a") ∷ try_at 601 (codes "b") ∷ try_at 602 [] ∷ try_at 603 (codes "pW") ∷ []

abbrev between : List Request
between = cleanup_at (700 * second) ∷ login_from (codes "10.0.0.2") (try_at 701 (codes "pw")) ∷ []

lockout_after_failures_example :
    let b =
      run
        (step
          (run manager (map (login_from ip) wrong_tries))
          (login_from ip (try_at 604 (codes "c"))))
        between in
    let t = try_at 900 (codes "pw") in
    login b t.now t.later t.bytes ip t.username t.password ≡ (b, none)
unfolding new_auth_manager lookup secure_equal pad_to text_beq
lockout_after_failures_example =
    lockout_after_failures manager ip wrong_tries (try_at 604 (codes "c")) between
      (try_at 900 (codes "pw")) refl refl (refl, (refl, (refl, (refl, tt)))) refl (omega arith)
      (omega arith)

secure_equal_iff_example :
    (secure_equal (codes "pw") (codes "pW") ≡ true) ↔ (codes "pw" ≡ codes "pW")
secure_equal_iff_example = secure_equal_iff (codes "pw") (codes "pW") (omega arith) (omega arith)

cleanup_keeps_live_example :
    let a = run manager (login_from ip (try_at 600 (codes "a")) ∷ []) in
    (lookup ip (cleanup a (700 * second)).sessions
      ≡ kept_session (700 * second) (lookup ip a.sessions))
    × (lookup ip (cleanup a (700 * second)).attempts
        ≡ kept_attempt (700 * second) (lookup ip a.attempts))
cleanup_keeps_live_example =
    cleanup_keeps_live (codes "dev-token") (codes "admin") (codes "pw") none
      (login_from ip (try_at 600 (codes "a")) ∷ []) (700 * second) ip (omega arith)

abbrev good : Attempt
good = try_at 600 (codes "pw")

good_response :
    (login manager good.now good.later good.bytes ip good.username good.password).1
    ≡ some (record { token = codes "a7"; username = codes "admin" })
unfolding login is_locked_out clear_failures new_session_token hex_encode new_auth_manager lookup
    secure_equal pad_to text_beq
good_response = refl

abbrev visits : List Request
visits =
    access (700 * second) (bearer (codes "a7")) []
    ∷ cleanup_at (1200 * second)
    ∷ logout_of (codes "b8")
    ∷ []

session_until_expiry_example :
    let b = (login manager good.now good.later good.bytes ip good.username good.password).0 in
    (api_auth (run b visits) (80_000 * second) (bearer (codes "a7")) []).1 ≡ true
unfolding text_beq
session_until_expiry_example =
    session_until_expiry manager ip good (0xa7 ∷ [])
      (record { token = codes "a7"; username = codes "admin" }) visits (80_000 * second) [] refl
      (omega arith) (omega arith) good_response ((tt, refl), ((tt, refl), ((refl, refl), tt))) refl

logged_in : AuthManager
logged_in = (login manager good.now good.later good.bytes ip good.username good.password).0

logout_revokes_example :
    (is_session_token (run (logout logged_in (codes "a7")) visits) (900 * second) (codes "a7")).1
    ≡ false
logout_revokes_example =
    logout_revokes logged_in (codes "a7") visits (900 * second) refl (tt, (tt, (tt, tt)))

held : lookup (codes "a7") logged_in.sessions ≡ some (entry_of good)
unfolding logged_in login is_locked_out clear_failures new_session_token hex_encode new_auth_manager
    lookup secure_equal pad_to text_beq insert remove
held = refl

expiry_revokes_example :
    ((is_session_token logged_in (100_000 * second) (codes "a7")).1 ≡ false)
    × ((is_session_token
          (run (is_session_token logged_in (100_000 * second) (codes "a7")).0 visits)
          0
          (codes "a7")).1
        ≡ false)
expiry_revokes_example =
    expiry_revokes logged_in (codes "a7") (entry_of good) (100_000 * second) visits 0 held refl
      (tt, (tt, (tt, tt)))
