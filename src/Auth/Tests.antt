-- ===== src/Auth/Tests.antt =====
-- Runs of the sign-in and of requests, and the theorems at inputs that meet their hypotheses.
use scoutpulse.Base.{◌≡◌, refl, String, true, false, none, some, List, [], ◌∷◌, any}
use scoutpulse.Auth.Session.{
  Role, User, TokenPair, TokenStorage, new_session, renew, has_stored_session,
}
use scoutpulse.Auth.Facade.{Reply, Answers, restore}
use scoutpulse.Auth.Flows.{Flow, IsSession, run_flows, run_flows-restore-IsSession}
use scoutpulse.Auth.Interceptor.{NetEvent, new_net, happen_all}
use scoutpulse.Auth.OneRefresh.{IsShared, happen_all-IsShared}
use scoutpulse.Auth.Permissions.{
  Permissions, can_edit_team, receive_grants, sign_in_as, sign_out, late_grants,
}

abbrev storage : TokenStorage
storage = record { works = true; signed_in = some "1"; legacy = none }

abbrev account : String → Role → User
account id role = record {
  id = id;
  username = id;
  email = "x@y.z";
  role = role;
  created_at = "2026-01-01";
}

abbrev tokens : String → TokenPair
tokens access = record { access_token = access; refresh_token = none; expires_in = 900 }

abbrev good : Answers
good = record {
  tokens = Reply.answer (tokens "t");
  again = Reply.failed;
  profile = Reply.answer (account "ann" Role.editor);
}

abbrev down : Answers
down = record { tokens = Reply.failed; again = Reply.failed; profile = Reply.failed }

run_flows-restore-IsSession_example :
    IsSession (
      run_flows (Flow.logout_flow ∷ Flow.login_flow good ∷ []) (restore down (new_session storage)))
run_flows-restore-IsSession_example =
    run_flows-restore-IsSession down storage (Flow.logout_flow ∷ Flow.login_flow good ∷ [])

-- Two requests are refused, share one refresh and go out again.
abbrev two_refused : List NetEvent
two_refused =
    NetEvent.send false
    ∷ NetEvent.send false
    ∷ NetEvent.reply 0 Reply.unauthorized
    ∷ NetEvent.reply 1 Reply.unauthorized
    ∷ NetEvent.refreshed (Reply.answer (tokens "u"))
    ∷ []

one_refresh :
    (happen_all two_refused (new_net (renew (tokens "t") (new_session storage)))).started ≡ 1
unfolding happen_all renew has_stored_session
one_refresh = refl

happen_all-IsShared_example :
    IsShared (happen_all two_refused (new_net (renew (tokens "t") (new_session storage))))
happen_all-IsShared_example =
    happen_all-IsShared (renew (tokens "t") (new_session storage)) two_refused

abbrev rights : Permissions
rights = record { session = new_session storage; grants = "c" ∷ []; loaded = true }

late_grants_example :
    can_edit_team (some "a") (
      receive_grants (some ("a" ∷ [])) (
        receive_grants
          (some ("b" ∷ []))
          (sign_in_as
            (account "bob" Role.editor)
            (sign_out (sign_in_as (account "ann" Role.editor) rights).0)).0))
    ≡ true
unfolding any
late_grants_example =
    late_grants (account "ann" Role.editor) (account "bob" Role.editor) rights ("a" ∷ []) ("b" ∷ [])
      "a" refl refl refl
