-- ===== src/Auth/Facade.antt =====
-- Signing in and out: `AuthFacade` of core/auth/auth-facade.ts, `refreshSession` and `isUnauthorized`
-- of core/auth/auth-repository.ts, and the route guards of core/auth/guards.ts. What the service
-- answers is an argument.
use scoutpulse.Base.{String, Bool, true, false, ◌||◌, Option, none, some, if◌then◌else◌}
use scoutpulse.Auth.Session.{
  SessionStore, TokenPair, User, start, renew, set_user, clear, mark_anonymous, is_authenticated,
  is_admin, is_editor, has_stored_session,
}

-- The answer to a request: a value, a refusal of the credentials, or another failure.
pub data Reply (A : Type 0) : Type 0 where
  answer : A → Reply A
  unauthorized : Reply A
  failed : Reply A

-- What the service answers to a flow: the tokens at the first and, for a refresh, at the second try,
-- and the profile.
pub record Answers : Type 0 where
  pub tokens : Reply TokenPair
  pub again : Reply TokenPair
  pub profile : Reply User

unfoldable pub refresh_session : Answers → Reply TokenPair
refresh_session a = elim a.tokens [
  | Reply.answer t ↦ Reply.answer t
  | Reply.unauthorized ↦ a.again
  | Reply.failed ↦ Reply.failed
]

unfoldable pub load_profile : Reply User → SessionStore → SessionStore
unfolding set_user clear
load_profile (Reply.answer u) s = set_user u s
load_profile Reply.unauthorized s = clear s
load_profile Reply.failed s = s

-- The state after a flow, and whether it threw.
unfoldable pub sign_in : Reply TokenPair → Reply User → SessionStore → SessionStore × Bool
unfolding start load_profile
sign_in (Reply.answer tokens) profile s = (load_profile profile (start tokens none s), false)
sign_in Reply.unauthorized profile s = (s, true)
sign_in Reply.failed profile s = (s, true)

unfoldable pub login : Answers → SessionStore → SessionStore × Bool
unfolding sign_in
login a s = sign_in a.tokens a.profile s

unfoldable pub complete_oauth : Answers → SessionStore → SessionStore × Bool
unfolding sign_in
complete_oauth a s = sign_in a.tokens a.profile s

-- whether the account must be confirmed first, unless the flow threw
unfoldable pub register : Reply Bool → Answers → SessionStore → SessionStore × Option Bool
unfolding login
register (Reply.answer true) a s = (s, some true)
register (Reply.answer false) a s =
    let (after, threw) = login a s in (after, if threw then none else some false)
register Reply.unauthorized a s = (s, none)
register Reply.failed a s = (s, none)

-- The session is cleared whatever the service says; whether it was asked.
unfoldable pub logout : SessionStore → SessionStore × Bool
unfolding clear has_stored_session is_authenticated
logout s = (clear s, has_stored_session s || is_authenticated s)

unfoldable pub restored : Reply TokenPair → Reply User → SessionStore → SessionStore
unfolding renew clear mark_anonymous load_profile
restored (Reply.answer tokens) profile s = load_profile profile (renew tokens s)
restored Reply.unauthorized profile s = clear s
restored Reply.failed profile s = mark_anonymous s

unfoldable pub restore : Answers → SessionStore → SessionStore
unfolding restored mark_anonymous has_stored_session refresh_session
restore a s =
    if has_stored_session s then restored (refresh_session a) a.profile s else mark_anonymous s

-- What a guard decides.
pub data Verdict : Type 0 where
  activate : Verdict
  to_login : String → Verdict
  to_home : Verdict

unfoldable pub auth_guard : SessionStore → String → Verdict
unfolding is_authenticated
auth_guard s url = if is_authenticated s then Verdict.activate else Verdict.to_login url

unfoldable pub admin_guard : SessionStore → String → Verdict
unfolding is_authenticated is_admin
admin_guard s url =
    if is_authenticated s
    then if is_admin s then Verdict.activate else Verdict.to_home
    else Verdict.to_login url

unfoldable pub editor_guard : SessionStore → String → Verdict
unfolding is_authenticated is_editor
editor_guard s url =
    if is_authenticated s
    then if is_editor s then Verdict.activate else Verdict.to_home
    else Verdict.to_login url
