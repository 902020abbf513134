-- ===== src/Auth/Session.antt =====
-- Who is signed in: `TokenStorage` of core/auth/token-storage.ts, `SessionStore` of
-- core/auth/session-store.ts, and the roles of core/models/identity.ts. Reading the claims out of a
-- token is left out.
use scoutpulse.Base.{
  ℕ, String, Bool, true, false, ◌&&◌, ◌||◌, Option, none, some, is_some, str_eq, if◌then◌else◌,
}

pub data Role : Type 0 where
  admin editor user : Role

pub record User : Type 0 where
  pub id : String
  pub username : String
  pub email : String
  pub role : Role
  pub created_at : String

pub record TokenPair : Type 0 where
  pub access_token : String
  pub refresh_token : Option String
  pub expires_in : ℕ

pub data SessionStatus : Type 0 where
  unknown anonymous authenticated : SessionStatus

-- `works` is that a browser runs the code and lets it reach the local storage.
pub record TokenStorage : Type 0 where
  pub works : Bool
  pub signed_in : Option String
  pub legacy : Option String

unfoldable pub legacy_token : TokenStorage → Option String
legacy_token t = if t.works then t.legacy else none

abbrev is_one : Option String → Bool
is_one none = false
is_one (some v) = str_eq v "1"

unfoldable pub has_session : TokenStorage → Bool
unfolding legacy_token
has_session t = (t.works && is_one t.signed_in) || is_some (legacy_token t)

unfoldable pub mark_signed_in : TokenStorage → TokenStorage
mark_signed_in t = if t.works then record t { signed_in = some "1"; legacy = none } else t

unfoldable pub clear_storage : TokenStorage → TokenStorage
clear_storage t = if t.works then record t { signed_in = none; legacy = none } else t

pub record SessionStore : Type 0 where
  pub storage : TokenStorage
  pub access_token : Option String
  pub user : Option User
  pub status : SessionStatus

abbrev pub new_session : TokenStorage → SessionStore
new_session storage = record {
  storage = storage;
  access_token = none;
  user = none;
  status = SessionStatus.unknown;
}

abbrev is_status : SessionStatus → Bool
is_status SessionStatus.authenticated = true
is_status _ = false

unfoldable pub is_authenticated : SessionStore → Bool
is_authenticated s = is_status s.status

abbrev admin_role : Option User → Bool
admin_role none = false
admin_role (some u) = elim u.role [ Role.admin ↦ true | _ ↦ false ]

abbrev editor_role : Option User → Bool
editor_role none = false
editor_role (some u) = elim u.role [ Role.user ↦ false | _ ↦ true ]

unfoldable pub is_admin : SessionStore → Bool
is_admin s = admin_role s.user

-- An administrator can do everything an editor can.
unfoldable pub is_editor : SessionStore → Bool
is_editor s = editor_role s.user

unfoldable pub has_stored_session : SessionStore → Bool
unfolding has_session
has_stored_session s = has_session s.storage

unfoldable pub renew : TokenPair → SessionStore → SessionStore
unfolding mark_signed_in
renew tokens s = record s {
  access_token = some tokens.access_token;
  storage = mark_signed_in s.storage;
  status = SessionStatus.authenticated;
}

unfoldable pub start : TokenPair → Option User → SessionStore → SessionStore
unfolding renew
start tokens none s = renew tokens s
start tokens (some u) s = record (renew tokens s) { user = some u }

unfoldable pub set_user : User → SessionStore → SessionStore
set_user u s = record s { user = some u }

unfoldable pub clear : SessionStore → SessionStore
unfolding clear_storage
clear s = record {
  access_token = none;
  user = none;
  storage = clear_storage s.storage;
  status = SessionStatus.anonymous;
}

unfoldable pub mark_anonymous : SessionStore → SessionStore
mark_anonymous s = record s { status = SessionStatus.anonymous }
