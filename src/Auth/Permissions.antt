-- ===== src/Auth/Permissions.antt =====
-- What the signed-in user may write: the class `Permissions` of core/auth/permissions.ts. The requests
-- for a user's clubs are answered in any order.
use scoutpulse.Base.{
  ◌≡◌, refl, String, Bool, true, false, not, ◌||◌, Option, none, some, List, [], arith, any, str_eq,
  if◌then◌else◌,
}
use scoutpulse.Auth.Session.{Role, User, SessionStore, is_admin, is_editor, set_user, clear}

-- The user that the effect saw last is that of the session.
pub record Permissions : Type 0 where
  pub session : SessionStore
  pub grants : List String
  pub loaded : Bool

unfoldable pub ready : Permissions → Bool
unfolding is_admin
ready p = is_admin p.session || p.loaded

-- The effect on the session's user, and the user whose clubs are then asked for.
unfoldable pub follow_user : Option User → Permissions → Permissions × Option String
follow_user none p = (record p { grants = []; loaded = false }, none)
follow_user (some u) p = elim u.role [
  | Role.admin ↦ (record p { loaded = true }, none)
  | Role.editor ↦ (p, some u.id)
  | Role.user ↦ (p, some u.id)
]

unfoldable pub sign_in_as : User → Permissions → Permissions × Option String
unfolding set_user follow_user
sign_in_as u p = follow_user (some u) (record p { session = set_user u p.session })

unfoldable pub sign_out : Permissions → Permissions
unfolding clear follow_user
sign_out p = (follow_user none (record p { session = clear p.session })).0

-- the end of `load`: the clubs that the service lists, `none` for a failure
unfoldable pub receive_grants : Option (List String) → Permissions → Permissions
receive_grants none p = record p { grants = []; loaded = true }
receive_grants (some ids) p = record p { grants = ids; loaded = true }

abbrev pub grants_club : List String → Option String → Bool
grants_club grants none = false
grants_club grants (some id) = if str_eq id "" then false else any (str_eq id) grants

unfoldable pub can_edit_team : Option String → Permissions → Bool
unfolding is_admin is_editor
can_edit_team team p =
    if is_admin p.session
    then true
    else if not (is_editor p.session)
    then false
    else grants_club p.grants team

unfoldable pub can_move_between : Option String → Option String → Permissions → Bool
unfolding is_admin is_editor
can_move_between origin target p =
    if is_admin p.session
    then true
    else if not (is_editor p.session)
    then false
    else grants_club p.grants origin || grants_club p.grants target

-- the player's club is the argument
unfoldable pub can_edit_player : Option String → Permissions → Bool
unfolding can_edit_team
can_edit_player team p = can_edit_team team p

unfoldable pub can_administer : Permissions → Bool
unfolding is_admin
can_administer p = is_admin p.session

-- A transfer may be filed just by who may edit one of its two ends.
pub can_move_between-can_edit_team :
    (origin target : Option String) (p : Permissions)
    → can_move_between origin target p ≡ (can_edit_team origin p || can_edit_team target p)
unfolding can_move_between can_edit_team
can_move_between-can_edit_team origin target p = ground arith

-- What belongs to no club is for administrators only.
pub can_edit_team-can_administer :
    (p : Permissions)
    → (can_edit_team none p ≡ can_administer p) × (can_move_between none none p ≡ can_administer p)
unfolding can_edit_team can_move_between can_administer
can_edit_team-can_administer p = (ground arith, ground arith)

-- A reply for an earlier user that comes late gives that user's clubs to whoever is signed in now:
-- an editor who signed in meanwhile, and whose own clubs have come, may then edit each of them.
pub late_grants :
    (earlier later : User) (p : Permissions) (ids own : List String) (club : String)
    → later.role ≡ Role.editor
    → str_eq club "" ≡ false
    → any (str_eq club) ids ≡ true
    → can_edit_team (some club) (
        receive_grants
          (some ids)
          (receive_grants (some own) (sign_in_as later (sign_out (sign_in_as earlier p).0)).0))
      ≡ true
unfolding can_edit_team receive_grants sign_in_as sign_out set_user clear follow_user is_admin
    is_editor
late_grants earlier later p ids own club e f g = rw e (rw (f, g) refl)
