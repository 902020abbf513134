-- ===== src/Auth/Flows.antt =====
-- What the flows of core/auth/auth-facade.ts keep true of the session.
use scoutpulse.Base.{◌≡◌, refl, inl, inr, Bool, true, false, List, [], ◌∷◌, is_some, Bool-cases}
use scoutpulse.Auth.Session.{
  SessionStore, TokenStorage, SessionStatus, TokenPair, User, new_session, start, renew, set_user,
  clear, clear_storage, mark_anonymous, has_session, legacy_token, is_authenticated,
  has_stored_session,
}
use scoutpulse.Auth.Facade.{
  Reply, Answers, refresh_session, load_profile, sign_in, login, complete_oauth, register, logout,
  restored, restore,
}

-- a flow with what the service answers to it
pub data Flow : Type 0 where
  login_flow : Answers → Flow
  oauth_flow : Answers → Flow
  register_flow : Reply Bool → Answers → Flow
  logout_flow : Flow

unfoldable pub run_flow : Flow → SessionStore → SessionStore
unfolding login complete_oauth register logout
run_flow (Flow.login_flow a) s = (login a s).0
run_flow (Flow.oauth_flow a) s = (complete_oauth a s).0
run_flow (Flow.register_flow r a) s = (register r a s).0
run_flow Flow.logout_flow s = (logout s).0

unfoldable pub run_flows : List Flow → SessionStore → SessionStore
unfolding run_flow
run_flows [] s = s
run_flows (f ∷ flows) s = run_flows flows (run_flow f s)

-- Signed in is having a token, and only who is signed in has a profile.
pub record IsSession (s : SessionStore) : Type 0 where
  pub token : is_authenticated s ≡ is_some s.access_token
  pub profile : is_some s.user ≡ true → is_authenticated s ≡ true

clear-IsSession : (s : SessionStore) → IsSession (clear s)
unfolding clear is_authenticated
clear-IsSession s = record { token = refl; profile = λ e. cc }

load_profile-IsSession :
    (r : Reply User) (s : SessionStore)
    → is_authenticated s ≡ true
    → IsSession s
    → IsSession (load_profile r s)
unfolding load_profile set_user is_authenticated
load_profile-IsSession (Reply.answer u) s a h = record { token = h.token; profile = λ e. a }
load_profile-IsSession Reply.unauthorized s a h = clear-IsSession s
load_profile-IsSession Reply.failed s a h = h

renew-IsSession : (tokens : TokenPair) (s : SessionStore) → IsSession (renew tokens s)
unfolding renew is_authenticated
renew-IsSession tokens s = record { token = refl; profile = λ e. refl }

renewed : (tokens : TokenPair) (s : SessionStore) → is_authenticated (renew tokens s) ≡ true
unfolding renew is_authenticated
renewed tokens s = refl

sign_in-IsSession :
    (tokens : Reply TokenPair) (profile : Reply User) (s : SessionStore)
    → IsSession s
    → IsSession (sign_in tokens profile s).0
unfolding sign_in start
sign_in-IsSession (Reply.answer tokens) profile s h =
    load_profile-IsSession profile (renew tokens s) (renewed tokens s) (renew-IsSession tokens s)
sign_in-IsSession Reply.unauthorized profile s h = h
sign_in-IsSession Reply.failed profile s h = h

register-IsSession :
    (r : Reply Bool) (a : Answers) (s : SessionStore) → IsSession s → IsSession (register r a s).0
unfolding register login
register-IsSession (Reply.answer true) a s h = h
register-IsSession (Reply.answer false) a s h = sign_in-IsSession a.tokens a.profile s h
register-IsSession Reply.unauthorized a s h = h
register-IsSession Reply.failed a s h = h

run_flows-IsSession :
    (flows : List Flow) (s : SessionStore) → IsSession s → IsSession (run_flows flows s)
unfolding run_flows run_flow login complete_oauth logout
run_flows-IsSession [] s h = h
run_flows-IsSession (Flow.login_flow a ∷ flows) s h =
    run_flows-IsSession flows _ (sign_in-IsSession a.tokens a.profile s h)
run_flows-IsSession (Flow.oauth_flow a ∷ flows) s h =
    run_flows-IsSession flows _ (sign_in-IsSession a.tokens a.profile s h)
run_flows-IsSession (Flow.register_flow r a ∷ flows) s h =
    run_flows-IsSession flows _ (register-IsSession r a s h)
run_flows-IsSession (Flow.logout_flow ∷ flows) s h = run_flows-IsSession flows _ (clear-IsSession s)

restored-IsSession :
    (r : Reply TokenPair) (profile : Reply User) (t : TokenStorage)
    → IsSession (restored r profile (new_session t))
unfolding restored mark_anonymous is_authenticated
restored-IsSession (Reply.answer tokens) profile t =
    load_profile-IsSession profile (renew tokens (new_session t)) (renewed tokens (new_session t))
      (renew-IsSession tokens (new_session t))
restored-IsSession Reply.unauthorized profile t = clear-IsSession (new_session t)
restored-IsSession Reply.failed profile t = record { token = refl; profile = λ e. cc }

restore-IsSession : (a : Answers) (t : TokenStorage) → IsSession (restore a (new_session t))
unfolding restore mark_anonymous is_authenticated
restore-IsSession a t = elim (Bool-cases (has_stored_session (new_session t))) [
  | inl e ↦ rw e (restored-IsSession (refresh_session a) a.profile t)
  | inr e ↦ rw e (record { token = refl; profile = λ k. cc })
]

-- From the load of a page on, through restoring and any flows that follow one another, whatever the
-- service answers: to be signed in is to have an access token, and there is a profile only of
-- someone signed in.
pub run_flows-restore-IsSession :
    (a : Answers) (t : TokenStorage) (flows : List Flow)
    → IsSession (run_flows flows (restore a (new_session t)))
run_flows-restore-IsSession a t flows =
    run_flows-IsSession flows (restore a (new_session t)) (restore-IsSession a t)

no_session : (t : TokenStorage) → has_session (clear_storage t) ≡ false
unfolding has_session legacy_token clear_storage
no_session t = elim (Bool-cases t.works) [ inl e ↦ rw e refl | inr e ↦ rw e refl ]

-- After a sign-out, the next load of the page finds nobody signed in and no token, and does so
-- without asking the service.
pub restore-logout :
    (a : Answers) (s : SessionStore)
    → restore a (new_session (logout s).0.storage)
      ≡ record (new_session (clear_storage s.storage)) { status = SessionStatus.anonymous }
unfolding restore logout clear has_stored_session mark_anonymous
restore-logout a s = rw (no_session s.storage) refl

-- Where there may be a session, a restore that fails otherwise than by a refusal leaves the page
-- signed out but keeps the session in the storage, so that the next load tries again.
pub restore-retry :
    (a : Answers) (t : TokenStorage)
    → has_session t ≡ true
    → refresh_session a ≡ Reply.failed
    → (is_authenticated (restore a (new_session t)) ≡ false)
      × (has_stored_session (restore a (new_session t)) ≡ true)
unfolding restore restored has_stored_session mark_anonymous is_authenticated
restore-retry a t h e = rw (h, e) (refl, h)
