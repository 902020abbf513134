-- ===== src/Auth/OneRefresh.antt =====
-- How requests that interleave share a refresh in core/auth/auth-interceptor.ts.
use scoutpulse.Base.{
  ℕ, zero, suc, ◌+◌, ◌≤◌, ◌≡◌, inl, inr, refl, String, Bool, true, false, Option, some, List, [],
  ◌∷◌, map, arith, get_elem?, modify, All, All-append, if◌then◌else◌, Bool-cases, Option-cases,
}
use mathlib.Core.Option.{some-injective}
use scoutpulse.Auth.Session.{SessionStore, TokenPair, clear, has_stored_session}
use scoutpulse.Auth.Facade.{Reply}
use scoutpulse.Auth.Interceptor.{
  Outcome, Phase, Request, Net, new_net, NetEvent, send_request, with_phase, outcome, refuse_first,
  answer_first, answer_second, answer_in, answer_request, resume_phase, resume, settle, happen,
  happen_all,
}

-- How often a request may have gone out where it is, and who may wait.
abbrev pub InStep : Bool → Phase → Bool → ℕ → Type 0
InStep flying (Phase.sent token) skips sends = (sends ≡ 1) × (skips ≡ false)
InStep flying Phase.bare skips sends = (sends ≡ 1) × (skips ≡ true)
InStep flying Phase.waiting skips sends = (sends ≡ 1) × (skips ≡ false) × (flying ≡ true)
InStep flying (Phase.resent token) skips sends = (sends ≡ 2) × (skips ≡ false)
InStep flying (Phase.ended o) skips sends = (sends ≤ 2) × (skips ≡ true → sends ≡ 1)

abbrev pub IsInStep : Bool → Request → Type 0
IsInStep flying q = InStep flying q.phase q.skips q.sends

-- All requests are where their number of sends allows, a request waits only while a refresh runs, and
-- no refresh starts while one runs.
pub record IsShared (m : Net) : Type 0 where
  pub requests : All (IsInStep m.in_flight) m.requests
  pub single : m.started ≡ m.settled + (if m.in_flight then 1 else 0)

All-imp :
    {A : Type 0} (P Q : A → Type 0) (xs : List A) → ((y : A) → P y → Q y) → All P xs → All Q xs
All-imp P Q [] l h = tt
All-imp P Q (x ∷ xs) l (h, k) = (l x h, All-imp P Q xs l k)

All-modify :
    {A : Type 0} (P Q : A → Type 0) (f : A → A) (i : ℕ) (xs : List A) (x : A)
    → get_elem? xs i ≡ some x
    → (P x → Q (f x))
    → ((y : A) → P y → Q y)
    → All P xs
    → All Q (modify f i xs)
All-modify P Q f i [] x e h l k = tt
All-modify P Q f zero (y ∷ xs) x e h l (p, k) =
    let same : y ≡ x = some-injective _ _ e in
    (rw (← same) at (h (rw same at p)), All-imp P Q xs l k)
All-modify P Q f (suc i) (y ∷ xs) x e h l (p, k) = (l y p, All-modify P Q f i xs x e h l k)

grow : (flying : Bool) (q : Request) → IsInStep flying q → IsInStep true q
grow flying q h = by_phase q.phase h
  where
    by_phase : (p : Phase) → InStep flying p q.skips q.sends → InStep true p q.skips q.sends
    by_phase (Phase.sent token) h = h
    by_phase Phase.bare h = h
    by_phase Phase.waiting (a, b, c) = (a, b, refl)
    by_phase (Phase.resent token) h = h
    by_phase (Phase.ended o) h = h

module _ (i : ℕ) (q : Request) (m : Net) (found : get_elem? m.requests i ≡ some q)
    (h : IsShared m) where
  -- the request goes on to a phase that suits it
  step-IsShared :
      (phase : Phase) (session : SessionStore)
      → (IsInStep m.in_flight q → InStep m.in_flight phase q.skips q.sends)
      → IsShared (record m { requests = modify (with_phase phase) i m.requests; session = session })
  step-IsShared phase session k = record {
    requests = All-modify _ _ (with_phase phase) i m.requests q found k (λ y p. p) h.requests;
    single = h.single;
  }

  wait-IsShared : (token : Option String) → q.phase ≡ Phase.sent token → IsShared (refuse_first i m)
  unfolding refuse_first
  wait-IsShared token e = elim (Bool-cases (has_stored_session m.session)) [
    | inl stored ↦ rw stored (record {
      requests =
          All-modify _ _ (with_phase Phase.waiting) i m.requests q found
            (λ k. let (a, b) = rw e at k in (a, b, refl)) (λ y. grow m.in_flight y) h.requests;
      single = ground (arith, h.single);
    })
    | inr gone ↦ rw gone (
        step-IsShared (Phase.ended Outcome.refused) (clear m.session)
          (λ k. let (a, b) = rw e at k in (omega arith, λ c. a)))
  ]

  answer_in-IsShared : (p : Phase) (r : Reply Unit) → q.phase ≡ p → IsShared (answer_in p i r m)
  unfolding answer_in answer_first answer_second
  answer_in-IsShared (Phase.sent token) Reply.unauthorized e = wait-IsShared token e
  answer_in-IsShared (Phase.sent token) (Reply.answer x) e =
      step-IsShared (Phase.ended Outcome.succeeded) m.session
        (λ k. let (a, b) = rw e at k in (omega arith, λ c. a))
  answer_in-IsShared (Phase.sent token) Reply.failed e =
      step-IsShared (Phase.ended Outcome.broken) m.session
        (λ k. let (a, b) = rw e at k in (omega arith, λ c. a))
  answer_in-IsShared Phase.bare r e =
      step-IsShared (Phase.ended (outcome r)) m.session
        (λ k. let (a, b) = rw e at k in (omega arith, λ c. a))
  answer_in-IsShared (Phase.resent token) Reply.unauthorized e =
      step-IsShared (Phase.ended Outcome.refused) (clear m.session)
        (λ k. let (a, b) = rw e at k in (omega arith, λ c. cc))
  answer_in-IsShared (Phase.resent token) (Reply.answer x) e =
      step-IsShared (Phase.ended Outcome.succeeded) m.session
        (λ k. let (a, b) = rw e at k in (omega arith, λ c. cc))
  answer_in-IsShared (Phase.resent token) Reply.failed e =
      step-IsShared (Phase.ended Outcome.broken) m.session
        (λ k. let (a, b) = rw e at k in (omega arith, λ c. cc))
  answer_in-IsShared Phase.waiting r e = h
  answer_in-IsShared (Phase.ended o) r e = h

resume-IsInStep :
    (r : Reply TokenPair) (flying : Bool) (q : Request)
    → IsInStep flying q
    → IsInStep false (resume r q)
resume-IsInStep r flying q h = by_phase r q.phase refl h
  where
    by_phase :
        (r : Reply TokenPair) (p : Phase)
        → q.phase ≡ p
        → InStep flying p q.skips q.sends
        → IsInStep false (resume_phase r p q)
    by_phase (Reply.answer tokens) Phase.waiting e (a, b, c) = (omega arith, b)
    by_phase Reply.unauthorized Phase.waiting e (a, b, c) = (omega arith, λ d. a)
    by_phase Reply.failed Phase.waiting e (a, b, c) = (omega arith, λ d. a)
    by_phase r (Phase.sent token) e h = rw e h
    by_phase r Phase.bare e h = rw e h
    by_phase r (Phase.resent token) e h = rw e h
    by_phase r (Phase.ended o) e h = rw e h

All-resume :
    (r : Reply TokenPair) (flying : Bool) (l : List Request)
    → All (IsInStep flying) l
    → All (IsInStep false) (map (resume r) l)
All-resume r flying [] h = tt
All-resume r flying (q ∷ l) (h, k) = (resume-IsInStep r flying q h, All-resume r flying l k)

settle-IsShared : (r : Reply TokenPair) (m : Net) → IsShared m → IsShared (settle r m)
unfolding settle
settle-IsShared r m h = elim (Bool-cases m.in_flight) [
  | inl e ↦ rw e (record {
    requests = All-resume r m.in_flight m.requests h.requests;
    single = ground (arith, h.single, e);
  })
  | inr e ↦ rw e (rw e at h)
]

send-IsShared : (skips : Bool) (m : Net) → IsShared m → IsShared (send_request skips m)
unfolding send_request
send-IsShared true m h = record {
  requests = All-append _ m.requests _ h.requests ((refl, refl), tt);
  single = h.single;
}
send-IsShared false m h = record {
  requests = All-append _ m.requests _ h.requests ((refl, refl), tt);
  single = h.single;
}

happen-IsShared : (e : NetEvent) (m : Net) → IsShared m → IsShared (happen e m)
unfolding happen answer_request
happen-IsShared (NetEvent.send skips) m h = send-IsShared skips m h
happen-IsShared (NetEvent.reply i r) m h = elim (Option-cases (get_elem? m.requests i)) [
  | inl e ↦ rw e h
  | inr (q, e) ↦ rw e (answer_in-IsShared i q m e h q.phase r refl)
]
happen-IsShared (NetEvent.refreshed r) m h = settle-IsShared r m h

happen_all-keeps : (events : List NetEvent) (m : Net) → IsShared m → IsShared (happen_all events m)
unfolding happen_all
happen_all-keeps [] m h = h
happen_all-keeps (e ∷ events) m h = happen_all-keeps events (happen e m) (happen-IsShared e m h)

-- However requests, answers and refreshes interleave: no refresh starts while one runs; no request
-- goes out more than twice, and one of the authentication itself once; and a request waits only
-- while a refresh runs, so that none is left waiting.
pub happen_all-IsShared :
    (session : SessionStore) (events : List NetEvent)
    → IsShared (happen_all events (new_net session))
happen_all-IsShared session events =
    happen_all-keeps events (new_net session) (record { requests = tt; single = refl })
