-- ===== src/Auth/Interceptor.antt =====
-- The interceptor of core/auth/auth-interceptor.ts: requests that run at the same time, and the one
-- refresh that they share. What happens is a list of events, in the order in which it happens.
use scoutpulse.Base.{
  ℕ, suc, String, Bool, true, false, Option, none, some, List, [], ◌∷◌, ◌++◌, map, get_elem?,
  modify, any, if◌then◌else◌,
}
use scoutpulse.Auth.Session.{SessionStore, TokenPair, renew, clear, has_stored_session}
use scoutpulse.Auth.Facade.{Reply}

-- How a request ended.
pub data Outcome : Type 0 where
  succeeded : Outcome
  refused : Outcome
  broken : Outcome

-- Where a request is: sent, with the token it carries; sent by the authentication itself; waiting for
-- the refresh; sent again with a new token; ended.
pub data Phase : Type 0 where
  sent : Option String → Phase
  bare : Phase
  waiting : Phase
  resent : String → Phase
  ended : Outcome → Phase

-- `sends` counts how often the request has gone out.
pub record Request : Type 0 where
  pub phase : Phase
  pub skips : Bool
  pub sends : ℕ

-- `in_flight` is that `inFlightRefresh` is set; the refreshes started and settled are counted.
pub record Net : Type 0 where
  pub session : SessionStore
  pub in_flight : Bool
  pub requests : List Request
  pub started : ℕ
  pub settled : ℕ

abbrev pub new_net : SessionStore → Net
new_net session = record {
  session = session;
  in_flight = false;
  requests = [];
  started = 0;
  settled = 0;
}

-- A request goes out, with `SKIP_AUTH` or without; one is answered; the refresh is.
pub data NetEvent : Type 0 where
  send : Bool → NetEvent
  reply : ℕ → Reply Unit → NetEvent
  refreshed : Reply TokenPair → NetEvent

abbrev first_send : Bool → Option String → Request
first_send true token = record { phase = Phase.bare; skips = true; sends = 1 }
first_send false token = record { phase = Phase.sent token; skips = false; sends = 1 }

unfoldable pub send_request : Bool → Net → Net
send_request skips m = record m {
  requests = m.requests ++ first_send skips m.session.access_token ∷ [];
}

abbrev pub with_phase : Phase → Request → Request
with_phase phase r = record r { phase = phase }

abbrev pub outcome : Reply Unit → Outcome
outcome (Reply.answer x) = Outcome.succeeded
outcome Reply.unauthorized = Outcome.refused
outcome Reply.failed = Outcome.broken

abbrev set_phase : ℕ → Phase → Net → Net
set_phase i phase m = record m { requests = modify (with_phase phase) i m.requests }

-- the first `catchError`: without a session to restore it ends, otherwise the request waits for the
-- refresh, which it starts if none runs
unfoldable pub refuse_first : ℕ → Net → Net
refuse_first i m =
    if has_stored_session m.session
    then record (set_phase i Phase.waiting m) {
      in_flight = true;
      started = if m.in_flight then m.started else suc m.started;
    }
    else record (set_phase i (Phase.ended Outcome.refused) m) { session = clear m.session }

unfoldable pub answer_first : ℕ → Reply Unit → Net → Net
unfolding refuse_first
answer_first i Reply.unauthorized m = refuse_first i m
answer_first i (Reply.answer x) m = set_phase i (Phase.ended Outcome.succeeded) m
answer_first i Reply.failed m = set_phase i (Phase.ended Outcome.broken) m

-- the second `catchError`, which also catches the request sent again
unfoldable pub answer_second : ℕ → Reply Unit → Net → Net
answer_second i Reply.unauthorized m = record (set_phase i (Phase.ended Outcome.refused) m) {
  session = clear m.session;
}
answer_second i (Reply.answer x) m = set_phase i (Phase.ended Outcome.succeeded) m
answer_second i Reply.failed m = set_phase i (Phase.ended Outcome.broken) m

unfoldable pub answer_in : Phase → ℕ → Reply Unit → Net → Net
unfolding answer_first answer_second
answer_in (Phase.sent token) i r m = answer_first i r m
answer_in Phase.bare i r m = set_phase i (Phase.ended (outcome r)) m
answer_in (Phase.resent token) i r m = answer_second i r m
answer_in Phase.waiting i r m = m
answer_in (Phase.ended o) i r m = m

-- an answer to a request that is out; there is none to any other
unfoldable pub answer_request : Option Request → ℕ → Reply Unit → Net → Net
unfolding answer_in
answer_request none i r m = m
answer_request (some q) i r m = answer_in q.phase i r m

abbrev pub resume_phase : Reply TokenPair → Phase → Request → Request
resume_phase (Reply.answer tokens) Phase.waiting q = record q {
  phase = Phase.resent tokens.access_token;
  sends = suc q.sends;
}
resume_phase Reply.unauthorized Phase.waiting q = record q { phase = Phase.ended Outcome.refused }
resume_phase Reply.failed Phase.waiting q = record q { phase = Phase.ended Outcome.broken }
resume_phase r (Phase.sent token) q = q
resume_phase r Phase.bare q = q
resume_phase r (Phase.resent token) q = q
resume_phase r (Phase.ended o) q = q

-- what a request does when the refresh that it may wait for has settled
abbrev pub resume : Reply TokenPair → Request → Request
resume r q = resume_phase r q.phase q

unfoldable pub session_after : Reply TokenPair → Bool → SessionStore → SessionStore
session_after (Reply.answer tokens) waits s = renew tokens s
session_after Reply.unauthorized waits s = if waits then clear s else s
session_after Reply.failed waits s = s

abbrev pub is_waiting : Request → Bool
is_waiting q = elim q.phase [ Phase.waiting ↦ true | _ ↦ false ]

unfoldable pub settle : Reply TokenPair → Net → Net
unfolding session_after
settle r m =
    if m.in_flight
    then record {
      session = session_after r (any is_waiting m.requests) m.session;
      in_flight = false;
      requests = map (resume r) m.requests;
      started = m.started;
      settled = suc m.settled;
    }
    else m

unfoldable pub happen : NetEvent → Net → Net
unfolding send_request answer_request settle
happen (NetEvent.send skips) m = send_request skips m
happen (NetEvent.reply i r) m = answer_request (get_elem? m.requests i) i r m
happen (NetEvent.refreshed r) m = settle r m

unfoldable pub happen_all : List NetEvent → Net → Net
unfolding happen
happen_all [] m = m
happen_all (e ∷ events) m = happen_all events (happen e m)
