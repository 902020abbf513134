-- ===== src/Api/Error.antt =====
-- A failed request as a value: `ApiError` of core/api/api-error.ts. The body of a response is what of it
-- the code reads.
use scoutpulse.Base.{
  ℕ, ◌≡◌, ◌≢◌, ◌↔◌, inl, inr, refl, ap, ◌∙◌, String, Bool, true, false, Option, none, some, arith,
  or_else, str_eq, ◌==◌, if◌then◌else◌, Bool-cases,
}

pub data ApiErrorCode : Type 0 where
  invalid unauthorized forbidden not_found conflict rate_limited internal network : ApiErrorCode

pub record ApiErrorBody : Type 0 where
  pub error : Option String
  pub code : Option String
  pub request_id : Option String

pub record HttpErrorResponse : Type 0 where
  pub status : ℕ
  pub body : ApiErrorBody

pub record ApiError : Type 0 where
  pub code : ApiErrorCode
  pub message : String
  pub status : ℕ
  pub request_id : Option String

unfoldable pub is_retryable : ApiError → Bool
is_retryable e = elim e.code [
  | ApiErrorCode.network ↦ true
  | ApiErrorCode.internal ↦ true
  | ApiErrorCode.rate_limited ↦ true
  | _ ↦ false
]

unfoldable pub is_user_fixable : ApiError → Bool
is_user_fixable e = elim e.code [
  | ApiErrorCode.invalid ↦ true
  | ApiErrorCode.conflict ↦ true
  | _ ↦ false
]

-- `isApiErrorCode`, with the code; 'network' is none that a body may carry
unfoldable pub named_code : String → Option ApiErrorCode
named_code c =
    if str_eq c "invalid"
    then some ApiErrorCode.invalid
    else if str_eq c "unauthorized"
    then some ApiErrorCode.unauthorized
    else if str_eq c "forbidden"
    then some ApiErrorCode.forbidden
    else if str_eq c "not_found"
    then some ApiErrorCode.not_found
    else if str_eq c "conflict"
    then some ApiErrorCode.conflict
    else if str_eq c "rate_limited"
    then some ApiErrorCode.rate_limited
    else if str_eq c "internal"
    then some ApiErrorCode.internal
    else none

unfoldable pub code_for_status : ℕ → ApiErrorCode
code_for_status status =
    if status == 400
    then ApiErrorCode.invalid
    else if status == 401
    then ApiErrorCode.unauthorized
    else if status == 403
    then ApiErrorCode.forbidden
    else if status == 404
    then ApiErrorCode.not_found
    else if status == 409
    then ApiErrorCode.conflict
    else if status == 429
    then ApiErrorCode.rate_limited
    else ApiErrorCode.internal

unfoldable pub default_message_for : ApiErrorCode → String
default_message_for ApiErrorCode.invalid = "That request was not valid."
default_message_for ApiErrorCode.unauthorized = "Please sign in."
default_message_for ApiErrorCode.forbidden = "You do not have permission to do that."
default_message_for ApiErrorCode.not_found = "Not found."
default_message_for ApiErrorCode.conflict = "That conflicts with something that already exists."
default_message_for ApiErrorCode.rate_limited = "Too many attempts. Wait a moment and try again."
default_message_for ApiErrorCode.network = "Could not reach the server."
default_message_for ApiErrorCode.internal = "Something went wrong. Please try again."

abbrev code_of : Option String → Option ApiErrorCode
code_of none = none
code_of (some c) = unfold named_code in named_code c

unfoldable pub from_http : HttpErrorResponse → ApiError
unfolding code_for_status default_message_for named_code
from_http r =
    if r.status == 0
    then record {
      code = ApiErrorCode.network;
      message = "Could not reach the server. Check your connection.";
      status = 0;
      request_id = none;
    }
    else (let code = or_else (code_of r.body.code) (code_for_status r.status) in
        record {
          code = code;
          message = or_else r.body.error (default_message_for code);
          status = r.status;
          request_id = r.body.request_id;
        })

named_code_not_network : (c : String) → named_code c ≢ some ApiErrorCode.network
unfolding named_code
named_code_not_network c e = ground arith

code_for_status-network : (status : ℕ) → code_for_status status ≢ ApiErrorCode.network
unfolding code_for_status
code_for_status-network status e = ground arith

-- A failed request is a network error just if it never reached a server, whatever the body of the
-- response says.
pub from_http-network :
    (r : HttpErrorResponse) → ((from_http r).code ≡ ApiErrorCode.network) ↔ (r.status ≡ 0)
unfolding from_http
from_http-network r = elim (Bool-cases (r.status == 0)) [
  | inl e ↦ rw e ((λ k. ground arith), (λ k. refl))
  | inr e ↦ rw e ((λ k. absurd (other r.body.code k)), (λ k. absurd (ground arith)))
]
  where
    other :
        (c : Option String) → or_else (code_of c) (code_for_status r.status) ≢ ApiErrorCode.network
    other none k = code_for_status-network r.status k
    other (some c) k = by_name (named_code c) refl k
      where
        by_name :
            (o : Option ApiErrorCode)
            → named_code c ≡ o
            → or_else o (code_for_status r.status) ≢ ApiErrorCode.network
        by_name none e k = code_for_status-network r.status k
        by_name (some code) e k = named_code_not_network c (e ∙ ap some k)
