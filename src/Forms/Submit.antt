-- ===== src/Forms/Submit.antt =====
-- What a form says when a save fails: shared/forms/submit.ts.
use scoutpulse.Base.{String, Option, none, if◌then◌else◌, str_eq}
use scoutpulse.Api.Error.{ApiError, ApiErrorCode}

-- what a `catch` may catch: an ApiError, another Error with its message, or something else
pub data Caught : Type 0 where
  api : ApiError → Caught
  error : String → Caught
  other : Caught

unfoldable pub message_for : String → Caught → String
message_for fallback (Caught.api e) = elim e.code [
  | ApiErrorCode.forbidden ↦
      "You do not have permission to change this. If that is unexpected, sign in again."
  | ApiErrorCode.unauthorized ↦ "Your session has expired. Sign in and try again."
  | _ ↦ if str_eq e.message "" then fallback else e.message
]
message_for fallback (Caught.error message) = message
message_for fallback Caught.other = fallback

unfoldable pub request_id_for : Caught → Option String
request_id_for (Caught.api e) = elim e.code [ ApiErrorCode.internal ↦ e.request_id | _ ↦ none ]
request_id_for (Caught.error message) = none
request_id_for Caught.other = none
