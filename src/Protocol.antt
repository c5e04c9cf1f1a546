-- ===== src/Protocol.antt =====
-- crates/cbr-provider/src/errors.rs: the protocol errors, their retry classes and their objects.
use cbr.Prelude.{List, Text, codes, text_eq, if◌then◌else◌, ℤ, pos, negsuc}
use cbr.Encoding.Value.{Value, int, string, array, object, Fields, no_fields, field}
use cbr.Encoding.Access.{with_text, push_member, strings}

pub data Retry : Type 0 where
  no_retry same_command after_reconcile after_renegotiate : Retry

-- `Retry::wire`
abbrev pub wire : Retry → Text
wire no_retry = codes "no"
wire same_command = codes "same_command"
wire after_reconcile = codes "after_reconcile"
wire after_renegotiate = codes "after_renegotiate"

pub record ProtocolError : Type 0 where
  pub code : Text
  pub retry : Retry
  pub details : Fields

-- `ProtocolError::new` and `ProtocolError::with`
abbrev pub new_error : Text → Retry → ProtocolError
new_error code retry = record { code = code; retry = retry; details = no_fields }

abbrev pub with_detail : ProtocolError → Text → Value → ProtocolError
with_detail e name value = record e { details = push_member e.details name value }

abbrev pub invalid_envelope : Text → Text → ProtocolError
invalid_envelope path reason =
    with_detail
      (with_detail (new_error (codes "invalid_envelope") no_retry) (codes "path") (string path))
      (codes "reason") (string reason)

abbrev pub method_not_found : Text → ProtocolError
method_not_found operation =
    with_detail (new_error (codes "method_not_found") no_retry) (codes "operation")
      (string operation)

abbrev pub negotiation_required : ProtocolError
negotiation_required = new_error (codes "negotiation_required") after_renegotiate

abbrev pub already_negotiated : ProtocolError
already_negotiated = new_error (codes "already_negotiated") no_retry

abbrev pub profile_not_negotiated : Text → ProtocolError
profile_not_negotiated profile =
    with_detail (new_error (codes "profile_not_negotiated") after_renegotiate) (codes "profile")
      (string profile)

abbrev pub unsupported_profile : Value → ProtocolError
unsupported_profile unsatisfied =
    with_detail (new_error (codes "unsupported_profile") no_retry) (codes "unsatisfied") unsatisfied

abbrev pub unsupported_version : Value → ProtocolError
unsupported_version unsatisfied =
    with_detail (new_error (codes "unsupported_version") no_retry) (codes "unsatisfied") unsatisfied

abbrev pub unsupported_required_feature_negotiation : Value → ProtocolError
unsupported_required_feature_negotiation unsatisfied =
    with_detail (new_error (codes "unsupported_required_feature") no_retry) (codes "unsatisfied")
      unsatisfied

abbrev pub unsupported_required_feature_message : Value → ProtocolError
unsupported_required_feature_message features =
    with_detail (new_error (codes "unsupported_required_feature") no_retry) (codes "features")
      features

abbrev pub limit_exceeded : Text → ℤ → ProtocolError
limit_exceeded limit maximum =
    with_detail
      (with_detail (new_error (codes "limit_exceeded") no_retry) (codes "limit") (string limit))
      (codes "maximum") (int maximum)

abbrev pub unsupported_digest_algorithm : Text → List Text → ProtocolError
unsupported_digest_algorithm algorithm supported =
    with_detail
      (with_detail (new_error (codes "unsupported_digest_algorithm") no_retry) (codes "algorithm")
        (string algorithm))
      (codes "supported") (array (strings supported))

abbrev pub digest_mismatch : Text → ProtocolError
digest_mismatch expected =
    with_detail (new_error (codes "digest_mismatch") no_retry) (codes "expected") (string expected)

abbrev pub idempotency_conflict : Text → ProtocolError
idempotency_conflict command_id =
    with_detail (new_error (codes "idempotency_conflict") no_retry) (codes "command_id")
      (string command_id)

abbrev pub dedupe_history_unavailable : ℤ → ProtocolError
dedupe_history_unavailable oldest_retained =
    with_detail (new_error (codes "dedupe_history_unavailable") after_reconcile)
      (codes "oldest_retained") (int oldest_retained)

abbrev pub precondition_failed : Value → ProtocolError
precondition_failed failed =
    with_detail (new_error (codes "precondition_failed") after_reconcile) (codes "failed") failed

abbrev pub already_authenticated : ProtocolError
already_authenticated = new_error (codes "already_authenticated") no_retry

abbrev pub unavailable : ProtocolError
unavailable = new_error (codes "unavailable") same_command

abbrev pub capability_unavailable : Text → Text → ProtocolError
capability_unavailable capability status =
    with_detail
      (with_detail (new_error (codes "capability_unavailable") after_reconcile) (codes "capability")
        (string capability))
      (codes "status") (string status)

abbrev pub authentication_required : ProtocolError
authentication_required = new_error (codes "authentication_required") no_retry

abbrev pub authentication_failed : ProtocolError
authentication_failed = new_error (codes "authentication_failed") no_retry

abbrev pub not_found : ProtocolError
not_found = new_error (codes "not_found") no_retry

abbrev pub permission_denied : Text → ProtocolError
permission_denied reason =
    with_detail (new_error (codes "permission_denied") no_retry) (codes "reason") (string reason)

-- `METHOD_NOT_FOUND` is -32601.
abbrev pub jsonrpc_code : ProtocolError → ℤ
jsonrpc_code e = if text_eq e.code (codes "method_not_found") then negsuc 32600 else pos 1

abbrev pub to_data : ProtocolError → Value
to_data e = object (
    with_text (codes "code") e.code (
      with_text (codes "retry") (wire e.retry)
        (field (codes "details") (object e.details) no_fields)))

abbrev pub to_error_object : ProtocolError → Text → Value
to_error_object e message = object (
    field (codes "code") (int (jsonrpc_code e))
      (with_text (codes "message") message (field (codes "data") (to_data e) no_fields)))

pub data FrameFailure : Type 0 where
  frame_too_large invalid_utf8 parse_error : FrameFailure

abbrev pub failure_code : FrameFailure → Text
failure_code frame_too_large = codes "frame_too_large"
failure_code invalid_utf8 = codes "invalid_utf8"
failure_code parse_error = codes "parse_error"

-- `FRAME_TOO_LARGE` is -32010 and `PARSE_ERROR` is -32700.
abbrev pub failure_jsonrpc_code : FrameFailure → ℤ
failure_jsonrpc_code frame_too_large = negsuc 32009
failure_jsonrpc_code invalid_utf8 = negsuc 32699
failure_jsonrpc_code parse_error = negsuc 32699
