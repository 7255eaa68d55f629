-- ===== src/Http/Status.antt =====
-- library/http/http_status_code.h and http_status_code.cpp. Values outside the enumeration, which
-- only a cast makes, are left out.
use ccnet_utilities.Common.{ℕ, Bytes, codes}

pub data HttpStatus : Type 0 where
  ok created no_content : HttpStatus
  bad_request unauthorized forbidden not_found method_not_allowed request_timeout : HttpStatus
  length_required payload_too_large uri_too_long unsupported_media_type : HttpStatus
  too_many_requests : HttpStatus
  internal_server_error not_implemented bad_gateway service_unavailable : HttpStatus
  gateway_timeout : HttpStatus

-- `static_cast<int>(status)`.
unfoldable pub to_int : HttpStatus → ℕ
to_int ok = 200
to_int created = 201
to_int no_content = 204
to_int bad_request = 400
to_int unauthorized = 401
to_int forbidden = 403
to_int not_found = 404
to_int method_not_allowed = 405
to_int request_timeout = 408
to_int length_required = 411
to_int payload_too_large = 413
to_int uri_too_long = 414
to_int unsupported_media_type = 415
to_int too_many_requests = 429
to_int internal_server_error = 500
to_int not_implemented = 501
to_int bad_gateway = 502
to_int service_unavailable = 503
to_int gateway_timeout = 504

unfoldable pub reason_phrase : HttpStatus → Bytes
reason_phrase ok = codes "OK"
reason_phrase created = codes "Created"
reason_phrase no_content = codes "No Content"
reason_phrase bad_request = codes "Bad Request"
reason_phrase unauthorized = codes "Unauthorized"
reason_phrase forbidden = codes "Forbidden"
reason_phrase not_found = codes "Not Found"
reason_phrase method_not_allowed = codes "Method Not Allowed"
reason_phrase request_timeout = codes "Request Timeout"
reason_phrase length_required = codes "Length Required"
reason_phrase payload_too_large = codes "Payload Too Large"
reason_phrase uri_too_long = codes "URI Too Long"
reason_phrase unsupported_media_type = codes "Unsupported Media Type"
reason_phrase too_many_requests = codes "Too Many Requests"
reason_phrase internal_server_error = codes "Internal Server Error"
reason_phrase not_implemented = codes "Not Implemented"
reason_phrase bad_gateway = codes "Bad Gateway"
reason_phrase service_unavailable = codes "Service Unavailable"
reason_phrase gateway_timeout = codes "Gateway Timeout"
