-- ===== src/Http/Request/Form.antt =====
-- `Request::consume_form_body` of library/http/http_request.cpp. `from_json_string` is that of
-- library/http/json_helper.
use ccnet_utilities.Common.{none, some, if◌then◌else◌, Bytes, codes, text}
use ccnet_utilities.Http.Exceptions.{Result, ok, ◌>>=◌, throw, failed_parse_form}
use ccnet_utilities.Http.Headers
use ccnet_utilities.Http.QueryMap.{QueryMap}
use ccnet_utilities.Http.Request.Multipart.{parse_multipart_formdata}
use ccnet_utilities.Http.Request.Query.{filled_params_query}
use ccnet_utilities.Http.Request.{Request}
use ccnet_utilities.Utils.Compare.{content_type_contains}

unfoldable pub consume_typed : (Bytes → Result QueryMap) → Bytes → Bytes → Request → Result Request
consume_typed from_json_string ct_value form_body req =
    if content_type_contains ct_value (codes "application/x-www-form-urlencoded")
    then (filled_params_query form_body >>= λ m. ok (record req { from_form = m }))
    else if content_type_contains ct_value (codes "multipart/form-data")
    then (elim (parse_multipart_formdata form_body ct_value) [
      | none ↦
          throw failed_parse_form
            (text "Failed to parse forms, these might be failed to find boundary key...")
      | some m ↦ ok (record req { from_form = m })
    ])
    else if content_type_contains ct_value (codes "application/json")
    then (from_json_string form_body >>= λ m. ok (record req { from_form = m }))
    else ok req

unfoldable pub consume_form_body : (Bytes → Result QueryMap) → Bytes → Request → Result Request
consume_form_body from_json_string form_body req =
    elim (Headers.get req.headers (codes "content-type")) [
      | none ↦ ok req
      | some ct_value ↦ consume_typed from_json_string ct_value form_body req
    ]
