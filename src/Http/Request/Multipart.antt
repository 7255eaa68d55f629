-- ===== src/Http/Request/Multipart.antt =====
-- `parse_multipart_formdata` of library/http/http_request.cpp.
use ccnet_utilities.Common.{
  ℕ, zero, suc, ◌+◌, ◌-◌, Bool, true, false, ◌&&◌, Option, none, some, [], ◌++◌, leb, if◌then◌else◌,
  length, take, drop, Bytes, codes, equal, find, substr,
}
use ccnet_utilities.Common.{find_from, find_byte_from}
use ccnet_utilities.Http.QueryMap.{QueryMap, push}

abbrev pub all_seg_terminate : Bytes
all_seg_terminate = codes "\r\n\r\n"

abbrev pub crlf : Bytes
crlf = codes "\r\n"

-- `s.substr(pos)`.
abbrev pub substr_from : Bytes → ℕ → Bytes
substr_from s pos = drop pos s

-- The body of a part without the CRLF at its end, if there is one.
unfoldable pub trim_part_body : Bytes → Bytes
unfolding equal
trim_part_body part_body =
    if leb 2 (length part_body) && equal (substr_from part_body (length part_body - 2)) crlf
    then take (length part_body - 2) part_body
    else part_body

-- The text between the quotes of `name="..."`.
unfoldable pub part_name : Bytes → Option Bytes
part_name part_headers = elim (find part_headers (codes "name=\"")) [
  | none ↦ none
  | some name_pos ↦ elim (find_byte_from part_headers b'"' (name_pos + 6)) [
    | none ↦ none
    | some name_end ↦ some (substr part_headers (name_pos + 6) (name_end - (name_pos + 6)))
  ]
]

-- What one part adds to the form: nothing, where it has no blank line or no name.
unfoldable pub add_part : Bytes → QueryMap → QueryMap
add_part part form = elim (find part all_seg_terminate) [
  | none ↦ form
  | some sep ↦ elim (part_name (substr part 0 sep)) [
    | none ↦ form
    | some name ↦ push form name (trim_part_body (substr_from part (sep + 4)))
  ]
]

-- The body from `start`, behind a boundary, begins with `w`, which has two characters.
unfoldable pub follows : Bytes → ℕ → Bytes → Bool
unfolding equal
follows body_block start w =
    leb (start + 2) (length body_block) && equal (substr body_block start 2) w

-- The loop. Each round finds a later boundary, so `body_block.size() + 1` rounds are enough fuel.
unfoldable pub multipart_loop : ℕ → Bytes → Bytes → ℕ → QueryMap → QueryMap
multipart_loop zero body_block boundary pos form = form
multipart_loop (suc fuel) body_block boundary pos form = elim (find_from body_block boundary pos) [
  | none ↦ form
  | some at ↦ elim (follows body_block (at + length boundary) (codes "--")) [
    | true ↦ form
    | false ↦
        let start : ℕ =
          if follows body_block (at + length boundary) crlf
          then at + length boundary + 2
          else at + length boundary in
        elim (find_from body_block boundary start) [
          | none ↦ form
          | some end ↦
              multipart_loop fuel body_block boundary end
                (add_part (substr body_block start (end - start)) form)
        ]
  ]
]

unfoldable pub parse_multipart_formdata : Bytes → Bytes → Option QueryMap
parse_multipart_formdata body_block content_type_header =
    elim (find content_type_header (codes "boundary=")) [
      | none ↦ none
      | some bpos ↦
          let boundary : Bytes = codes "--" ++ substr_from content_type_header (bpos + 9) in
          some (multipart_loop (length body_block + 1) body_block boundary 0 [])
    ]
