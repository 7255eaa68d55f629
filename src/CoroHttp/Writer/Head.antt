-- ===== src/CoroHttp/Writer/Head.antt =====
-- What the heads announce that `HttpWriter` sends.
use ccnet_utilities.Common.{
  ◌≡◌, refl, ap, ◌∙◌, inl, inr, true, false, Option, none, some, [], arith, if◌then◌else◌,
  Option-cases, length, Bytes, codes,
}
use ccnet_utilities.CoroHttp.Writer.{set_default, sized_response, chunked_response}
use ccnet_utilities.Cpp.Numbers.{to_string}
use ccnet_utilities.Http.Headers
use ccnet_utilities.Http.Headers.{Headers, case_insensitive_eq}
use ccnet_utilities.Http.Headers.Laws.{IsWellFormed, get-set, get-erase, find_item-eq}
use ccnet_utilities.Http.Response.{Response, length_line}

abbrev content_length : Bytes
content_length = codes "content-length"

abbrev connection : Bytes
connection = codes "connection"

abbrev transfer_encoding : Bytes
transfer_encoding = codes "transfer-encoding"

abbrev pub or_else : Option Bytes → Bytes → Option Bytes
or_else none v = some v
or_else (some u) v = some u

has-none : (h : Headers) (k : Bytes) → Headers.get h k ≡ none → Headers.has h k ≡ false
unfolding Headers.has Headers.get
has-none h k e = ground arith

has-some : (h : Headers) (k u : Bytes) → Headers.get h k ≡ some u → Headers.has h k ≡ true
unfolding Headers.has Headers.get
has-some h k u e = ground arith

set_default_absent :
    (h : Headers) (k v : Bytes) → Headers.get h k ≡ none → set_default h k v ≡ Headers.set h k v
set_default_absent h k v e = rw (has-none h k e)

set_default_present :
    (h : Headers) (k v u : Bytes) → Headers.get h k ≡ some u → set_default h k v ≡ h
set_default_present h k v u e = rw (has-some h k u e)

length_line_none : (r : Response) → Headers.has r.headers content_length ≡ true → length_line r ≡ []
unfolding length_line
length_line_none r e = ground arith

get-or_else : (o : Option Bytes) (v : Bytes) → (u : Bytes) × (or_else o v ≡ some u)
get-or_else none v = (v, refl)
get-or_else (some u) v = (u, refl)

get-eq :
    (h : Headers) (k j : Bytes) → case_insensitive_eq k j ≡ true → Headers.get h k ≡ Headers.get h j
unfolding Headers.get
get-eq h k j e = find_item-eq k j h.items e

get-set_default :
    (h : Headers) (k j v : Bytes)
    → Headers.get (set_default h k v) j
      ≡ (if case_insensitive_eq k j then or_else (Headers.get h j) v else Headers.get h j)
get-set_default h k j v = elim (Option-cases (Headers.get h k)) [
  | inl e ↦ ground (arith, set_default_absent h k v e, get-set h k j v, get-eq h k j)
  | inr (u, e) ↦ ground (arith, set_default_present h k v u e, get-eq h k j)
]

sized-length :
    (h : Headers) (size : Bytes)
    → Headers.get
        (set_default (set_default h content_length size) connection (codes "close"))
        content_length
      ≡ or_else (Headers.get h content_length) size
unfolding case_insensitive_eq
sized-length h size =
    get-set_default (set_default h content_length size) connection content_length (codes "close")
    ∙ get-set_default h content_length content_length size

sized-connection :
    (h : Headers) (size : Bytes)
    → Headers.get
        (set_default (set_default h content_length size) connection (codes "close"))
        connection
      ≡ or_else (Headers.get h connection) (codes "close")
unfolding case_insensitive_eq
sized-connection h size =
    get-set_default (set_default h content_length size) connection connection (codes "close")
    ∙ ap (λ x. or_else x (codes "close")) (get-set_default h content_length connection size)

-- The head of a sized response keeps a length and a `connection` that the response names, under any
-- spelling; otherwise it gives the length of the body and `close`; `format_header` adds no second length.
pub sized_response_lem :
    (resp : Response)
    → (Headers.get (sized_response resp).headers content_length
        ≡ or_else (Headers.get resp.headers content_length) (to_string (length resp.body)))
      × (Headers.get (sized_response resp).headers connection
          ≡ or_else (Headers.get resp.headers connection) (codes "close"))
      × (length_line (sized_response resp) ≡ [])
unfolding sized_response
sized_response_lem resp =
    let size : Bytes = to_string (length resp.body) in
    let named = get-or_else (Headers.get resp.headers content_length) size in
    (
      sized-length resp.headers size,
      sized-connection resp.headers size,
      length_line_none (sized_response resp) (
          has-some (sized_response resp).headers content_length named.0
            (sized-length resp.headers size ∙ named.1)),
    )

-- The head of a chunked response names no length, whatever the response named, and names `chunked`
-- and `keep-alive`. The headers hold each key at most once, up to case.
pub chunked_response_lem :
    (resp : Response)
    → IsWellFormed resp.headers
    → (Headers.get (chunked_response resp).headers content_length ≡ none)
      × (Headers.get (chunked_response resp).headers transfer_encoding ≡ some (codes "chunked"))
      × (Headers.get (chunked_response resp).headers connection ≡ some (codes "keep-alive"))
unfolding chunked_response case_insensitive_eq
chunked_response_lem resp u = (
  get-set _ _ content_length _
      ∙ get-set _ _ content_length _
      ∙ get-erase resp.headers content_length content_length u,
  get-set _ _ transfer_encoding _ ∙ get-set _ _ transfer_encoding _,
  get-set _ _ connection _,
)
