-- ===== src/Http/Strerror.antt =====
-- http_parser.c and http_parser.h: the names and descriptions of errors.
use projectmoo.Base.{
  ℕ, ◌≡◌, refl, Bool, true, false, ◌&&◌, Option, none, some, List, [], ◌∷◌, Bytes, codes, get_elem?,
  ◌==◌, if◌then◌else◌,
}
use projectmoo.Http.Types.{
  Errno, hpe_ok, hpe_cb_message_begin, hpe_cb_path, hpe_cb_query_string, hpe_cb_url,
  hpe_cb_fragment, hpe_cb_header_field, hpe_cb_header_value, hpe_cb_headers_complete, hpe_cb_body,
  hpe_cb_message_complete, hpe_invalid_eof_state, hpe_header_overflow, hpe_closed_connection,
  hpe_invalid_version, hpe_invalid_status, hpe_invalid_method, hpe_invalid_url, hpe_invalid_host,
  hpe_invalid_port, hpe_invalid_path, hpe_invalid_query_string, hpe_invalid_fragment,
  hpe_lf_expected, hpe_invalid_header_token, hpe_invalid_content_length, hpe_invalid_chunk_size,
  hpe_invalid_constant, hpe_invalid_internal_state, hpe_strict, hpe_unknown,
}

-- The values of `enum http_errno`, in its order.
abbrev pub errnos : List Errno
errnos =
    hpe_ok ∷ hpe_cb_message_begin ∷ hpe_cb_path ∷ hpe_cb_query_string ∷ hpe_cb_url ∷ hpe_cb_fragment
    ∷ hpe_cb_header_field ∷ hpe_cb_header_value ∷ hpe_cb_headers_complete ∷ hpe_cb_body
    ∷ hpe_cb_message_complete ∷ hpe_invalid_eof_state ∷ hpe_header_overflow ∷ hpe_closed_connection
    ∷ hpe_invalid_version ∷ hpe_invalid_status ∷ hpe_invalid_method ∷ hpe_invalid_url
    ∷ hpe_invalid_host ∷ hpe_invalid_port ∷ hpe_invalid_path ∷ hpe_invalid_query_string
    ∷ hpe_invalid_fragment ∷ hpe_lf_expected ∷ hpe_invalid_header_token ∷ hpe_invalid_content_length
    ∷ hpe_invalid_chunk_size ∷ hpe_invalid_constant ∷ hpe_invalid_internal_state ∷ hpe_strict
    ∷ hpe_unknown ∷ []

-- `http_strerror_tab`, in the order of HTTP_ERRNO_MAP: names and descriptions
unfoldable pub http_strerror_tab : List (Bytes × Bytes)
http_strerror_tab =
    (codes "HPE_OK", codes "success")
    ∷ (codes "HPE_CB_message_begin", codes "the on_message_begin callback failed")
    ∷ (codes "HPE_CB_path", codes "the on_path callback failed")
    ∷ (codes "HPE_CB_query_string", codes "the on_query_string callback failed")
    ∷ (codes "HPE_CB_url", codes "the on_url callback failed")
    ∷ (codes "HPE_CB_fragment", codes "the on_fragment callback failed")
    ∷ (codes "HPE_CB_header_field", codes "the on_header_field callback failed")
    ∷ (codes "HPE_CB_header_value", codes "the on_header_value callback failed")
    ∷ (codes "HPE_CB_headers_complete", codes "the on_headers_complete callback failed")
    ∷ (codes "HPE_CB_body", codes "the on_body callback failed")
    ∷ (codes "HPE_CB_message_complete", codes "the on_message_complete callback failed")
    ∷ (codes "HPE_INVALID_EOF_STATE", codes "stream ended at an unexpected time")
    ∷ (codes "HPE_HEADER_OVERFLOW", codes "too many header bytes seen; overflow detected")
    ∷ (
      codes "HPE_CLOSED_CONNECTION",
      codes "data received after completed connection: close message",
    )
    ∷ (codes "HPE_INVALID_VERSION", codes "invalid HTTP version")
    ∷ (codes "HPE_INVALID_STATUS", codes "invalid HTTP status code")
    ∷ (codes "HPE_INVALID_METHOD", codes "invalid HTTP method")
    ∷ (codes "HPE_INVALID_URL", codes "invalid URL")
    ∷ (codes "HPE_INVALID_HOST", codes "invalid host")
    ∷ (codes "HPE_INVALID_PORT", codes "invalid port")
    ∷ (codes "HPE_INVALID_PATH", codes "invalid path")
    ∷ (codes "HPE_INVALID_QUERY_STRING", codes "invalid query string")
    ∷ (codes "HPE_INVALID_FRAGMENT", codes "invalid fragment")
    ∷ (codes "HPE_LF_EXPECTED", codes "LF character expected")
    ∷ (codes "HPE_INVALID_HEADER_TOKEN", codes "invalid character in header")
    ∷ (codes "HPE_INVALID_CONTENT_LENGTH", codes "invalid character in content-length header")
    ∷ (codes "HPE_INVALID_CHUNK_SIZE", codes "invalid character in chunk size header")
    ∷ (codes "HPE_INVALID_CONSTANT", codes "invalid constant string")
    ∷ (codes "HPE_INVALID_INTERNAL_STATE", codes "encountered unexpected internal state")
    ∷ (codes "HPE_STRICT", codes "strict mode assertion failed")
    ∷ (codes "HPE_UNKNOWN", codes "an unknown error occurred")
    ∷ []

-- An enumerator as the number that it stands for.
abbrev pub errno_code : Errno → ℕ
errno_code hpe_ok = 0
errno_code hpe_cb_message_begin = 1
errno_code hpe_cb_path = 2
errno_code hpe_cb_query_string = 3
errno_code hpe_cb_url = 4
errno_code hpe_cb_fragment = 5
errno_code hpe_cb_header_field = 6
errno_code hpe_cb_header_value = 7
errno_code hpe_cb_headers_complete = 8
errno_code hpe_cb_body = 9
errno_code hpe_cb_message_complete = 10
errno_code hpe_invalid_eof_state = 11
errno_code hpe_header_overflow = 12
errno_code hpe_closed_connection = 13
errno_code hpe_invalid_version = 14
errno_code hpe_invalid_status = 15
errno_code hpe_invalid_method = 16
errno_code hpe_invalid_url = 17
errno_code hpe_invalid_host = 18
errno_code hpe_invalid_port = 19
errno_code hpe_invalid_path = 20
errno_code hpe_invalid_query_string = 21
errno_code hpe_invalid_fragment = 22
errno_code hpe_lf_expected = 23
errno_code hpe_invalid_header_token = 24
errno_code hpe_invalid_content_length = 25
errno_code hpe_invalid_chunk_size = 26
errno_code hpe_invalid_constant = 27
errno_code hpe_invalid_internal_state = 28
errno_code hpe_strict = 29
errno_code hpe_unknown = 30

-- `http_errno_name`; `none` is the failed assertion
unfoldable pub http_errno_name : Errno → Option Bytes
unfolding http_strerror_tab
http_errno_name e = elim (get_elem? http_strerror_tab (errno_code e)) [
  | none ↦ none
  | some t ↦ some t.0
]

-- `http_errno_description`
unfoldable pub http_errno_description : Errno → Option Bytes
unfolding http_strerror_tab
http_errno_description e = elim (get_elem? http_strerror_tab (errno_code e)) [
  | none ↦ none
  | some t ↦ some t.1
]

abbrev same_bytes : Bytes → Bytes → Bool
same_bytes [] [] = true
same_bytes [] (y ∷ ys) = false
same_bytes (x ∷ xs) [] = false
same_bytes (x ∷ xs) (y ∷ ys) = x == y && same_bytes xs ys

abbrev same_text : Option Bytes → Option Bytes → Bool
same_text (some s) (some t) = same_bytes s t
same_text _ _ = false

-- The first error that a text tells.
abbrev pub first_with : (Errno → Option Bytes) → Option Bytes → List Errno → Option Errno
first_with text s [] = none
first_with text s (e ∷ es) =
    let rest = first_with text s es in if same_text s (text e) then some e else rest

-- For every error the assertions hold, and both its name and its description tell it: no other error
-- has the same.
pub errno_text_lem :
    (e : Errno)
    → (first_with http_errno_name (http_errno_name e) errnos ≡ some e)
      × (first_with http_errno_description (http_errno_description e) errnos ≡ some e)
unfolding http_errno_name http_errno_description
errno_text_lem hpe_ok = (refl, refl)
errno_text_lem _ = (refl, refl)
