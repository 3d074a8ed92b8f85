-- ===== src/Http/Methods.antt =====
-- The method names of http_parser.c, and `http_method_str`.
use projectmoo.Base.{◌≤◌, arith, Bytes, codes, length}
use projectmoo.Http.Types.{
  Method, http_delete, http_get, http_head, http_post, http_put, http_connect, http_options,
  http_trace, http_copy, http_lock, http_mkcol, http_move, http_propfind, http_proppatch,
  http_unlock, http_report, http_mkactivity, http_checkout, http_merge, http_msearch, http_notify,
  http_subscribe, http_unsubscribe, http_patch,
}

-- `method_strings`, indexed by the method
unfoldable pub method_strings : Method → Bytes
method_strings http_delete = codes "DELETE"
method_strings http_get = codes "GET"
method_strings http_head = codes "HEAD"
method_strings http_post = codes "POST"
method_strings http_put = codes "PUT"
method_strings http_connect = codes "CONNECT"
method_strings http_options = codes "OPTIONS"
method_strings http_trace = codes "TRACE"
method_strings http_copy = codes "COPY"
method_strings http_lock = codes "LOCK"
method_strings http_mkcol = codes "MKCOL"
method_strings http_move = codes "MOVE"
method_strings http_propfind = codes "PROPFIND"
method_strings http_proppatch = codes "PROPPATCH"
method_strings http_unlock = codes "UNLOCK"
method_strings http_report = codes "REPORT"
method_strings http_mkactivity = codes "MKACTIVITY"
method_strings http_checkout = codes "CHECKOUT"
method_strings http_merge = codes "MERGE"
method_strings http_msearch = codes "M-SEARCH"
method_strings http_notify = codes "NOTIFY"
method_strings http_subscribe = codes "SUBSCRIBE"
method_strings http_unsubscribe = codes "UNSUBSCRIBE"
method_strings http_patch = codes "PATCH"

-- `http_method_str`
unfoldable pub http_method_str : Method → Bytes
unfolding method_strings
http_method_str m = method_strings m

-- The longest name has 11 bytes.
pub length-method_strings-le : (m : Method) → length (method_strings m) ≤ 11
unfolding method_strings
length-method_strings-le http_delete = omega arith
length-method_strings-le _ = omega arith
