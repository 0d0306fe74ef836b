-- ===== src/Server/Request.antt =====
-- src/server/request.c: the two ways to answer a request. Whether libmicrohttpd queues a response
-- (`MHD_queue_response`) is a parameter, which sees what was queued before.
use reachard.Prelude.{ℕ, Bool, true, false, List, ◌∷◌, none, some, if◌then◌else◌}
use reachard.Text.{Bytes, CString, codes}
use reachard.System.{World, Response, M, pure, fault, ◌>>=◌, ◌>>◌, free_block}

-- `enum MHD_Result`: true is `MHD_YES`.
abbrev pub MhdResult : Type 0
MhdResult = Bool

abbrev pub Queue : Type 0
Queue = List Response → Response → Bool

-- `MHD_HTTP_OK` and its like.
abbrev pub http_ok : ℕ
http_ok = 200

abbrev pub http_bad_request : ℕ
http_bad_request = 400

abbrev pub http_internal_server_error : ℕ
http_internal_server_error = 500

abbrev pub plain : Bytes → ℕ → Response
plain body status = record { status_code = status; content_type = codes "text/plain"; body = body }

abbrev pub json : Bytes → ℕ → Response
json body status = record {
  status_code = status;
  content_type = codes "application/json";
  body = body;
}

module _ (queue : Queue) {S : Type 0} where
  -- `MHD_queue_response`
  abbrev pub queued : Response → World S → MhdResult × World S
  queued r w = if queue w.sent r then (true, record w { sent = r ∷ w.sent }) else (false, w)

  queue_response : Response → M S MhdResult
  queue_response r w = some (queued r w)

  -- `reachard_request_respond_plain`
  unfoldable pub respond_plain : Bytes → ℕ → M S MhdResult
  unfolding queue_response
  respond_plain body status = queue_response (plain body status)

  -- `reachard_request_respond_json`: the body's block is libmicrohttpd's from here on, which frees
  -- it with the response. The length of a null body cannot be taken.
  unfoldable pub respond_json : CString → ℕ → M S MhdResult
  unfolding queue_response free_block
  respond_json none status = fault
  respond_json (some body) status = do
    queued ← queue_response (json body status)
    free_block
    pure queued
