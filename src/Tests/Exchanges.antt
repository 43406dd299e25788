-- ===== src/Tests/Exchanges.antt =====
-- Tests of the HTTP/1.1 exchange and of the shards, and their theorems at concrete inputs.
use http_client.Prelude.{
  ℕ, zero, suc, ◌+◌, ◌*◌, ◌≡◌, ◌≤◌, ◌<◌, refl, true, false, List, [], ◌∷◌, ◌++◌, Bytes, codes,
  arith, inr, max, length, take, drop, replicate, All, ok, err,
}
use http_client.Text.{find, rfind, find_text, starts_with, to_lower, is_space, trim_front}
use http_client.Text.Append.{joined}
use http_client.Url.{authority_of, path_of}
use http_client.Headers.{split_header_view, header_name_equal, is_named}
use http_client.Request.{Request, default_request, body_view}
use http_client.Proxy.{is_digit}
use http_client.Http1.{
  Http1Url, parse_http1_url, absolute_uri, request_head, head_lines, connection_line,
  parse_content_length, append_response_headers, is_length_line, to_string, stage_error,
}
use http_client.Proxy.Connect.{crlf}
use http_client.Http1.Exchange.{
  Storage, Head, got, failed, Exchanged, exchange_reads, exchange_body, read_headers, read_body,
  read_some, first_chunk,
}
use http_client.Http1.Body.{IsGot}
use http_client.Http1.Lines.{head_text}
use http_client.Http1.Heads.{IsStorage}
use http_client.Http1.Whole.{IsWhole, shown, exchange_reads-IsWhole}
use http_client.Http1.Answer.{
  Answer, IsAnswer, answer_text, lines_of, answer_response, status_line, exchange_reads-answer,
}
use http_client.Http1.Sent.{request_head-read}
use http_client.Http1.Lost.{exchange_reads-no_length}
use http_client.Shards.{
  ShardOptions, new_shards, Event, picks, enters, maintains, preconnects, leaves, run,
  pick_request_shard, targets_sum,
}
use http_client.Shards.Bounds.{IsWindow, run-new_shards-pick}
use http_client.Shards.Spread.{targets_sum-count}

abbrev page : Http1Url
page = record {
  scheme = codes "http";
  host = codes "a.org";
  port = codes "81";
  target = codes "/x";
  tls = false;
}

parsed_page : parse_http1_url (codes "http://a.org:81/x") ≡ ok page
unfolding parse_http1_url find_text starts_with authority_of path_of find rfind
parsed_page = refl

absolute_page : absolute_uri page ≡ codes "http://a.org:81/x"
unfolding absolute_uri
absolute_page = refl

abbrev post_request : Request
post_request = record default_request {
  method = codes "POST";
  body = codes "hello";
  headers = codes "Accept: text/html" ∷ codes "content-length: 9" ∷ [];
}

post_head :
    request_head page false post_request
    ≡ codes "POST /x HTTP/1.1"
      ++ (crlf
          ++ (codes "Host: a.org"
              ++ (crlf
                  ++ (codes "User-Agent: httpclient-asio-light"
                      ++ (crlf
                          ++ (codes "Accept: text/html"
                              ++ (crlf
                                  ++ (codes "Content-Length: 5"
                                      ++ (crlf
                                          ++ (codes "Connection: keep-alive"
                                              ++ (crlf ++ crlf)))))))))))
unfolding request_head is_named split_header_view header_name_equal to_lower find trim_front
    is_space body_view
post_head = refl

-- The buffer of a connection, which doubles its storage.
abbrev buffer : Storage
buffer = record { capacity = 8192; grow = λ room size. max (2 * room) size; stale = λ text. [] }

buffer-IsStorage : IsStorage buffer
buffer-IsStorage = record { grows = λ room size. omega arith }

gots : (n : ℕ) → All IsGot (replicate n (got 6))
gots zero = tt
gots (suc n) = (tt, gots n)

abbrev hello : Answer
hello = record {
  version = codes "HTTP/1.1";
  a = 2;
  b = 0;
  c = 0;
  reason = codes " OK";
  before = codes "Server: s" ∷ [];
  name = codes "content-length:";
  pad = codes " ";
  after = [];
  body = codes "hello";
}

hello-IsAnswer : IsAnswer hello
unfolding to_string is_length_line starts_with to_lower is_space
hello-IsAnswer = record {
  digit_a = omega arith;
  digit_b = omega arith;
  digit_c = omega arith;
  version = omega arith;
  first = omega arith;
  before = ((omega arith, refl), tt);
  name = refl;
  pad = (refl, tt);
  lines = omega arith;
  body = omega arith;
  head = omega arith;
}

exchange_reads-answer_example :
    (x : Exchanged) × (exchange_reads buffer post_request
        (replicate 60 (got 6))
        (answer_text hello ++ (codes "hello" ++ codes "more"))
      ≡ ok x)
    × (x.response
        ≡ answer_response post_request (2 * 100 + 0 * 10 + 0) (lines_of hello) (codes "hello"))
    × (joined x.chunks ≡ [])
unfolding to_string
exchange_reads-answer_example =
    exchange_reads-answer buffer post_request (replicate 60 (got 6)) hello (codes "more")
      buffer-IsStorage (inr (omega arith)) hello-IsAnswer (gots 60) (omega arith)

-- A read that fails in the body.
failed_body :
    exchange_reads buffer post_request (got 99 ∷ failed (codes "reset") ∷ []) (
      codes "HTTP/1.1 200 OK"
      ++ (crlf ++ (codes "Content-Length: 5" ++ (crlf ++ (crlf ++ codes "he")))))
    ≡ err (codes "h1_read_body: reset")
unfolding exchange_reads exchange_body read_headers read_body read_some first_chunk find_text
    starts_with parse_content_length is_digit to_lower trim_front is_space stage_error
failed_body = refl

abbrev short_answer : Bytes
short_answer = codes "HTTP/1.1 204 No" ++ (crlf ++ (crlf ++ []))

exchange_reads-IsWhole_example :
    (h : Head) × (x : Exchanged) × (read_headers buffer 8192 (replicate 30 (got 6)) short_answer []
      ≡ ok h)
    × (exchange_reads buffer post_request (replicate 30 (got 6)) short_answer ≡ ok x)
    × (8192 ≤ h.capacity)
    × (19 ≤ h.capacity)
    × IsWhole post_request
        (shown buffer post_request h.capacity (take 19 short_answer) 19)
        (take 19 short_answer)
        19
        short_answer
        x
unfolding find_text starts_with parse_content_length
exchange_reads-IsWhole_example =
    exchange_reads-IsWhole buffer post_request (replicate 30 (got 6)) short_answer 15
      buffer-IsStorage (gots 30) (omega arith) refl (omega arith) (omega arith)

abbrev chunked_lines : List Bytes
chunked_lines = codes "Transfer-Encoding: chunked" ∷ []

exchange_reads-no_length_example :
    (x : Exchanged) × (exchange_reads buffer post_request (replicate 80 (got 6)) (
        head_text (status_line (codes "HTTP/1.1") 2 0 0 (codes " OK")) chunked_lines
        ++ (codes "5" ++ (crlf ++ codes "hello")))
      ≡ ok x)
    × (x.response ≡ answer_response post_request (2 * 100 + 0 * 10 + 0) chunked_lines [])
    × All (λ chunk. chunk ≡ []) x.chunks
    × ((k : ℕ) × (length
            (head_text (status_line (codes "HTTP/1.1") 2 0 0 (codes " OK")) chunked_lines)
          ≤ k)
        × (x.unread
            ≡ drop k (
                head_text (status_line (codes "HTTP/1.1") 2 0 0 (codes " OK")) chunked_lines
                ++ (codes "5" ++ (crlf ++ codes "hello")))))
unfolding is_length_line starts_with to_lower
exchange_reads-no_length_example =
    exchange_reads-no_length buffer post_request (replicate 80 (got 6)) (codes "HTTP/1.1")
      (codes " OK") 2 0 0 chunked_lines (codes "5" ++ (crlf ++ codes "hello")) buffer-IsStorage
      (omega arith) (omega arith) (omega arith) (omega arith) (omega arith) (omega arith)
      ((omega arith, refl), tt) (omega arith) (gots 80) (omega arith)

request_head-read_example :
    (append_response_headers (request_head page false post_request)
      ≡ head_lines page post_request ++ connection_line ∷ [])
    × (parse_content_length (request_head page false post_request)
        ≡ length (body_view post_request))
unfolding body_view
request_head-read_example =
    request_head-read page false post_request
      (record {
        method = omega arith;
        scheme = omega arith;
        host = omega arith;
        port = omega arith;
        target = omega arith;
        headers = omega arith;
      })
      (omega arith)

abbrev striped : ShardOptions
striped = record {
  shard_count = 4;
  auto_shards = true;
  stripe_origins_across_shards = true;
  auto_scale_up_interval = 25;
  auto_scale_down_idle_ttl = 60000;
}

abbrev busy : List Event
busy = preconnects 3 ∷ picks 7 ∷ enters 10 ∷ leaves ∷ maintains 70000 ∷ []

busy_active : (run striped busy (new_shards striped 8 5)).active_auto_shards ≡ 1
unfolding run new_shards
busy_active = refl

run-new_shards-pick_example :
    IsWindow (run striped busy (new_shards striped 8 5))
    × ((pick_request_shard striped 7 (run striped busy (new_shards striped 8 5))).0
        < (run striped busy (new_shards striped 8 5)).size)
    × (striped.stripe_origins_across_shards ≡ true
        → striped.auto_shards ≡ true
        → (pick_request_shard striped 7 (run striped busy (new_shards striped 8 5))).0
          < (run striped busy (new_shards striped 8 5)).active_auto_shards)
run-new_shards-pick_example = run-new_shards-pick striped 8 5 busy 7

targets_sum-count_example : targets_sum 10 4 4 ≡ 10
targets_sum-count_example = targets_sum-count 10 4 (omega arith)
