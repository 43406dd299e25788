-- ===== src/Http1/Exchange.antt =====
-- The reads of `run_light_h1_exchange`. The connection is the bytes that the server has sent and
-- sends, and, one for each `async_read_some`, how many bytes have come or the error that it throws. When
-- these end the stream is at its end. The caller's handler returns.
use http_client.Prelude.{
  ℕ, suc, ◌+◌, ◌-◌, Bool, true, false, ◌&&◌, not, List, [], ◌∷◌, ◌++◌, Option, none, some, Bytes,
  codes, min, if◌then◌else◌, ltb, take, drop, length, is_nil, is_some, Result, ok, err, ◌>>=◌,
}
use http_client.Text.{find_text}
use http_client.Request.{Request}
use http_client.Response.{Response, empty_response}
use http_client.Proxy.{parse_http_status_code}
use http_client.Proxy.Connect.{crlf_twice}
use http_client.Http1.{
  Http1Url, stage_error, parse_content_length, append_response_headers, write_buffers,
}

-- `got k`: k + 1 bytes have come.
pub data Read : Type 0 where
  got : ℕ → Read
  failed : Bytes → Read

abbrev pub end_of_file : Bytes
end_of_file = codes "End of file"

-- `async_read_some` into `asked` bytes: those it returns and the rest of the stream.
unfoldable pub read_some : ℕ → Read → Bytes → Result (Bytes × Bytes)
read_some asked (failed what) s = err what
read_some asked (got k) s =
    if is_nil s
    then err end_of_file
    else ok (take (min asked (suc k)) s, drop (min asked (suc k)) s)

-- The storage of `read_buf`, which the connection keeps from one exchange to the next: its capacity
-- when the exchange starts to read, the capacity that an `append` takes which needs so many bytes and
-- does not fit the present one, and what a view shows of a text whose storage has been given up.
pub record Storage : Type 0 where
  pub capacity : ℕ
  pub grow : ℕ → ℕ → ℕ
  pub stale : Bytes → Bytes

-- The capacity behind an `append` that ends with so many bytes.
unfoldable pub fit : Storage → ℕ → ℕ → ℕ
fit m room size = if ltb room size then m.grow room size else room

-- What the first loop leaves: `read_buf`, its capacity, `header_end`, the rest of the stream and of the
-- reads.
pub record Head : Type 0 where
  pub read_buf : Bytes
  pub capacity : ℕ
  pub header_end : ℕ
  pub unread : Bytes
  pub reads : List Read

unfoldable pub read_headers : Storage → ℕ → List Read → Bytes → Bytes → Result Head
unfolding fit
read_headers m room [] s read_buf = err (stage_error (codes "h1_read_headers") end_of_file)
read_headers m room (r ∷ rs) s read_buf = elim (read_some 32768 r s) [
  | err what ↦ err (stage_error (codes "h1_read_headers") what)
  | ok (chunk, s') ↦
      let buf = read_buf ++ chunk in
      let room' = fit m room (length buf) in
      let rest = read_headers m room' rs s' buf in
      elim (find_text crlf_twice buf) [
        | some end ↦
            ok (record {
              read_buf = buf;
              capacity = room';
              header_end = end;
              unread = s';
              reads = rs;
            })
        | none ↦
            if ltb 65536 (length buf) then err (codes "h1 response headers too large") else rest
      ]
]

-- The second loop's variables, with the chunks that the handler was given.
pub record BodyState : Type 0 where
  pub read_buf : Bytes
  pub have_body : ℕ
  pub chunks : List Bytes
  pub unread : Bytes

-- A handler is called with a chunk that is not empty.
unfoldable pub on_chunk : Bool → Bytes → List Bytes → List Bytes
on_chunk handler chunk chunks =
    if handler && not (is_nil chunk) then chunks ++ chunk ∷ [] else chunks

unfoldable pub read_body : Bool → Bool → ℕ → List Read → BodyState → Result BodyState
read_body store handler content_length [] b =
    if ltb b.have_body content_length
    then err (stage_error (codes "h1_read_body") end_of_file)
    else ok b
read_body store handler content_length (r ∷ rs) b = elim (ltb b.have_body content_length) [
  | false ↦ ok b
  | true ↦ elim (read_some (min 32768 (content_length - b.have_body)) r b.unread) [
    | err what ↦ err (stage_error (codes "h1_read_body") what)
    | ok (chunk, s') ↦ read_body store handler content_length rs (record {
      read_buf = if store then b.read_buf ++ chunk else b.read_buf;
      have_body = b.have_body + length chunk;
      chunks = on_chunk handler chunk b.chunks;
      unread = s';
    })
  ]
]

-- What came behind the head with its last read; the handler gets what belongs to the body.
unfoldable pub first_chunk : Bool → ℕ → Head → BodyState
first_chunk handler content_length h =
    let body = drop (4 + h.header_end) h.read_buf in
    record {
      read_buf = h.read_buf;
      have_body = length body;
      chunks =
          if handler && not (is_nil body)
          then take (min (length body) content_length) body ∷ []
          else [];
      unread = h.unread;
    }

-- The response is put together; `headers` is what the view shows at that time.
unfoldable pub response_of : Request → Bytes → ℕ → ℕ → Bytes → Response
response_of r headers body_start content_length read_buf = record empty_response {
  status = parse_http_status_code headers;
  http_version = 1;
  headers = if r.store_response_headers then append_response_headers headers else [];
  body =
      if r.store_response_body && ltb 0 content_length
      then take content_length (drop body_start read_buf)
      else [];
}

-- The response, the chunks that the handler was given, and what is left on the stream.
pub record Exchanged : Type 0 where
  pub response : Response
  pub chunks : List Bytes
  pub unread : Bytes

-- What `headers` shows behind the second loop: the loop has moved the text to new storage when it has
-- outgrown the capacity, and the view stays with the old one.
unfoldable pub view_of : Storage → ℕ → ℕ → Bytes → Bytes
view_of m room size headers = if ltb room size then m.stale headers else headers

-- The function behind the first loop. `headers` is a view of `read_buf`, made before the second loop and
-- read for the response behind it.
unfoldable pub exchange_body : Storage → Request → Head → Result Exchanged
unfolding view_of
exchange_body m r h =
    let headers = take (4 + h.header_end) h.read_buf in
    let content_length = parse_content_length headers in
    let handler = is_some r.on_body_chunk in
    do
      b ←
          read_body r.store_response_body handler content_length h.reads
            (first_chunk handler content_length h)
      ok (record {
        response =
            response_of r (view_of m h.capacity (length b.read_buf) headers) (4 + h.header_end)
              content_length b.read_buf;
        chunks = b.chunks;
        unread = b.unread;
      })

-- The reads, on what the server sends.
unfoldable pub exchange_reads : Storage → Request → List Read → Bytes → Result Exchanged
exchange_reads m r reads s = do h ← read_headers m m.capacity reads s []; exchange_body m r h

-- The text of an exception that `async_write` throws, if it does.
unfoldable pub check_write : Option Bytes → Result (Unit {0})
check_write none = ok tt
check_write (some what) = err (stage_error (codes "h1_write") what)

-- `run_light_h1_exchange`: what it writes, and its outcome.
unfoldable pub run_light_h1_exchange :
    Storage
    → Http1Url
    → Bool
    → Request
    → Option Bytes
    → List Read
    → Bytes
    → List Bytes × Result Exchanged
unfolding check_write
run_light_h1_exchange m u absolute_target r write_error reads s =
    (write_buffers u absolute_target r, check_write write_error >>= λ _. exchange_reads m r reads s)
