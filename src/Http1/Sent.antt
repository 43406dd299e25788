-- ===== src/Http1/Sent.antt =====
-- The request that was written is read back: its lines, and where its body ends.
use http_client.Prelude.{
  ◌≡◌, ◌<◌, refl, sym, subst, ap, ◌∙◌, Bool, List, [], ◌∷◌, ◌++◌, Bytes, codes, length, is_nil,
  arith, append_assoc, append-nil, All, All-append, All-mono, if-both,
}
use http_client.Text.{Lacks, to_lower, is_space}
use http_client.Request.{Request, body_view}
use http_client.Proxy.Connect.{crlf}
use http_client.Http1.{
  Http1Url, length_line, connection_line, request_line, head_lines, request_head,
  parse_content_length, append_response_headers, size_modulus, to_string,
}
use http_client.Http1.Lines.{IsLine, head_text, append_response_headers-head_text}
use http_client.Http1.Fields.{HasNoLength, scan_lines}
use http_client.Http1.Decimal.{to_string-Lacks}
use http_client.Http1.Answer.{head_text-length}
use http_client.Http1.Framing.{
  IsPlainLine, IsOneLine, plain_lines, plain_lines-IsPlainLine, head_lines-plain,
  request_head-head_text, request_line-Lacks, connection_line-IsPlainLine, Lacks-append,
}

length_line-IsLine : (body : Bytes) → All IsLine (length_line body)
unfolding length_line
length_line-IsLine body =
    if-both (All IsLine) (is_nil body) []
      ((codes "Content-Length: " ++ to_string (length body)) ∷ []) (λ _. tt)
      (λ _. (
        (
          Lacks-append (codes "Content-Length: ") (to_string (length body)) (omega arith)
              (to_string-Lacks (length body)),
          omega arith,
        ),
        tt,
      ))

sent_lines-IsLine :
    (u : Http1Url) (r : Request)
    → IsOneLine u r
    → All IsLine (head_lines u r ++ connection_line ∷ [])
sent_lines-IsLine u r v =
    All-append IsLine (head_lines u r) (connection_line ∷ [])
      (subst (All IsLine) (sym (head_lines-plain u r)) (
        All-append IsLine (plain_lines u r) (length_line (body_view r))
          (All-mono IsPlainLine IsLine (λ l p. p.0) (plain_lines u r)
            (plain_lines-IsPlainLine u r v))
          (length_line-IsLine (body_view r))))
      (connection_line-IsPlainLine.0, tt)

-- The plain lines hold no length.
plain_no_length : (u : Http1Url) (r : Request) → IsOneLine u r → All HasNoLength (plain_lines u r)
plain_no_length u r v =
    All-mono IsPlainLine HasNoLength (λ l p. (p.0.0, p.1)) (plain_lines u r)
      (plain_lines-IsPlainLine u r v)

-- Without a body there is no length, and the reader takes it for 0.
no_body-length :
    (first : Bytes) (lines : List Bytes)
    → Lacks 13 first
    → All HasNoLength lines
    → parse_content_length (head_text first (lines ++ connection_line ∷ [])) ≡ 0
no_body-length first lines h a =
    scan_lines first (lines ++ connection_line ∷ []) crlf h (
      All-append HasNoLength lines (connection_line ∷ []) a
        ((connection_line-IsPlainLine.0.0, connection_line-IsPlainLine.1), tt))
    ∙ (unfold parse_content_length in refl)

sent_length :
    (first : Bytes) (lines : List Bytes) (body : Bytes)
    → Lacks 13 first
    → All HasNoLength lines
    → length body < size_modulus
    → parse_content_length (head_text first ((lines ++ length_line body) ++ connection_line ∷ []))
      ≡ length body
unfolding length_line
sent_length first lines [] h a small =
    ap (λ l. parse_content_length (head_text first (l ++ connection_line ∷ []))) (append-nil lines)
    ∙ no_body-length first lines h a
sent_length first lines (x ∷ body) h a small =
    ap (λ l. parse_content_length (head_text first l)) (append_assoc lines _ (connection_line ∷ []))
    ∙ head_text-length first lines (connection_line ∷ []) (codes "Content-Length:") (32 ∷ [])
        (length (x ∷ body)) h a (unfold to_lower in refl) (unfold is_space in (refl, tt)) small

-- If no text of the request or its url that goes into the head holds a carriage return, and the body's
-- size fits 64 bits, a reader of the head finds just the lines that the exchange puts there, its own and
-- the request's headers but Host, Content-Length and Connection, and takes from it the size of the
-- body: no header can end the head or announce another size.
pub request_head-read :
    (u : Http1Url) (absolute_target : Bool) (r : Request)
    → IsOneLine u r
    → length (body_view r) < size_modulus
    → (append_response_headers (request_head u absolute_target r)
        ≡ head_lines u r ++ connection_line ∷ [])
      × (parse_content_length (request_head u absolute_target r) ≡ length (body_view r))
request_head-read u absolute_target r v small =
    let first = request_line u absolute_target r in
    let one = request_line-Lacks u absolute_target r v in
    let e = request_head-head_text u absolute_target r in
    (
      ap append_response_headers e
          ∙ append_response_headers-head_text first (head_lines u r ++ connection_line ∷ []) one
              (sent_lines-IsLine u r v),
      ap parse_content_length e
          ∙ ap (λ l. parse_content_length (head_text first (l ++ connection_line ∷ [])))
              (head_lines-plain u r)
          ∙ sent_length first (plain_lines u r) (body_view r) one (plain_no_length u r v) small,
    )
