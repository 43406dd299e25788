-- ===== src/Http1/Lost.antt =====
-- Answers that announce no length: chunked ones, and those that end with the connection.
use http_client.Prelude.{
  ℕ, ◌+◌, ◌*◌, ◌≡◌, ◌≤◌, ◌<◌, refl, ◌∙◌, Bool, true, false, List, [], ◌∷◌, ◌++◌, Bytes, length,
  arith, All, ok, if◌then◌else◌, is_some, drop,
}
use http_client.Text.{Lacks}
use http_client.Text.Append.{joined}
use http_client.Request.{Request}
use http_client.Proxy.Connect.{crlf}
use http_client.Http1.{parse_content_length, text_of}
use http_client.Http1.Exchange.{Storage, Read, Exchanged, exchange_reads}
use http_client.Http1.Body.{IsGot}
use http_client.Http1.Lines.{IsLine, head_text, append_response_headers-head_text}
use http_client.Http1.Fields.{HasNoLength, scan_lines}
use http_client.Http1.Heads.{IsStorage}
use http_client.Http1.Answer.{
  status_line, parse_status-line, answer_response, exchange_reads-head_text,
}

joined-empty : (cs : List Bytes) → joined cs ≡ [] → All (λ chunk. chunk ≡ []) cs
joined-empty [] h = tt
joined-empty ([] ∷ cs) h = (refl, joined-empty cs h)
joined-empty ((x ∷ c) ∷ cs) h = absurd (cc h)

-- An answer whose header lines hold no Content-Length is returned with its code and headers, without an
-- error, and with an empty body, whatever the server sends as its body; every chunk that a handler is
-- given is empty. What of that body has not been read with the head is left on the stream. An append takes
-- the storage that it needs.
pub exchange_reads-no_length :
    (m : Storage) (r : Request) (rs : List Read) (version reason : Bytes) (a b c : ℕ)
    (lines : List Bytes) (body : Bytes)
    → IsStorage m
    → a < 10
    → b < 10
    → c < 10
    → Lacks 32 version
    → Lacks 13 (status_line version a b c reason)
    → All IsLine lines
    → All HasNoLength lines
    → length (head_text (status_line version a b c reason) lines) ≤ 65536
    → All IsGot rs
    → length (head_text (status_line version a b c reason) lines ++ body) ≤ length rs
    → (x : Exchanged) × (exchange_reads m r rs
          (head_text (status_line version a b c reason) lines ++ body)
        ≡ ok x)
      × (x.response ≡ answer_response r (a * 100 + b * 10 + c) lines [])
      × All (λ chunk. chunk ≡ []) x.chunks
      × ((k : ℕ) × (length (head_text (status_line version a b c reason) lines) ≤ k)
          × (x.unread ≡ drop k (head_text (status_line version a b c reason) lines ++ body)))
exchange_reads-no_length m r rs version reason a b c lines body i ha hb hc v h ls n small g l =
    let first = status_line version a b c reason in
    let cl : parse_content_length (head_text first lines) ≡ 0 =
      scan_lines first lines crlf h n ∙ (unfold parse_content_length in refl) in
    let (x, eq, whole) =
      exchange_reads-head_text m r rs first lines [] body i (λ room _ k. ground (arith, k)) g l h ls
        small cl in
    let status =
      parse_status-line version reason (crlf ++ (text_of lines ++ crlf)) a b c v ha hb hc in
    let (k, le, left) = whole.unread in
    (
      x,
      eq,
      whole.response ∙ rw (status, append_response_headers-head_text first lines h ls, cl) refl,
      joined-empty x.chunks (whole.chunks ∙ rw cl (no_chunks (is_some r.on_body_chunk))),
      (k, omega (arith, le, cl), left),
    )
  where
    no_chunks : (handler : Bool) → ◌≡◌ {A = Bytes} (if handler then [] else []) []
    no_chunks true = refl
    no_chunks false = refl
