-- ===== src/Http1/Whole.antt =====
-- The exchange on a server's answer as one text.
use http_client.Prelude.{
  ℕ, zero, suc, ◌+◌, ◌-◌, ◌≡◌, ◌≤◌, refl, sym, subst, ap, ◌∙◌, inl, inr, Bool, true, false, ◌&&◌,
  not, List, [], ◌∷◌, ◌++◌, some, Bytes, min, if◌then◌else◌, ltb, take, drop, length, is_nil,
  is_some, arith, append-nil, drop-append, Bool-cases, All, ok, length-take, length-drop,
  length-append,
}
use http_client.Text.{find_text, starts_with}
use http_client.Text.Append.{
  joined, take-append_le, drop-append_le, take-append_sub, take-append_missing, drop-add,
}
use http_client.Request.{Request}
use http_client.Response.{Response, empty_response}
use http_client.Proxy.{parse_http_status_code}
use http_client.Proxy.Connect.{crlf_twice}
use http_client.Http1.{parse_content_length, append_response_headers}
use http_client.Http1.Exchange.{
  Storage, view_of, Read, Head, read_headers, first_chunk, response_of, Exchanged, exchange_body,
  exchange_reads,
}
use http_client.Http1.Body.{IsGot, read_body-Reads}
use http_client.Http1.Heads.{IsStorage, read_headers-Finds}

-- What the view of the head shows when the response is put together, with the capacity `room` behind the
-- first loop: the head, unless the answer is stored and needs more.
abbrev pub shown : Storage → Request → ℕ → Bytes → ℕ → Bytes
shown m r room head n =
    if r.store_response_body && ltb room (n + parse_content_length head) then m.stale head else head

-- The response that the answer stands for, of which `n` bytes are the head, and whose status and header
-- lines are read from `view`.
abbrev pub whole_response : Request → Bytes → Bytes → ℕ → Bytes → Response
whole_response r view head n s = record empty_response {
  status = parse_http_status_code view;
  http_version = 1;
  headers = if r.store_response_headers then append_response_headers view else [];
  body = if r.store_response_body then take (parse_content_length head) (drop n s) else [];
}

-- What the exchange returns: the response, the body in chunks for a handler, and the rest of the stream from
-- the end of the body or from behind it.
pub record IsWhole (r : Request) (view head : Bytes) (n : ℕ) (s : Bytes) (x : Exchanged)
    : Type 0 where
  pub response : x.response ≡ whole_response r view head n s
  pub chunks :
      joined x.chunks
      ≡ (if is_some r.on_body_chunk then take (parse_content_length head) (drop n s) else [])
  pub unread : (k : ℕ) × (n + parse_content_length head ≤ k) × (x.unread ≡ drop k s)

stored_body :
    (store : Bool) (cl n : ℕ) (buf u s : Bytes)
    → buf ++ u ≡ s
    → n ≤ length buf
    → (if store && ltb 0 cl
        then take cl (drop n (if store then buf ++ take (cl - length (drop n buf)) u else buf))
        else [])
      ≡ (if store then take cl (drop n s) else [])
stored_body false cl n buf u s e h = refl
stored_body true zero n buf u s e h = refl
stored_body true (suc cl) n buf u s e h =
    let positive : ltb 0 (suc cl) ≡ true = ground arith in
    rw positive (
      ap (take (suc cl)) (drop-append_le n buf (take (suc cl - length (drop n buf)) u) h)
      ∙ take-append_missing (suc cl) (drop n buf) u
      ∙ ap (take (suc cl)) (sym (drop-append_le n buf u h) ∙ ap (drop n) e))

take_all : (n : ℕ) (d : Bytes) → take (min (length d) n) d ≡ take n d
take_all zero d = let e : min (length d) 0 ≡ 0 = omega arith in rw e refl
take_all (suc n) [] = let e : min 0 (suc n) ≡ 0 = omega arith in rw e refl
take_all (suc n) (x ∷ d) =
    let e : min (suc (length d)) (suc n) ≡ suc (min (length d) n) = omega arith in
    rw e (ap (◌∷◌ x) (take_all n d))

joined_first :
    (handler : Bool) (cl : ℕ) (d : Bytes)
    → joined (if handler && not (is_nil d) then take (min (length d) cl) d ∷ [] else [])
      ≡ (if handler then take cl d else [])
joined_first false cl d = refl
joined_first true zero [] = refl
joined_first true (suc cl) [] = refl
joined_first true cl (x ∷ d) =
    append-nil (take (min (length (x ∷ d)) cl) (x ∷ d)) ∙ take_all cl (x ∷ d)

given_body :
    (handler : Bool) (cl n : ℕ) (buf u s : Bytes)
    → buf ++ u ≡ s
    → n ≤ length buf
    → (if handler
        then joined (
            if handler && not (is_nil (drop n buf))
            then take (min (length (drop n buf)) cl) (drop n buf) ∷ []
            else [])
          ++ take (cl - length (drop n buf)) u
        else joined (
            if handler && not (is_nil (drop n buf))
            then take (min (length (drop n buf)) cl) (drop n buf) ∷ []
            else []))
      ≡ (if handler then take cl (drop n s) else [])
given_body false cl n buf u s e h = refl
given_body true cl n buf u s e h =
    ap (λ x. x ++ take (cl - length (drop n buf)) u) (joined_first true cl (drop n buf))
    ∙ sym (take-append_sub cl (drop n buf) u)
    ∙ ap (take cl) (sym (drop-append_le n buf u h) ∙ ap (drop n) e)

response-whole :
    (r : Request) (view head : Bytes) (n cl : ℕ) (buf u s : Bytes)
    → buf ++ u ≡ s
    → n ≤ length buf
    → parse_content_length head ≡ cl
    → response_of r view n cl
        (if r.store_response_body then buf ++ take (cl - length (drop n buf)) u else buf)
      ≡ whole_response r view head n s
unfolding response_of
response-whole r view head n cl buf u s e h c = rw c (
    ap
      (λ (b : Bytes). record empty_response {
        status = parse_http_status_code view;
        http_version = 1;
        headers = if r.store_response_headers then append_response_headers view else [];
        body = b;
      })
      (stored_body r.store_response_body cl n buf u s e h))

-- The text has outgrown its storage just when the whole answer does not fit.
outgrown_lem :
    (store : Bool) (room cl n : ℕ) (buf u : Bytes)
    → length buf ≤ room
    → n ≤ length buf
    → cl - length (drop n buf) ≤ length u
    → ltb room (length (if store then buf ++ take (cl - length (drop n buf)) u else buf))
      ≡ (store && ltb room (n + cl))
outgrown_lem false room cl n buf u c h k = ground (arith, c)
outgrown_lem true room cl n buf u c h k =
    let rest = take (cl - length (drop n buf)) u in
    let size : length (buf ++ rest) ≡ length buf + (cl - (length buf - n)) = omega (
      arith,
      length-append buf rest,
      length-take (cl - length (drop n buf)) u,
      length-drop n buf,
      k,
    ) in
    elim (Bool-cases (ltb room (n + cl))) [
      | inl e ↦ rw (size, e) (ground (arith, e, c, h))
      | inr e ↦ rw (size, e) (ground (arith, e, c, h))
    ]

abbrev body_start : Head → ℕ
body_start h = 4 + h.header_end

abbrev head_length : Head → ℕ
head_length h = parse_content_length (take (body_start h) h.read_buf)

missing :
    (cl have n : ℕ) (buf u s : Bytes)
    → buf ++ u ≡ s
    → n ≤ length buf
    → have ≡ length (drop n buf)
    → cl ≤ length (drop n s)
    → cl - have ≤ length u
missing cl have n buf u s e h k fits =
    let rest = ap length (ap (drop n) (sym e) ∙ drop-append_le n buf u h) in
    omega (arith, rest, k, fits, length-append (drop n buf) u)

-- The rest of the stream, as a rest of the whole text.
left_over : (n j : ℕ) (buf u s : Bytes) → buf ++ u ≡ s → drop j u ≡ drop (length buf + j) s
left_over n j buf u s e =
    ap (drop j) (sym (drop-append buf u) ∙ ap (drop (length buf)) e)
    ∙ sym (drop-add (length buf) j s)

exchange_body-IsWhole :
    (m : Storage) (r : Request) (h : Head) (s : Bytes)
    → length h.read_buf ≤ h.capacity
    → h.read_buf ++ h.unread ≡ s
    → body_start h ≤ length h.read_buf
    → All IsGot h.reads
    → length h.unread ≤ length h.reads
    → head_length h ≤ length (drop (body_start h) s)
    → (x : Exchanged) × (exchange_body m r h ≡ ok x)
      × IsWhole r
          (shown m r h.capacity (take (body_start h) h.read_buf) (body_start h))
          (take (body_start h) h.read_buf)
          (body_start h)
          s
          x
unfolding exchange_body first_chunk view_of
exchange_body-IsWhole m r h s room e enough g l fits =
    let n = body_start h in
    let buf = h.read_buf in
    let cl = head_length h in
    let have = length (drop n buf) in
    let few = missing cl have n buf h.unread s e enough refl fits in
    let (b, eq, reads) =
      read_body-Reads r.store_response_body (is_some r.on_body_chunk) cl h.reads
        (first_chunk (is_some r.on_body_chunk) cl h) g few (omega (arith, few, l)) in
    (
      record {
        response =
            response_of r (view_of m h.capacity (length b.read_buf) (take n buf)) n cl b.read_buf;
        chunks = b.chunks;
        unread = b.unread;
      },
      rw eq refl,
      record {
        response =
            ap (λ t. response_of r (view_of m h.capacity (length t) (take n buf)) n cl t)
              reads.read_buf
            ∙ ap
                (λ (b : Bool).
                  response_of r (if b then m.stale (take n buf) else take n buf) n cl
                    (if r.store_response_body then buf ++ take (cl - have) h.unread else buf))
                (outgrown_lem r.store_response_body h.capacity cl n buf h.unread room enough few)
            ∙ response-whole r (shown m r h.capacity (take n buf) n) (take n buf) n cl buf h.unread
                s e enough refl;
        chunks = reads.chunks ∙ given_body (is_some r.on_body_chunk) cl n buf h.unread s e enough;
        unread = (
          length buf + (cl - have),
          omega (arith, enough, length-drop n buf),
          reads.unread ∙ left_over n (cl - have) buf h.unread s e,
        );
      },
    )

-- When the server sends an answer whose head, of at most 65536 bytes, ends at `end`, with all of the body
-- that it announces, in whatever pieces, the exchange returns a response with the bytes of the body, if
-- they are wanted. A handler is given just these bytes, in order, and what is left on the stream starts at
-- the end of the body or behind it. The status and the header lines are those of the head, as one text, if
-- the body is not stored or the answer fits the capacity that the buffer has behind the head; otherwise
-- they are read from storage that was given up. An append takes the storage that it needs.
pub exchange_reads-IsWhole :
    (m : Storage) (r : Request) (rs : List Read) (s : Bytes) (end : ℕ)
    → IsStorage m
    → All IsGot rs
    → length s ≤ length rs
    → find_text crlf_twice s ≡ some end
    → 4 + end ≤ 65536
    → parse_content_length (take (4 + end) s) ≤ length (drop (4 + end) s)
    → (h : Head) × (x : Exchanged) × (read_headers m m.capacity rs s [] ≡ ok h)
      × (exchange_reads m r rs s ≡ ok x)
      × (m.capacity ≤ h.capacity)
      × (4 + end ≤ h.capacity)
      × IsWhole r
          (shown m r h.capacity (take (4 + end) s) (4 + end))
          (take (4 + end) s)
          (4 + end)
          s
          x
unfolding exchange_reads
exchange_reads-IsWhole m r rs s end v g l f small fits =
    let (h, eq, found) =
      read_headers-Finds m m.capacity rs s [] end v (omega arith) g l
        (unfold find_text starts_with in refl) f small in
    let start : body_start h ≡ 4 + end = ap (λ (x : ℕ). 4 + x) found.header_end in
    let head : take (body_start h) h.read_buf ≡ take (4 + end) s =
      ap (λ (x : ℕ). take x h.read_buf) start
      ∙ sym (take-append_le (4 + end) h.read_buf h.unread found.enough)
      ∙ ap (take (4 + end)) found.parts in
    let fits' : head_length h ≤ length (drop (body_start h) s) = rw (head, start) fits in
    let (x, eq', whole) =
      exchange_body-IsWhole m r h s found.room found.parts (omega (arith, start, found.enough))
        found.got found.left fits' in
    (
      h,
      x,
      eq,
      rw eq eq',
      found.kept,
      omega (arith, found.enough, found.room),
      subst (λ t. IsWhole r (shown m r h.capacity t (4 + end)) t (4 + end) s x) head
          (subst
            (λ (n : ℕ).
              IsWhole r (shown m r h.capacity (take (body_start h) h.read_buf) n)
                (take (body_start h) h.read_buf) n s x)
            start whole),
    )
