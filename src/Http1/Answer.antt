-- ===== src/Http1/Answer.antt =====
-- The exchange on an answer that is written out from its parts.
use http_client.Prelude.{
  ℕ, ◌+◌, ◌*◌, ◌≡◌, ◌≤◌, ◌<◌, refl, sym, subst, ap, ◌∙◌, ◌⊎◌, inl, inr, Bool, true, false, ◌&&◌,
  ltb, List, [], ◌∷◌, ◌++◌, Bytes, map, take, drop, length, arith, append_assoc, All, length-append,
  take-append, drop-append, drop-append_cons, ok, if◌then◌else◌, is_some,
}
use http_client.Text.{Lacks, find_text, to_lower, is_space}
use http_client.Text.Append.{joined}
use http_client.Text.Search.{find-append}
use http_client.Request.{Request}
use http_client.Response.{Response, empty_response}
use http_client.Proxy.{parse_http_status_code, status_digits, is_digit}
use http_client.Proxy.Connect.{crlf, crlf_twice}
use http_client.Http1.{parse_content_length, text_of, size_modulus, length_name}
use http_client.Http1.Exchange.{Storage, Read, Exchanged, exchange_reads}
use http_client.Http1.Body.{IsGot}
use http_client.Http1.Lines.{IsLine, head_text, find_text-head, append_response_headers-head_text}
use http_client.Http1.Fields.{HasNoLength, length_field, parse_content_length-field}
use http_client.Http1.Heads.{IsStorage}
use http_client.Http1.Whole.{IsWhole, shown, exchange_reads-IsWhole}

-- A status line with the three digits of the code.
abbrev pub status_line : Bytes → ℕ → ℕ → ℕ → Bytes → Bytes
status_line version a b c reason = version ++ 32 ∷ (b'0' + a) ∷ (b'0' + b) ∷ (b'0' + c) ∷ reason

status_digits-code :
    (a b c : ℕ) (rest : Bytes)
    → a < 10
    → b < 10
    → c < 10
    → status_digits ((b'0' + a) ∷ (b'0' + b) ∷ (b'0' + c) ∷ rest) ≡ a * 100 + b * 10 + c
unfolding status_digits
status_digits-code a b c rest ha hb hc = ground arith

pub parse_status-line :
    (version reason t : Bytes) (a b c : ℕ)
    → Lacks 32 version
    → a < 10
    → b < 10
    → c < 10
    → parse_http_status_code (status_line version a b c reason ++ t) ≡ a * 100 + b * 10 + c
unfolding parse_http_status_code
parse_status-line version reason t a b c h ha hb hc =
    let code = (b'0' + a) ∷ (b'0' + b) ∷ (b'0' + c) ∷ (reason ++ t) in
    let e : status_line version a b c reason ++ t ≡ version ++ 32 ∷ code =
      append_assoc version (32 ∷ (b'0' + a) ∷ (b'0' + b) ∷ (b'0' + c) ∷ reason) t in
    rw e (
      rw (parse_http_status_code, find-append 32 version code h)
        (ap status_digits (drop-append_cons version code 32)
          ∙ status_digits-code a b c (reason ++ t) ha hb hc))

head_text-append :
    (first : Bytes) (lines : List Bytes) (t : Bytes)
    → head_text first lines ++ t ≡ first ++ (crlf ++ (text_of lines ++ (crlf ++ t)))
head_text-append first lines t =
    append_assoc first (crlf ++ (text_of lines ++ crlf)) t
    ∙ ap (λ x. first ++ (crlf ++ x)) (append_assoc (text_of lines) crlf t)

length-head_text :
    (first : Bytes) (lines : List Bytes)
    → 4 + (length first + length (text_of lines)) ≡ length (head_text first lines)
length-head_text first lines = omega (
  arith,
  length-append first (crlf ++ (text_of lines ++ crlf)),
  length-append (text_of lines) crlf,
)

pub text_of-append : (xs ys : List Bytes) → text_of (xs ++ ys) ≡ text_of xs ++ text_of ys
text_of-append [] ys = refl
text_of-append (x ∷ xs) ys =
    ap (λ t. x ++ (crlf ++ t)) (text_of-append xs ys)
    ∙ sym (append_assoc x (crlf ++ text_of xs) (text_of ys))

-- The head as the fields before the length, the length, and the rest.
head_text-field :
    (first : Bytes) (before after : List Bytes) (field : Bytes)
    → head_text first (before ++ field ∷ after)
      ≡ first ++ (crlf ++ (text_of before ++ (field ++ (crlf ++ (text_of after ++ crlf)))))
head_text-field first before after field =
    ap (λ t. first ++ (crlf ++ (t ++ crlf))) (text_of-append before (field ∷ after))
    ∙ ap (λ t. first ++ (crlf ++ t))
        (append_assoc (text_of before) (text_of (field ∷ after)) crlf
          ∙ ap (◌++◌ (text_of before)) (append_assoc field (crlf ++ text_of after) crlf))

-- The head announces `n` bytes.
pub head_text-length :
    (first : Bytes) (before after : List Bytes) (name pad : Bytes) (n : ℕ)
    → Lacks 13 first
    → All HasNoLength before
    → map to_lower name ≡ length_name
    → All (λ c. is_space c ≡ true) pad
    → n < size_modulus
    → parse_content_length (head_text first (before ++ length_field name pad n ∷ after)) ≡ n
head_text-length first before after name pad n h a q sp small =
    ap parse_content_length (head_text-field first before after (length_field name pad n))
    ∙ parse_content_length-field first before name pad (crlf ++ (text_of after ++ crlf)) n h a q sp
        small (unfold is_digit in refl)

-- The view of a head of `n` bytes stays good while `cl` bytes of a body are read.
abbrev pub Fits : Storage → Request → ℕ → ℕ → Type 0
Fits m r n cl =
    (room : ℕ) → m.capacity ≤ room → n ≤ room → (r.store_response_body && ltb room (n + cl)) ≡ false

stored-Fits :
    (m : Storage) (r : Request) (n cl : ℕ)
    → (r.store_response_body ≡ false) ⊎ (n + cl ≤ m.capacity)
    → Fits m r n cl
stored-Fits m r n cl (inl e) room h k = rw e refl
stored-Fits m r n cl (inr e) room h k = ground (arith, e, h)

-- What the exchange returns for a head and a body whose length the head announces.
pub exchange_reads-head_text :
    (m : Storage) (r : Request) (rs : List Read) (first : Bytes) (lines : List Bytes)
    (body rest : Bytes)
    → IsStorage m
    → Fits m r (length (head_text first lines)) (length body)
    → All IsGot rs
    → length (head_text first lines ++ (body ++ rest)) ≤ length rs
    → Lacks 13 first
    → All IsLine lines
    → length (head_text first lines) ≤ 65536
    → parse_content_length (head_text first lines) ≡ length body
    → (x : Exchanged) × (exchange_reads m r rs (head_text first lines ++ (body ++ rest)) ≡ ok x)
      × IsWhole r
          (head_text first lines)
          (head_text first lines)
          (length (head_text first lines))
          (head_text first lines ++ (body ++ rest))
          x
exchange_reads-head_text m r rs first lines body rest v fit g l h a small cl =
    let head = head_text first lines in
    let s = head ++ (body ++ rest) in
    let end = length first + length (text_of lines) in
    let start : 4 + end ≡ length head = length-head_text first lines in
    let top : take (4 + end) s ≡ head =
      ap (λ (k : ℕ). take k s) start ∙ take-append head (body ++ rest) in
    let behind : drop (4 + end) s ≡ body ++ rest =
      ap (λ (k : ℕ). drop k s) start ∙ drop-append head (body ++ rest) in
    let found =
      ap (find_text crlf_twice) (head_text-append first lines (body ++ rest))
      ∙ find_text-head first lines (body ++ rest) h a in
    let fits : parse_content_length (take (4 + end) s) ≤ length (drop (4 + end) s) =
      rw (top, behind) (omega (arith, cl, length-append body rest)) in
    let (first_loop, x, _, eq, kept, room, whole) =
      exchange_reads-IsWhole m r rs s end v g l found (omega (arith, start, small)) fits in
    let view : shown m r first_loop.capacity head (length head) ≡ head =
      ap (λ (b : Bool). if b then m.stale head else head)
        (ap (λ (k : ℕ). r.store_response_body && ltb first_loop.capacity (length head + k)) cl
          ∙ fit first_loop.capacity kept (omega (arith, start, room))) in
    (
      x,
      eq,
      subst (λ t. IsWhole r t head (length head) s x) view
          (subst (λ (k : ℕ). IsWhole r (shown m r first_loop.capacity head k) head k s x) start
            (subst (λ t. IsWhole r (shown m r first_loop.capacity t (4 + end)) t (4 + end) s x) top
              whole)),
    )

-- The body of the whole response is the body that was sent.
body_read :
    (head body rest : Bytes)
    → parse_content_length head ≡ length body
    → take (parse_content_length head) (drop (length head) (head ++ (body ++ rest))) ≡ body
body_read head body rest cl =
    ap (take (parse_content_length head)) (drop-append head (body ++ rest))
    ∙ ap (λ (k : ℕ). take k (body ++ rest)) cl
    ∙ take-append body rest

-- The response that stands for the parts.
abbrev pub answer_response : Request → ℕ → List Bytes → Bytes → Response
answer_response r status lines body = record empty_response {
  status = status;
  http_version = 1;
  headers = if r.store_response_headers then lines else [];
  body = if r.store_response_body then body else [];
}

-- The parts of an answer: the status line with the digits of its code, the header lines before the
-- length, the name and the white space of the length, the lines behind it, and the body.
pub record Answer : Type 0 where
  pub version : Bytes
  pub a : ℕ
  pub b : ℕ
  pub c : ℕ
  pub reason : Bytes
  pub before : List Bytes
  pub name : Bytes
  pub pad : Bytes
  pub after : List Bytes
  pub body : Bytes

abbrev pub first_of : Answer → Bytes
first_of m = status_line m.version m.a m.b m.c m.reason

abbrev pub lines_of : Answer → List Bytes
lines_of m = m.before ++ length_field m.name m.pad (length m.body) ∷ m.after

abbrev pub answer_text : Answer → Bytes
answer_text m = head_text (first_of m) (lines_of m)

-- The parts are what their names say, and none breaks out of its line.
pub record IsAnswer (m : Answer) : Type 0 where
  pub digit_a : m.a < 10
  pub digit_b : m.b < 10
  pub digit_c : m.c < 10
  pub version : Lacks 32 m.version
  pub first : Lacks 13 (first_of m)
  pub before : All HasNoLength m.before
  pub name : map to_lower m.name ≡ length_name
  pub pad : All (λ x. is_space x ≡ true) m.pad
  pub lines : All IsLine (lines_of m)
  pub body : length m.body < size_modulus
  pub head : length (answer_text m) ≤ 65536

-- A server's answer is read back from its parts. The answer is a status line with a three-digit code,
-- header lines of which the first that is named Content-Length, in any case of letters, gives the
-- length of the body, the body, and whatever the server sends behind it; the head has at most 65536
-- bytes, and all arrives in any pieces. Then, if the body is not stored or head and body fit the capacity
-- that the buffer has at the start, the exchange returns the code, the header lines and the body, as far
-- as the request wants them stored, and the chunks given to a handler are together the body. An append
-- takes the storage that it needs.
pub exchange_reads-answer :
    (b : Storage) (r : Request) (rs : List Read) (m : Answer) (rest : Bytes)
    → IsStorage b
    → (r.store_response_body ≡ false) ⊎ (length (answer_text m) + length m.body ≤ b.capacity)
    → IsAnswer m
    → All IsGot rs
    → length (answer_text m ++ (m.body ++ rest)) ≤ length rs
    → (x : Exchanged) × (exchange_reads b r rs (answer_text m ++ (m.body ++ rest)) ≡ ok x)
      × (x.response ≡ answer_response r (m.a * 100 + m.b * 10 + m.c) (lines_of m) m.body)
      × (joined x.chunks ≡ (if is_some r.on_body_chunk then m.body else []))
exchange_reads-answer b r rs m rest i fit v g l =
    let first = first_of m in
    let lines = lines_of m in
    let cl =
      head_text-length first m.before m.after m.name m.pad (length m.body) v.first v.before v.name
        v.pad v.body in
    let (x, eq, whole) =
      exchange_reads-head_text b r rs first lines m.body rest i
        (stored-Fits b r (length (answer_text m)) (length m.body) fit) g l v.first v.lines v.head
        cl in
    let status =
      parse_status-line m.version m.reason (crlf ++ (text_of lines ++ crlf)) m.a m.b m.c v.version
        v.digit_a v.digit_b v.digit_c in
    let same = body_read (head_text first lines) m.body rest cl in
    (
      x,
      eq,
      whole.response
          ∙ rw (status, append_response_headers-head_text first lines v.first v.lines, same) refl,
      whole.chunks ∙ ap (λ t. if is_some r.on_body_chunk then t else []) same,
    )
