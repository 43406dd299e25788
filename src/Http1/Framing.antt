-- ===== src/Http1/Framing.antt =====
-- The request that the exchange writes, as its reader sees it.
use http_client.Prelude.{
  ℕ, suc, ◌≡◌, ◌≢◌, refl, sym, subst, ap, ◌∙◌, inl, inr, Bool, true, false, ◌&&◌, ◌||◌, not, List,
  [], ◌∷◌, ◌++◌, Bytes, codes, map, take, drop, is_nil, arith, append_assoc, All, All-append,
  All-append_left, All-append_right, take-append-drop, Bool-cases, Option-cases, if◌then◌else◌,
  if-both, length-append,
}
use http_client.Text.{
  Lacks, find, starts_with, to_lower, trim_front, is_space, bytes_eq, bytes_eq_refl,
}
use http_client.Text.Search.{find-some, find-none}
use http_client.Headers.{split_header_view, header_name_equal, lower_copy}
use http_client.Headers.Laws.{header_name_equal-lower_copy}
use http_client.Request.{Request, body_view}
use http_client.Proxy.Connect.{crlf}
use http_client.Http1.{
  Http1Url, absolute_uri, is_own, written_line, written_headers, has_named, standard_headers,
  length_line, connection_line, request_line, head_lines, text_of, request_head, is_length_line,
  length_name,
}
use http_client.Http1.Lines.{IsLine, head_text}
use http_client.Http1.Fields.{map-append_lower}
use http_client.Http1.Answer.{text_of-append}

-- A text without `:` in front of one is all of the name.
before_colon :
    (p q rest : Bytes)
    → Lacks b':' p
    → Lacks b':' q
    → starts_with (p ++ b':' ∷ []) (q ++ b':' ∷ rest) ≡ true
    → p ≡ q
unfolding starts_with
before_colon [] [] rest hp hq h = refl
before_colon [] (y ∷ q) rest hp hq h = absurd (hq.0 (ground arith))
before_colon (x ∷ p) [] rest hp hq h = absurd (hp.0 (ground arith))
before_colon (x ∷ p) (y ∷ q) rest hp hq h = ground (arith, before_colon p q rest)

lower-Lacks : (s : Bytes) → Lacks b':' s → Lacks b':' (map to_lower s)
unfolding to_lower
lower-Lacks [] h = tt
lower-Lacks (x ∷ s) (hx, h) = (λ e. ground (arith, hx), lower-Lacks s h)

named_length :
    (name : Bytes)
    → codes "content-length" ≡ map to_lower name
    → header_name_equal name (codes "content-length") ≡ true
unfolding lower_copy to_lower
named_length name e =
    header_name_equal-lower_copy name (codes "content-length")
    ∙ ap (λ t. bytes_eq t (codes "content-length")) (sym e)
    ∙ bytes_eq_refl (codes "content-length")

no_colon_name :
    (name rest : Bytes)
    → Lacks b':' name
    → starts_with length_name (map to_lower name ++ to_lower b':' ∷ rest) ≡ true
    → codes "content-length" ≡ map to_lower name
unfolding to_lower
no_colon_name name rest h e =
    before_colon (codes "content-length") (map to_lower name) rest (omega arith)
      (lower-Lacks name h) e

-- A line with another name is no length.
written_line-no_length :
    (name value : Bytes)
    → Lacks b':' name
    → header_name_equal name (codes "content-length") ≡ false
    → is_length_line (written_line (name, value)) ≡ false
unfolding is_length_line written_line
written_line-no_length name value h n =
    elim (Bool-cases (is_length_line (written_line (name, value)))) [
      | inr e ↦ e
      | inl e ↦
          let starts : starts_with length_name
                (map to_lower name ++ to_lower b':' ∷ map to_lower (32 ∷ value))
              ≡ true =
            ap (starts_with length_name) (sym (map-append_lower name (b':' ∷ 32 ∷ value))) ∙ e in
          let same = no_colon_name name (map to_lower (32 ∷ value)) h starts in
          let named = named_length name same in cc
    ]

-- What holds of all bytes of a line holds of those of its parts.
All-take : (P : ℕ → Type 0) (n : ℕ) (s : Bytes) → All P s → All P (take n s)
All-take P n s h =
    All-append_left P (take n s) (drop n s) (subst (All P) (sym (take-append-drop n s)) h)

All-drop : (P : ℕ → Type 0) (n : ℕ) (s : Bytes) → All P s → All P (drop n s)
All-drop P n s h =
    All-append_right P (take n s) (drop n s) (subst (All P) (sym (take-append-drop n s)) h)

All-trim_front : (P : ℕ → Type 0) (s : Bytes) → All P s → All P (trim_front s)
unfolding trim_front
All-trim_front P [] h = tt
All-trim_front P (x ∷ s) h =
    if-both (All P) (is_space x) (trim_front s) (x ∷ s) (λ _. All-trim_front P s h.1) (λ _. h)

-- The name of a header line has no `:`, and neither part a byte that the line lacks.
split-Lacks :
    (line : Bytes)
    → Lacks 13 line
    → Lacks b':' (split_header_view line).0
      × Lacks 13 (split_header_view line).0
      × Lacks 13 (split_header_view line).1
unfolding split_header_view
split-Lacks line h = elim (Option-cases (find b':' line)) [
  | inl e ↦ rw (split_header_view, e) (find-none b':' line e, h, tt)
  | inr (i, e) ↦
      rw (split_header_view, e)
        (
          (find-some b':' line i e).0,
          All-take (λ b. b ≢ 13) i line h,
          All-trim_front (λ b. b ≢ 13) (drop (suc i) line) (All-drop (λ b. b ≢ 13) (suc i) line h),
        )
]

-- A line of the head that holds no length.
abbrev pub IsPlainLine : Bytes → Type 0
IsPlainLine line = IsLine line × (is_length_line line ≡ false)

written_line-IsPlainLine :
    (name value : Bytes)
    → Lacks b':' name
    → Lacks 13 name
    → Lacks 13 value
    → is_own name ≡ false
    → IsPlainLine (written_line (name, value))
unfolding is_own written_line
written_line-IsPlainLine name value colon n v own = (
  (
    All-append (λ b. b ≢ 13) name (b':' ∷ 32 ∷ value) n (omega arith, (omega arith, v)),
    omega (arith, length-append name (b':' ∷ 32 ∷ value)),
  ),
  written_line-no_length name value colon (ground arith),
)

written_headers-IsPlainLine :
    (lines : List Bytes) → All (Lacks 13) lines → All IsPlainLine (written_headers lines)
unfolding written_headers
written_headers-IsPlainLine [] h = tt
written_headers-IsPlainLine (line ∷ lines) (hl, h) =
    let parts = split-Lacks line hl in
    let rest = written_headers-IsPlainLine lines h in
    if-both (All IsPlainLine) (is_own (split_header_view line).0) (written_headers lines)
      (written_line (split_header_view line) ∷ written_headers lines) (λ _. rest)
      (λ own. (
        written_line-IsPlainLine (split_header_view line).0 (split_header_view line).1 parts.0
            parts.1 parts.2 own,
        rest,
      ))

standard_headers-IsPlainLine : (headers : List Bytes) → All IsPlainLine (standard_headers headers)
unfolding standard_headers is_length_line starts_with to_lower
standard_headers-IsPlainLine headers =
    All-append IsPlainLine
      (if has_named (codes "user-agent") headers
        then []
        else codes "User-Agent: httpclient-asio-light" ∷ [])
      (if has_named (codes "accept") headers then [] else codes "Accept: */*" ∷ [])
      (if-both (All IsPlainLine) (has_named (codes "user-agent") headers) []
        (codes "User-Agent: httpclient-asio-light" ∷ []) (λ _. tt)
        (λ _. (((omega arith, omega arith), refl), tt)))
      (if-both (All IsPlainLine) (has_named (codes "accept") headers) [] (codes "Accept: */*" ∷ [])
        (λ _. tt) (λ _. (((omega arith, omega arith), refl), tt)))

host_line-IsPlainLine : (host : Bytes) → Lacks 13 host → IsPlainLine (codes "Host: " ++ host)
unfolding is_length_line starts_with to_lower
host_line-IsPlainLine host h =
    ((All-append (λ b. b ≢ 13) (codes "Host: ") host (omega arith) h, omega arith), refl)

pub connection_line-IsPlainLine : IsPlainLine connection_line
unfolding is_length_line starts_with to_lower
connection_line-IsPlainLine = ((omega arith, omega arith), refl)

-- No text that goes into the head holds a carriage return.
pub record IsOneLine (u : Http1Url) (r : Request) : Type 0 where
  pub method : Lacks 13 r.method
  pub scheme : Lacks 13 u.scheme
  pub host : Lacks 13 u.host
  pub port : Lacks 13 u.port
  pub target : Lacks 13 u.target
  pub headers : All (Lacks 13) r.headers

pub Lacks-append : (s t : Bytes) → Lacks 13 s → Lacks 13 t → Lacks 13 (s ++ t)
Lacks-append s t hs ht = All-append (λ b. b ≢ 13) s t hs ht

absolute_uri-Lacks : (u : Http1Url) (r : Request) → IsOneLine u r → Lacks 13 (absolute_uri u)
unfolding absolute_uri
absolute_uri-Lacks u r v =
    let plain =
      (u.tls && bytes_eq u.port (codes "443")) || (not u.tls && bytes_eq u.port (codes "80")) in
    let port = if-both (Lacks 13) plain [] (b':' ∷ u.port) (λ _. tt) (λ _. (omega arith, v.port)) in
    Lacks-append u.scheme _ v.scheme (
      Lacks-append (codes "://") _ (omega arith) (
        Lacks-append u.host _ v.host
          (Lacks-append (if plain then [] else b':' ∷ u.port) u.target port v.target)))

pub request_line-Lacks :
    (u : Http1Url) (absolute_target : Bool) (r : Request)
    → IsOneLine u r
    → Lacks 13 (request_line u absolute_target r)
unfolding request_line
request_line-Lacks u absolute_target r v =
    Lacks-append (if is_nil r.method then codes "GET" else r.method) _
      (if-both (Lacks 13) (is_nil r.method) (codes "GET") r.method (λ _. omega arith)
        (λ _. v.method))
      (
        omega arith,
        Lacks-append (if absolute_target then absolute_uri u else u.target) (codes " HTTP/1.1")
            (if-both (Lacks 13) absolute_target (absolute_uri u) u.target
              (λ _. absolute_uri-Lacks u r v) (λ _. v.target))
            (omega arith),
      )

-- The lines in front of the length.
pub plain_lines : Http1Url → Request → List Bytes
plain_lines u r =
    (codes "Host: " ++ u.host) ∷ (standard_headers r.headers ++ written_headers r.headers)

pub plain_lines-IsPlainLine :
    (u : Http1Url) (r : Request) → IsOneLine u r → All IsPlainLine (plain_lines u r)
unfolding plain_lines
plain_lines-IsPlainLine u r v = (
  host_line-IsPlainLine u.host v.host,
  All-append IsPlainLine (standard_headers r.headers) (written_headers r.headers)
      (standard_headers-IsPlainLine r.headers) (written_headers-IsPlainLine r.headers v.headers),
)

pub head_lines-plain :
    (u : Http1Url) (r : Request) → head_lines u r ≡ plain_lines u r ++ length_line (body_view r)
unfolding head_lines plain_lines
head_lines-plain u r = ap (◌∷◌ (codes "Host: " ++ u.host)) (
    sym (
      append_assoc (standard_headers r.headers) (written_headers r.headers)
        (length_line (body_view r))))

pub request_head-head_text :
    (u : Http1Url) (absolute_target : Bool) (r : Request)
    → request_head u absolute_target r
      ≡ head_text (request_line u absolute_target r) (head_lines u r ++ connection_line ∷ [])
unfolding request_head
request_head-head_text u absolute_target r =
    ap (λ t. request_line u absolute_target r ++ (crlf ++ t))
      (sym (append_assoc (text_of (head_lines u r)) (connection_line ++ crlf) crlf)
        ∙ ap (λ t. t ++ crlf) (sym (text_of-append (head_lines u r) (connection_line ∷ []))))
