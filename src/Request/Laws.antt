-- ===== src/Request/Laws.antt =====
-- What the members of `Request` and the builder leave behind.
use http_client.Prelude.{
  ℕ, ◌<◌, ◌≡◌, refl, ◌∙◌, ◌↔◌, true, false, not, List, [], ◌∷◌, ◌++◌, none, some, Bytes, codes,
  ◌==◌, length, arith, length-remove_if,
}
use http_client.Text.{Lacks, trim_front, find, to_lower, is_space}
use http_client.Headers.{
  find_header, find_headers, remove_lines, header_line, header_name_equal, is_named,
  split_header_view, set_line,
}
use http_client.Headers.Laws.{
  split_header_view-header_line, is_named-header_line, find_header-append, find_header-remove,
  find_header-remove_other, find_headers-remove, find_headers-append, header_name_equal_self,
}
use http_client.Request.{
  Request, header, set_header, remove_header, set_body, set_shared_body, body_view, body_size,
  has_body, set_content_type,
}
use http_client.Request.Builder.{json, post}

set_header-headers :
    (name value : Bytes) (r : Request)
    → (set_header name value r).headers ≡ set_line name value r.headers
unfolding set_header set_line
set_header-headers name value r = refl

find_header-line :
    (name other value : Bytes)
    → Lacks b':' name
    → header_name_equal name other ≡ true
    → find_header other (header_line name value ∷ []) ≡ some (trim_front value)
unfolding find_header
find_header-line name other value h e =
    rw (is_named-header_line name other value h, e, split_header_view-header_line name value h)

find_header-line_other :
    (name other value : Bytes)
    → Lacks b':' name
    → header_name_equal name other ≡ false
    → find_header other (header_line name value ∷ []) ≡ none
unfolding find_header
find_header-line_other name other value h e = rw (is_named-header_line name other value h, e)

find_header-snoc_other :
    (name : Bytes) (xs ys : List Bytes)
    → find_header name ys ≡ none
    → find_header name (xs ++ ys) ≡ find_header name xs
unfolding find_header
find_header-snoc_other name [] ys e = e
find_header-snoc_other name (x ∷ xs) ys e = ground (arith, find_header-snoc_other name xs ys e)

find_headers-line :
    (name value : Bytes)
    → Lacks b':' name
    → find_headers name (header_line name value ∷ []) ≡ trim_front value ∷ []
unfolding find_headers
find_headers-line name value h = rw (
  is_named-header_line name name value h,
  header_name_equal_self name,
  split_header_view-header_line name value h,
)

find_header-set_line :
    (name value : Bytes) (lines : List Bytes)
    → Lacks b':' name
    → find_header name (set_line name value lines) ≡ some (trim_front value)
unfolding set_line
find_header-set_line name value lines h =
    find_header-append name (remove_lines name lines) _ (find_header-remove name lines)
    ∙ find_header-line name name value h (header_name_equal_self name)

find_headers-set_line :
    (name value : Bytes) (lines : List Bytes)
    → Lacks b':' name
    → find_headers name (set_line name value lines) ≡ trim_front value ∷ []
unfolding set_line
find_headers-set_line name value lines h =
    rw
      (
        find_headers-append name (remove_lines name lines) (header_line name value ∷ []),
        find_headers-remove name lines,
      )
      (find_headers-line name value h)

find_header-set_line_other :
    (name value other : Bytes) (lines : List Bytes)
    → Lacks b':' name
    → header_name_equal name other ≡ false
    → find_header other (set_line name value lines) ≡ find_header other lines
unfolding set_line
find_header-set_line_other name value other lines h d =
    find_header-snoc_other other (remove_lines name lines) (header_line name value ∷ [])
      (find_header-line_other name other value h d)
    ∙ find_header-remove_other name other lines d

-- For a name without a `:`: after `set_header` the value is found, without its leading white space, the
-- line is the only one of that name, and the headers of every other name are as they were.
pub header-set_header :
    (name value : Bytes) (r : Request)
    → Lacks b':' name
    → (header name (set_header name value r) ≡ some (trim_front value))
      × (find_headers name (set_header name value r).headers ≡ trim_front value ∷ [])
      × ((other : Bytes)
          → header_name_equal name other ≡ false
          → header other (set_header name value r) ≡ header other r)
unfolding header
header-set_header name value r h =
    rw (header, set_header-headers name value r)
      (
        find_header-set_line name value r.headers h,
        find_headers-set_line name value r.headers h,
        λ other d. find_header-set_line_other name value other r.headers h d,
      )

remove_lines-none :
    (name : Bytes) (lines : List Bytes)
    → (find_header name lines ≡ none) ↔ (length (remove_lines name lines) ≡ length lines)
unfolding find_header remove_lines
remove_lines-none name [] = (λ e. refl, λ e. refl)
remove_lines-none name (x ∷ xs) =
    let ih = remove_lines-none name xs in
    let le = length-remove_if (is_named name) xs in
    (λ e. ground (arith, ih.0, le), λ e. ground (arith, ih.1, le))

not_eq_iff : (a b : ℕ) → (not (a == b) ≡ false) ↔ (a ≡ b)
not_eq_iff a b = ground arith

-- `remove_header` leaves no line of the name, keeps the headers of every other name, and returns true
-- exactly when there was such a line.
pub header-remove_header :
    (name : Bytes) (r : Request)
    → (header name (remove_header name r).0 ≡ none)
      × ((other : Bytes)
          → header_name_equal name other ≡ false
          → header other (remove_header name r).0 ≡ header other r)
      × (((remove_header name r).1 ≡ false) ↔ (header name r ≡ none))
unfolding header remove_header
header-remove_header name r = (
  find_header-remove name r.headers,
  λ other d. find_header-remove_other name other r.headers d,
  let test = not_eq_iff (length (remove_lines name r.headers)) (length r.headers) in
      let gone = remove_lines-none name r.headers in
      (λ e. gone.1 (test.0 e), λ e. test.1 (gone.0 e)),
)

-- The body that a request sends: its own text, or else the shared one.
pub body_view-set_body :
    (text : Bytes) (r : Request)
    → (body_view (set_body text r) ≡ text) × (body_view (set_shared_body (some text) r) ≡ text)
unfolding body_view set_body set_shared_body
body_view-set_body [] r = (refl, refl)
body_view-set_body (c ∷ text) r = (refl, refl)

-- `body_size` is the length of the body that is sent, and `has_body` is true exactly when that is above 0.
pub body_size-body_view :
    (r : Request) → (body_size r ≡ length (body_view r)) × ((has_body r ≡ true) ↔ (0 < body_size r))
unfolding body_view body_size has_body
body_size-body_view r = ground arith

json_body : (url text : Bytes) → body_view (json text (post url)) ≡ text
unfolding json post set_content_type body_view set_body
json_body url [] = refl
json_body url (c ∷ text) = refl

json_type :
    (url text : Bytes)
    → header (codes "content-type") (json text (post url)) ≡ some (codes "application/json")
unfolding json post set_content_type set_body header find_header is_named split_header_view
    header_line header_name_equal remove_lines trim_front find to_lower is_space
json_type url text = refl

-- A request built by `post(url).json(text)` sends the text, with the content type that says so.
pub json_lem :
    (url text : Bytes)
    → (body_view (json text (post url)) ≡ text)
      × (header (codes "content-type") (json text (post url)) ≡ some (codes "application/json"))
json_lem url text = (json_body url text, json_type url text)
