-- ===== src/Policy/Redirect.antt =====
-- What a redirect keeps of a request.
use http_client.Prelude.{
  ℕ, ◌≡◌, refl, ap, ◌∙◌, inl, inr, Bool, true, false, ◌&&◌, [], none, some, Bytes, codes, ok, arith,
  Bool-cases,
}
use http_client.Text.{to_lower}
use http_client.Headers.{header_name_equal, remove_lines}
use http_client.Headers.Laws.{find_header-remove_other, find_header-remove}
use http_client.Request.{Request, header, remove_header, body_view, shared_text}
use http_client.Policy.{
  Transport, PolicyOptions, wants_cookie, attach_cookie, redirected, redirect_changes_to_get,
}

names_differ :
    (header_name_equal (codes "Content-Type") (codes "Cookie") ≡ false)
    × (header_name_equal (codes "Content-Length") (codes "Cookie") ≡ false)
    × (header_name_equal (codes "Content-Type") (codes "Authorization") ≡ false)
    × (header_name_equal (codes "Content-Length") (codes "Authorization") ≡ false)
    × (header_name_equal (codes "Content-Length") (codes "Content-Type") ≡ false)
unfolding header_name_equal to_lower
names_differ = (refl, refl, refl, refl, refl)

-- Without a change of method only the url is new.
redirected_same :
    (current : Request) (status : ℕ) (url : Bytes)
    → redirect_changes_to_get status current.method ≡ false
    → redirected current status url ≡ record current { url = url }
unfolding redirected
redirected_same current status url e = rw (redirected, e)

redirected_get :
    (current : Request) (status : ℕ) (url : Bytes)
    → redirect_changes_to_get status current.method ≡ true
    → redirected current status url ≡ record current {
      url = url;
      method = codes "GET";
      body = [];
      headers =
          remove_lines
            (codes "Content-Length")
            (remove_lines (codes "Content-Type") current.headers);
    }
unfolding redirected remove_header
redirected_get current status url e = rw (redirected, e)

-- Every header but those that describe a body is kept by a redirect, whatever the new url is.
pub header-redirected :
    (name : Bytes) (current : Request) (status : ℕ) (url : Bytes)
    → header_name_equal (codes "Content-Type") name ≡ false
    → header_name_equal (codes "Content-Length") name ≡ false
    → header name (redirected current status url) ≡ header name current
unfolding header
header-redirected name current status url ct cl =
    elim (Bool-cases (redirect_changes_to_get status current.method)) [
      | inr e ↦ ap (header name) (redirected_same current status url e)
      | inl e ↦
          ap (header name) (redirected_get current status url e)
          ∙ find_header-remove_other (codes "Content-Length") name _ cl
          ∙ find_header-remove_other (codes "Content-Type") name _ ct
    ]

-- A request that has a cookie is left alone by the jar.
attach_cookie_present :
    (t : Transport) (o : PolicyOptions) (r : Request) (cookie : Bytes) (w : t.World)
    → header (codes "Cookie") r ≡ some cookie
    → attach_cookie t o r w ≡ ok (r, w)
unfolding attach_cookie
attach_cookie_present t o r cookie w h =
    rw (attach_cookie, wants_cookie, h, no_cookie o.enable_cookie_jar r.use_cookie_jar)
  where
    no_cookie : (a b : Bool) → (a && (b && false)) ≡ false
    no_cookie a b = ground arith

-- The bug: the credentials of the first origin go along to the url of the `Location`, on whatever host
-- it is. The `Authorization` and the `Cookie` of the request that was redirected stand in the next
-- one, and the cookie jar is not asked for those of the new url.
pub redirected_keeps_credentials :
    (t : Transport) (o : PolicyOptions) (current : Request) (status : ℕ) (url cookie : Bytes)
    (w : t.World)
    → header (codes "Cookie") current ≡ some cookie
    → (header (codes "Authorization") (redirected current status url)
        ≡ header (codes "Authorization") current)
      × (header (codes "Cookie") (redirected current status url) ≡ some cookie)
      × (attach_cookie t o (redirected current status url) w
          ≡ ok (redirected current status url, w))
redirected_keeps_credentials t o current status url cookie w h =
    let kept : header (codes "Cookie") (redirected current status url) ≡ some cookie =
      header-redirected (codes "Cookie") current status url names_differ.0 names_differ.1 ∙ h in
    (
      header-redirected (codes "Authorization") current status url names_differ.2 names_differ.3,
      kept,
      attach_cookie_present t o (redirected current status url) cookie w kept,
    )

-- A redirect that changes the method leaves a GET with no content headers; of the body its own text is
-- dropped, and a shared text is still sent.
pub body_view-redirected :
    (current : Request) (status : ℕ) (url : Bytes)
    → redirect_changes_to_get status current.method ≡ true
    → ((redirected current status url).method ≡ codes "GET")
      × (header (codes "Content-Type") (redirected current status url) ≡ none)
      × (header (codes "Content-Length") (redirected current status url) ≡ none)
      × (body_view (redirected current status url) ≡ shared_text current.shared_body)
unfolding header
body_view-redirected current status url e =
    let h = redirected_get current status url e in
    (
      ap (λ r. r.method) h,
      ap (header (codes "Content-Type")) h
          ∙ find_header-remove_other (codes "Content-Length") (codes "Content-Type") _
              names_differ.4
          ∙ find_header-remove (codes "Content-Type") current.headers,
      ap (header (codes "Content-Length")) h ∙ find_header-remove (codes "Content-Length") _,
      ap body_view h ∙ unfold body_view in refl,
    )
