-- ===== src/Cookies/Send.antt =====
-- Which cookies `cookie_header` sends, and how they are written.
use http_client.Prelude.{
  ℕ, ◌<◌, ◌≡◌, refl, sym, ap, ◌∙◌, ◌⊎◌, inl, inr, true, false, List, [], ◌∷◌, ◌++◌, Bytes, codes,
  if◌then◌else◌, arith, Bool-cases, All, All-append, append-nil, append_assoc, ok,
}
use http_client.Text.{bytes_eq_sound}
use http_client.Headers.{lower_copy}
use http_client.Url.{ParsedUrl, parse_url}
use http_client.Cookies.{Cookie, domain_match, path_match}
use http_client.Cookies.Jar.{Cookies, is_expired, prune_expired}
use http_client.Cookies.Store.{is_sent, append_cookie, send_jar, send_jars, cookie_header}

-- The cookies of a jar that pass the tests, with their domain.
pub sent_of : ParsedUrl → ℕ → Bytes → List Cookie → List (Bytes × Cookie)
sent_of u now d [] = []
sent_of u now d (c ∷ jar) =
    let rest = sent_of u now d jar in if is_sent u now c then (d, c) ∷ rest else rest

-- Those of all domains that match the host, in the order of the map.
pub sent : ParsedUrl → ℕ → Cookies → List (Bytes × Cookie)
sent u now [] = []
sent u now ((d, jar) ∷ cookies) =
    let rest = sent u now cookies in
    if domain_match u.host d then sent_of u now d jar ++ rest else rest

-- `name=value`, joined by `; `.
pair_text : Cookie → Bytes
pair_text c = c.name ++ b'=' ∷ c.value

rest_text : List (Bytes × Cookie) → Bytes
rest_text [] = []
rest_text ((d, c) ∷ cs) = codes "; " ++ (pair_text c ++ rest_text cs)

pub header_text : List (Bytes × Cookie) → Bytes
header_text [] = []
header_text ((d, c) ∷ cs) = pair_text c ++ rest_text cs

append_all : Bytes → List (Bytes × Cookie) → Bytes
append_all out [] = out
append_all out ((d, c) ∷ cs) = append_all (append_cookie out c) cs

append_all-append :
    (out : Bytes) (xs ys : List (Bytes × Cookie))
    → append_all out (xs ++ ys) ≡ append_all (append_all out xs) ys
unfolding append_all
append_all-append out [] ys = refl
append_all-append out ((d, c) ∷ xs) ys = append_all-append (append_cookie out c) xs ys

send_jar-text :
    (u : ParsedUrl) (now : ℕ) (d : Bytes) (jar : List Cookie) (out : Bytes)
    → (send_jar u now jar out).0 ≡ append_all out (sent_of u now d jar)
unfolding send_jar sent_of append_all
send_jar-text u now d [] out = refl
send_jar-text u now d (c ∷ jar) out = elim (Bool-cases (is_sent u now c)) [
  | inl e ↦ rw e (send_jar-text u now d jar (append_cookie out c))
  | inr e ↦ rw e (send_jar-text u now d jar out)
]

send_jars-text :
    (u : ParsedUrl) (now : ℕ) (cookies : Cookies) (out : Bytes)
    → (send_jars u now cookies out).0 ≡ append_all out (sent u now cookies)
unfolding send_jars sent
send_jars-text u now [] out = unfold append_all in refl
send_jars-text u now ((d, jar) ∷ cookies) out = elim (Bool-cases (domain_match u.host d)) [
  | inl e ↦ rw e (
      send_jars-text u now cookies (send_jar u now jar out).0
      ∙ ap (λ (o : Bytes). append_all o (sent u now cookies)) (send_jar-text u now d jar out)
      ∙ sym (append_all-append out (sent_of u now d jar) (sent u now cookies)))
  | inr e ↦ rw e (send_jars-text u now cookies out)
]

append_all-rest :
    (c : ℕ) (out : Bytes) (cs : List (Bytes × Cookie))
    → append_all (c ∷ out) cs ≡ (c ∷ out) ++ rest_text cs
unfolding append_all append_cookie rest_text pair_text
append_all-rest c out [] = sym (append-nil (c ∷ out))
append_all-rest c out ((d, k) ∷ cs) =
    append_all-rest c (out ++ codes "; " ++ (k.name ++ b'=' ∷ k.value)) cs ∙ simp append_assoc

-- A text with a `=` in it is not empty.
append_all-first :
    (n v : Bytes) (cs : List (Bytes × Cookie))
    → append_all (n ++ b'=' ∷ v) cs ≡ (n ++ b'=' ∷ v) ++ rest_text cs
append_all-first [] v cs = append_all-rest b'=' v cs
append_all-first (x ∷ n) v cs = append_all-rest x (n ++ b'=' ∷ v) cs

header_text_lem : (cs : List (Bytes × Cookie)) → append_all [] cs ≡ header_text cs
unfolding append_all append_cookie header_text pair_text
header_text_lem [] = refl
header_text_lem ((d, c) ∷ cs) = append_all-first c.name c.value cs

-- What a cookie that is sent to a url at a time satisfies, stored under a domain.
pub record MaySend (u : ParsedUrl) (now : ℕ) (entry : Bytes × Cookie) : Type 0 where
  pub in_domain : domain_match u.host entry.0 ≡ true
  pub own_host : ((entry.1).host_only ≡ false) ⊎ (lower_copy u.host ≡ (entry.1).domain)
  pub alive : ((entry.1).expires ≡ 0) ⊎ (now < (entry.1).expires)
  pub on_path : path_match u.path (entry.1).path ≡ true

is_sent-MaySend :
    (u : ParsedUrl) (now : ℕ) (d : Bytes) (c : Cookie)
    → domain_match u.host d ≡ true
    → is_sent u now c ≡ true
    → MaySend u now (d, c)
unfolding is_sent is_expired
is_sent-MaySend u now d c m s = record {
  in_domain = m;
  own_host = ground (arith, bytes_eq_sound (lower_copy u.host) c.domain);
  alive = ground arith;
  on_path = ground arith;
}

sent_of-MaySend :
    (u : ParsedUrl) (now : ℕ) (d : Bytes) (jar : List Cookie)
    → domain_match u.host d ≡ true
    → All (MaySend u now) (sent_of u now d jar)
unfolding sent_of
sent_of-MaySend u now d [] m = tt
sent_of-MaySend u now d (c ∷ jar) m = elim (Bool-cases (is_sent u now c)) [
  | inl e ↦ rw e (is_sent-MaySend u now d c m e, sent_of-MaySend u now d jar m)
  | inr e ↦ rw e (sent_of-MaySend u now d jar m)
]

sent-MaySend :
    (u : ParsedUrl) (now : ℕ) (cookies : Cookies) → All (MaySend u now) (sent u now cookies)
unfolding sent
sent-MaySend u now [] = tt
sent-MaySend u now ((d, jar) ∷ cookies) = elim (Bool-cases (domain_match u.host d)) [
  | inl e ↦ rw e (
      All-append (MaySend u now) (sent_of u now d jar) (sent u now cookies)
        (sent_of-MaySend u now d jar e) (sent-MaySend u now cookies))
  | inr e ↦ rw e (sent-MaySend u now cookies)
]

-- For a url that parses, the header is the text of the cookies in `sent`, each written `name=value` and
-- joined by `; `, and every one of these is stored under a domain that the host matches, goes to its own
-- host only if it is host-only, has not expired, and is on the path.
pub cookie_header-sent :
    (now : ℕ) (url : Bytes) (u : ParsedUrl) (cookies : Cookies)
    → parse_url url ≡ ok u
    → let chosen = sent u now (prune_expired now cookies) in
      ((jar : Cookies) × (cookie_header now url cookies ≡ ok (header_text chosen, jar)))
      × All (MaySend u now) chosen
unfolding cookie_header
cookie_header-sent now url u cookies p =
    let pruned = prune_expired now cookies in
    (
      (
        (send_jars u now pruned []).1,
        rw (cookie_header, p)
            (ap (λ (s : Bytes). ok (s, (send_jars u now pruned []).1))
              (send_jars-text u now pruned [] ∙ header_text_lem (sent u now pruned))),
      ),
      sent-MaySend u now pruned,
    )
