-- ===== src/Cookies.antt =====
-- The cookie jar of src/http_client.cpp: `CookieJar` with `split_semicolon`, `split_name_value`,
-- `default_cookie_path`, `domain_match` and `path_match`. The mutex makes each operation one step. The
-- map is a list of domains with their cookies, in an order that the code leaves open; times are
-- nanoseconds of the steady clock, and 0 is the default time point.
pub mod Match
pub mod Jar
pub mod Store
pub mod Send
pub mod Bounds
pub mod Limits
pub mod Client
use http_client.Prelude.{
  ℕ, suc, ◌+◌, ◌-◌, Bool, true, false, ◌&&◌, ◌||◌, not, List, [], ◌∷◌, ◌++◌, Option, none, some,
  Bytes, codes, ◌==◌, if◌then◌else◌, ltb, is_nil, length, take, drop, get_elem?,
}
use http_client.Text.{bytes_eq, find, rfind, starts_with, front_is, back_is}
use http_client.Headers.{lower_copy, trim_copy}

pub record Cookie : Type 0 where
  pub name : Bytes
  pub value : Bytes
  pub domain : Bytes
  pub path : Bytes
  pub host_only : Bool
  pub expires : ℕ
  pub last_used : ℕ

-- The parts between the `;`s; behind a last `;` there is no part. The second
-- text is the part read so far.
split_parts : Bytes → Bytes → List Bytes
split_parts [] part = part ∷ []
split_parts (c ∷ s) part = elim (c == b';') [
  | false ↦ split_parts s (part ++ c ∷ [])
  | true ↦ part ∷ (elim s [ [] ↦ [] | x ∷ t ↦ split_parts s [] ])
]

unfoldable pub split_semicolon : Bytes → List Bytes
unfolding split_parts
split_semicolon [] = []
split_semicolon (c ∷ s) = split_parts (c ∷ s) []

unfoldable pub split_name_value : Bytes → Bytes × Bytes
split_name_value value = elim (find b'=' value) [
  | none ↦ (trim_copy value, [])
  | some eq ↦ (trim_copy (take eq value), trim_copy (drop (suc eq) value))
]

unfoldable pub default_cookie_path : Bytes → Bytes
default_cookie_path path =
    if front_is b'/' path
    then (elim (rfind b'/' path) [
      | none ↦ codes "/"
      | some slash ↦ if slash == 0 then codes "/" else take slash path
    ])
    else codes "/"

-- `if (!d.empty() && d.front() == '.') d.erase(d.begin())`.
unfoldable pub without_dot : Bytes → Bytes
without_dot [] = []
without_dot (c ∷ d) = if c == b'.' then d else c ∷ d

abbrev is_byte : ℕ → Option ℕ → Bool
is_byte c none = false
is_byte c (some x) = x == c

-- `h` is `d`, or ends in `d` behind a `.`.
unfoldable pub is_subdomain : Bytes → Bytes → Bool
is_subdomain h d =
    bytes_eq h d
    || (ltb (length d) (length h)
        && (bytes_eq (drop (length h - length d) h) d
            && is_byte b'.' (get_elem? h (length h - length d - 1))))

unfoldable pub domain_match : Bytes → Bytes → Bool
unfolding is_subdomain without_dot
domain_match host domain = is_subdomain (lower_copy host) (without_dot (lower_copy domain))

unfoldable pub path_match : Bytes → Bytes → Bool
path_match request_path cookie_path =
    if is_nil cookie_path
    then true
    else if starts_with cookie_path request_path
    then (length request_path == length cookie_path
        || back_is b'/' cookie_path
        || is_byte b'/' (get_elem? request_path (length cookie_path)))
    else false
