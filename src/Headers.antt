-- ===== src/Headers.antt =====
-- Header lines of src/request.cpp (`header_name_equal`, `split_header_view`, `header_line`, and the
-- loops of `Request::header`, `Request::remove_header` and `Response::headers_named`), and
-- `lower_copy`, `trim_copy` and `remove_header_case_insensitive` of src/http_client.cpp.
pub mod Laws
use http_client.Prelude.{
  ℕ, suc, ◌≡◌, Bool, true, false, ◌&&◌, not, List, [], ◌∷◌, ◌++◌, Option, none, some, Bytes, codes,
  map, ◌==◌, if◌then◌else◌, take, drop, remove_if, length,
}
use http_client.Text.{bytes_eq, find, to_lower, trim_front, trim_back}

-- The sizes are compared first, then the bytes under `tolower`.
same_letters : Bytes → Bytes → Bool
same_letters [] b = true
same_letters (x ∷ a) [] = true
same_letters (x ∷ a) (y ∷ b) = to_lower x == to_lower y && same_letters a b

unfoldable pub header_name_equal : Bytes → Bytes → Bool
unfolding same_letters
header_name_equal a b = if length a == length b then same_letters a b else false

-- The name before the first `:`, and the value behind it without leading white space.
unfoldable pub split_header_view : Bytes → Bytes × Bytes
split_header_view header = elim (find b':' header) [
  | none ↦ (header, [])
  | some pos ↦ (take pos header, trim_front (drop (suc pos) header))
]

unfoldable pub header_line : Bytes → Bytes → Bytes
header_line name value = name ++ (codes ": " ++ value)

-- The test of `remove_header` and of the searches.
unfoldable pub is_named : Bytes → Bytes → Bool
is_named name line = header_name_equal (split_header_view line).0 name

-- `header`: the value of the first line of that name.
unfoldable pub find_header : Bytes → List Bytes → Option Bytes
find_header name [] = none
find_header name (line ∷ lines) =
    if is_named name line then some (split_header_view line).1 else find_header name lines

-- `headers_named`: the values of all lines of that name.
unfoldable pub find_headers : Bytes → List Bytes → List Bytes
find_headers name [] = []
find_headers name (line ∷ lines) =
    let rest = find_headers name lines in
    if is_named name line then (split_header_view line).1 ∷ rest else rest

-- The lines that `remove_header` keeps.
unfoldable pub remove_lines : Bytes → List Bytes → List Bytes
remove_lines name lines = remove_if (is_named name) lines

-- `remove_header(name); add_header(name, value);`
unfoldable pub set_line : Bytes → Bytes → List Bytes → List Bytes
set_line name value lines = remove_lines name lines ++ header_line name value ∷ []

unfoldable pub lower_copy : Bytes → Bytes
lower_copy value = map to_lower value

unfoldable pub trim_copy : Bytes → Bytes
trim_copy value = trim_back (trim_front value)

-- The test in `remove_header_case_insensitive`.
unfoldable pub is_lower_named : Bytes → Bytes → Bool
is_lower_named name line = elim (find b':' line) [
  | none ↦ bytes_eq (lower_copy line) (lower_copy name)
  | some colon ↦ bytes_eq (lower_copy (take colon line)) (lower_copy name)
]

-- The lines that are left, and whether one was taken out.
unfoldable pub remove_header_case_insensitive : List Bytes → Bytes → List Bytes × Bool
remove_header_case_insensitive headers name =
    let rest = remove_if (is_lower_named name) headers in
    (rest, not (length rest == length headers))
