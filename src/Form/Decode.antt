-- ===== src/Form/Decode.antt =====
-- A reader of `application/x-www-form-urlencoded` (WHATWG URL, section 5.1), independent of the code.
use http_client.Prelude.{ℕ, List, [], ◌∷◌, Bytes, ◌==◌, if◌then◌else◌}
use http_client.Form.{FormField, percent_decode}

-- Every `+` is a space.
unfoldable pub plus_to_space : Bytes → Bytes
plus_to_space [] = []
plus_to_space (c ∷ s) = (if c == b'+' then 32 else c) ∷ plus_to_space s

-- Cut at the first `c`: what stands before it and, if there is one, what stands behind.
unfoldable pub cut : ℕ → Bytes → Bytes × Bytes
cut c [] = ([], [])
cut c (x ∷ s) = let rest = cut c s in if x == c then ([], s) else (x ∷ rest.0, rest.1)

unfoldable pub read_field : Bytes → FormField
unfolding plus_to_space cut
read_field s =
    let p = cut b'=' s in
    record { name = percent_decode (plus_to_space p.0); value = percent_decode (plus_to_space p.1) }

-- The parts between the `&`s.
unfoldable pub pieces : Bytes → List Bytes
pieces [] = [] ∷ []
pieces (c ∷ s) = elim (pieces s) [
  | [] ↦ []
  | p ∷ ps ↦ if c == b'&' then [] ∷ p ∷ ps else (c ∷ p) ∷ ps
]

unfoldable pub read_fields : List Bytes → List FormField
unfolding read_field
read_fields [] = []
read_fields (p ∷ ps) = read_field p ∷ read_fields ps

unfoldable pub form_decode : Bytes → List FormField
unfolding pieces read_fields
form_decode [] = []
form_decode (c ∷ s) = read_fields (pieces (c ∷ s))
