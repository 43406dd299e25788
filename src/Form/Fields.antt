-- ===== src/Form/Fields.antt =====
-- `form_urlencode` against the reader of `Form/Decode.antt`.
use http_client.Prelude.{
  ℕ, ◌≡◌, ◌≢◌, refl, ap, ◌∙◌, List, [], ◌∷◌, ◌++◌, Bytes, map, arith, All, All-append, append-nil,
  ==_refl, ==_ne, All-mono,
}
use http_client.Text.{Lacks}
use http_client.Form.{FormField, urlencode, encode_field, encode_rest, form_urlencode}
use http_client.Form.Decode.{cut, read_field, pieces, read_fields, form_decode}
use http_client.Form.RoundTrip.{IsPlain, urlencode-IsPlain, read_urlencode}
use http_client.Base64.RoundTrip.{IsByte}

-- Name and value are texts of bytes.
abbrev pub IsField : FormField → Type 0
IsField f = All IsByte f.name × All IsByte f.value

pub cut-append : (c : ℕ) (p s : Bytes) → Lacks c p → cut c (p ++ c ∷ s) ≡ (p, s)
unfolding cut
cut-append c [] s h = rw (==_refl c)
cut-append c (x ∷ p) s h = rw (==_ne x c h.0, cut-append c p s h.1)

pub cut-Lacks : (c : ℕ) (p : Bytes) → Lacks c p → cut c p ≡ (p, [])
unfolding cut
cut-Lacks c [] h = refl
cut-Lacks c (x ∷ p) h = rw (==_ne x c h.0, cut-Lacks c p h.1)

pub pieces-Lacks : (p : Bytes) → Lacks b'&' p → pieces p ≡ p ∷ []
unfolding pieces
pieces-Lacks [] h = refl
pieces-Lacks (x ∷ p) h = rw (pieces-Lacks p h.1, ==_ne x b'&' h.0)

pub pieces-ne-nil : (p : Bytes) → pieces p ≢ []
unfolding pieces
pieces-ne-nil [] h = cc
pieces-ne-nil (x ∷ p) h = ground (arith, pieces-ne-nil p)

-- The pieces of two texts joined by a `&`.
pub pieces-append : (p s : Bytes) → pieces (p ++ b'&' ∷ s) ≡ pieces p ++ pieces s
unfolding pieces
pieces-append [] s = ground (arith, pieces-ne-nil s)
pieces-append (x ∷ p) s = ground (arith, pieces-append p s, pieces-ne-nil p)

plain_no_amp : (c : ℕ) → IsPlain c → c ≢ b'&'
plain_no_amp c h = h.1

plain_no_eq : (c : ℕ) → IsPlain c → c ≢ b'='
plain_no_eq c h = h.2

encode_field-Lacks : (f : FormField) → IsField f → Lacks b'&' (encode_field f)
unfolding encode_field
encode_field-Lacks f (hn, hv) =
    All-append _ (urlencode f.name) (b'=' ∷ urlencode f.value)
      (All-mono IsPlain _ plain_no_amp _ (urlencode-IsPlain f.name hn))
      (omega arith, All-mono IsPlain _ plain_no_amp _ (urlencode-IsPlain f.value hv))

read_field-encode : (f : FormField) → IsField f → read_field (encode_field f) ≡ f
unfolding read_field encode_field
read_field-encode f (hn, hv) = rw (
  cut-append b'=' (urlencode f.name) (urlencode f.value)
      (All-mono IsPlain _ plain_no_eq _ (urlencode-IsPlain f.name hn)),
  read_urlencode f.name hn,
  read_urlencode f.value hv,
)

pieces-encode_rest :
    (s : Bytes) (fs : List FormField)
    → All IsField fs
    → pieces (s ++ encode_rest fs) ≡ pieces s ++ map encode_field fs
unfolding encode_rest
pieces-encode_rest s [] h = rw (append-nil s, append-nil (pieces s))
pieces-encode_rest s (f ∷ fs) h =
    pieces-append s (encode_field f ++ encode_rest fs)
    ∙ ap (◌++◌ (pieces s)) (
        pieces-encode_rest (encode_field f) fs h.1
        ∙ ap (λ ps. ps ++ map encode_field fs) (pieces-Lacks _ (encode_field-Lacks f h.0)))

pub pieces-form_urlencode :
    (f : FormField) (fs : List FormField)
    → All IsField (f ∷ fs)
    → pieces (form_urlencode (f ∷ fs)) ≡ map encode_field (f ∷ fs)
unfolding form_urlencode
pieces-form_urlencode f fs h =
    pieces-encode_rest (encode_field f) fs h.1
    ∙ ap (λ ps. ps ++ map encode_field fs) (pieces-Lacks _ (encode_field-Lacks f h.0))

pub read_fields-map :
    (fs : List FormField) → All IsField fs → read_fields (map encode_field fs) ≡ fs
unfolding read_fields
read_fields-map [] h = refl
read_fields-map (f ∷ fs) h = rw (read_field-encode f h.0, read_fields-map fs h.1)

pub read_fields-append :
    (ps qs : List Bytes) → read_fields (ps ++ qs) ≡ read_fields ps ++ read_fields qs
unfolding read_fields
read_fields-append [] qs = refl
read_fields-append (p ∷ ps) qs = rw (read_fields-append ps qs)

form_decode-pieces : (s : Bytes) → s ≢ [] → form_decode s ≡ read_fields (pieces s)
unfolding form_decode
form_decode-pieces [] h = absurd (h refl)
form_decode-pieces (c ∷ s) h = refl

append_ne_nil : (s : Bytes) (c : ℕ) (t u : Bytes) → (s ++ c ∷ t) ++ u ≢ []
append_ne_nil [] c t u h = cc
append_ne_nil (x ∷ s) c t u h = cc

form_urlencode-ne-nil : (f : FormField) (fs : List FormField) → form_urlencode (f ∷ fs) ≢ []
unfolding form_urlencode encode_field
form_urlencode-ne-nil f fs =
    append_ne_nil (urlencode f.name) b'=' (urlencode f.value) (encode_rest fs)

-- A form is read back field by field, whatever bytes its names and values hold.
pub form_decode-form_urlencode :
    (fs : List FormField) → All IsField fs → form_decode (form_urlencode fs) ≡ fs
form_decode-form_urlencode [] h = unfold form_decode form_urlencode in refl
form_decode-form_urlencode (f ∷ fs) h =
    form_decode-pieces _ (form_urlencode-ne-nil f fs)
    ∙ ap read_fields (pieces-form_urlencode f fs h)
    ∙ read_fields-map (f ∷ fs) h
