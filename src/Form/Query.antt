-- ===== src/Form/Query.antt =====
-- `append_query_params` against an independent reading of a url.
use http_client.Prelude.{
  ℕ, suc, ◌≡◌, ◌≢◌, refl, sym, ap, ◌∙◌, inl, inr, List, [], ◌∷◌, ◌++◌, Option, none, some, Bytes,
  arith, All, All-append, append_assoc, take, drop, take-append, drop-append, drop-append_cons,
  Option-cases, subst, All-mono,
}
use http_client.Text.{Lacks, find}
use http_client.Text.Search.{find-Lacks, find-append, find-some, find-none}
use http_client.Form.{
  FormField, encode_field, urlencode, encode_rest, form_urlencode, separator, with_params,
  append_query_params,
}
use http_client.Form.Decode.{cut, pieces, read_fields}
use http_client.Form.RoundTrip.{IsPlain, urlencode-IsPlain}
use http_client.Form.Fields.{
  IsField, cut-append, cut-Lacks, pieces-append, pieces-form_urlencode, read_fields-map,
  read_fields-append,
}

-- The parts of a url: what stands before its fragment, and the fragment.
abbrev pub before_fragment : Bytes → Bytes
before_fragment url = (cut b'#' url).0

abbrev pub fragment : Bytes → Bytes
fragment url = (cut b'#' url).1

abbrev fields_at : Bytes → Option ℕ → List FormField
fields_at s none = []
fields_at s (some i) = read_fields (pieces (drop (suc i) s))

-- The fields of the query of a url without a fragment: none, if it has no `?`.
abbrev pub query_fields : Bytes → List FormField
query_fields s = fields_at s (find b'?' s)

plain_no_hash : (c : ℕ) → IsPlain c → c ≢ b'#'
plain_no_hash c h = h.3

encode_field-Lacks_hash : (f : FormField) → IsField f → Lacks b'#' (encode_field f)
unfolding encode_field
encode_field-Lacks_hash f (hn, hv) =
    All-append _ (urlencode f.name) (b'=' ∷ urlencode f.value)
      (All-mono IsPlain _ plain_no_hash _ (urlencode-IsPlain f.name hn))
      (omega arith, All-mono IsPlain _ plain_no_hash _ (urlencode-IsPlain f.value hv))

encode_rest-Lacks_hash : (fs : List FormField) → All IsField fs → Lacks b'#' (encode_rest fs)
unfolding encode_rest
encode_rest-Lacks_hash [] h = tt
encode_rest-Lacks_hash (f ∷ fs) h = (
  omega arith,
  All-append _ (encode_field f) (encode_rest fs) (encode_field-Lacks_hash f h.0)
      (encode_rest-Lacks_hash fs h.1),
)

form_urlencode-Lacks_hash : (fs : List FormField) → All IsField fs → Lacks b'#' (form_urlencode fs)
unfolding form_urlencode
form_urlencode-Lacks_hash [] h = tt
form_urlencode-Lacks_hash (f ∷ fs) h =
    All-append _ (encode_field f) (encode_rest fs) (encode_field-Lacks_hash f h.0)
      (encode_rest-Lacks_hash fs h.1)

read_form :
    (f : FormField) (fs : List FormField)
    → All IsField (f ∷ fs)
    → read_fields (pieces (form_urlencode (f ∷ fs))) ≡ f ∷ fs
read_form f fs h = ap read_fields (pieces-form_urlencode f fs h) ∙ read_fields-map (f ∷ fs) h

with_params_new :
    (p : Bytes) (fs : List FormField)
    → Lacks b'?' p
    → with_params p fs ≡ p ++ b'?' ∷ form_urlencode fs
unfolding with_params separator
with_params_new p fs n = rw (separator, find-Lacks b'?' p n)

with_params_old :
    (p q : Bytes) (fs : List FormField)
    → Lacks b'?' p
    → with_params (p ++ b'?' ∷ q) fs ≡ p ++ b'?' ∷ (q ++ b'&' ∷ form_urlencode fs)
unfolding with_params separator
with_params_old p q fs n =
    rw (separator, find-append b'?' p q n) (append_assoc p (b'?' ∷ q) (b'&' ∷ form_urlencode fs))

query_fields-append :
    (p q : Bytes) → Lacks b'?' p → query_fields (p ++ b'?' ∷ q) ≡ read_fields (pieces q)
query_fields-append p q n = rw (find-append b'?' p q n, drop-append_cons p q b'?')

-- What the parameters do to a url without a fragment: the query gains them behind its fields, and
-- what stands before the query stays.
abbrev Extends : Bytes → Bytes → List FormField → Type 0
Extends s t fs = (query_fields t ≡ query_fields s ++ fs) × ((cut b'?' t).0 ≡ (cut b'?' s).0)

with_params-Extends_new :
    (p : Bytes) (f : FormField) (fs : List FormField)
    → All IsField (f ∷ fs)
    → Lacks b'?' p
    → Extends p (with_params p (f ∷ fs)) (f ∷ fs)
with_params-Extends_new p f fs h n = rw (with_params_new p (f ∷ fs) n) (
  query_fields-append p (form_urlencode (f ∷ fs)) n
      ∙ read_form f fs h
      ∙ ap (λ o. fields_at p o ++ f ∷ fs) (sym (find-Lacks b'?' p n)),
  rw (cut-append b'?' p (form_urlencode (f ∷ fs)) n, cut-Lacks b'?' p n),
)

with_params-Extends_old :
    (p q : Bytes) (f : FormField) (fs : List FormField)
    → All IsField (f ∷ fs)
    → Lacks b'?' p
    → Extends (p ++ b'?' ∷ q) (with_params (p ++ b'?' ∷ q) (f ∷ fs)) (f ∷ fs)
with_params-Extends_old p q f fs h n = rw (with_params_old p q (f ∷ fs) n) (
  query_fields-append p (q ++ b'&' ∷ form_urlencode (f ∷ fs)) n
      ∙ ap read_fields (pieces-append q (form_urlencode (f ∷ fs)))
      ∙ read_fields-append (pieces q) (pieces (form_urlencode (f ∷ fs)))
      ∙ ap (◌++◌ (read_fields (pieces q))) (read_form f fs h)
      ∙ ap (λ gs. gs ++ f ∷ fs) (sym (query_fields-append p q n)),
  rw (cut-append b'?' p (q ++ b'&' ∷ form_urlencode (f ∷ fs)) n, cut-append b'?' p q n),
)

with_params-Extends :
    (s : Bytes) (f : FormField) (fs : List FormField)
    → All IsField (f ∷ fs)
    → Extends s (with_params s (f ∷ fs)) (f ∷ fs)
with_params-Extends s f fs h = elim (Option-cases (find b'?' s)) [
  | inl e ↦ with_params-Extends_new s f fs h (find-none b'?' s e)
  | inr (i, e) ↦
      let (n, p) = find-some b'?' s i e in
      subst (λ u. Extends u (with_params u (f ∷ fs)) (f ∷ fs)) (sym p)
        (with_params-Extends_old (take i s) (drop (suc i) s) f fs h n)
]

separator-ne-hash : (s : Bytes) → separator s ≢ b'#'
unfolding separator
separator-ne-hash s e = elim (Option-cases (find b'?' s)) [
  | inl p ↦ absurd (ground (arith))
  | inr (i, p) ↦ absurd (ground (arith))
]

with_params-Lacks :
    (s : Bytes) (fs : List FormField)
    → All IsField fs
    → Lacks b'#' s
    → Lacks b'#' (with_params s fs)
unfolding with_params
with_params-Lacks s fs h n =
    All-append _ s _ n (separator-ne-hash s, form_urlencode-Lacks_hash fs h)

append_plain :
    (s : Bytes) (f : FormField) (fs : List FormField)
    → find b'#' s ≡ none
    → append_query_params s (f ∷ fs) ≡ with_params s (f ∷ fs)
unfolding append_query_params
append_plain s f fs e = rw (append_query_params, e)

append_marked :
    (b s : Bytes) (f : FormField) (fs : List FormField)
    → Lacks b'#' b
    → append_query_params (b ++ b'#' ∷ s) (f ∷ fs) ≡ with_params b (f ∷ fs) ++ b'#' ∷ s
unfolding append_query_params
append_marked b s f fs n = rw (
  append_query_params,
  find-append b'#' b s n,
  take-append b (b'#' ∷ s),
  drop-append b (b'#' ∷ s),
)

-- The parameters go between the url and its fragment.
abbrev Inserted : Bytes → List FormField → Type 0
Inserted url fs =
    cut b'#' (append_query_params url fs) ≡ (with_params (before_fragment url) fs, fragment url)

Inserted-plain :
    (s : Bytes) (f : FormField) (fs : List FormField)
    → All IsField (f ∷ fs)
    → find b'#' s ≡ none
    → Inserted s (f ∷ fs)
Inserted-plain s f fs h e =
    let n = find-none b'#' s e in
    rw (append_plain s f fs e, before_fragment, fragment, cut-Lacks b'#' s n)
      (cut-Lacks b'#' _ (with_params-Lacks s (f ∷ fs) h n))

Inserted-marked :
    (b s : Bytes) (f : FormField) (fs : List FormField)
    → All IsField (f ∷ fs)
    → Lacks b'#' b
    → Inserted (b ++ b'#' ∷ s) (f ∷ fs)
Inserted-marked b s f fs h n =
    rw (append_marked b s f fs n, before_fragment, fragment, cut-append b'#' b s n)
      (cut-append b'#' (with_params b (f ∷ fs)) s (with_params-Lacks b (f ∷ fs) h n))

append_query_params-Inserted :
    (url : Bytes) (f : FormField) (fs : List FormField)
    → All IsField (f ∷ fs)
    → Inserted url (f ∷ fs)
append_query_params-Inserted url f fs h = elim (Option-cases (find b'#' url)) [
  | inl e ↦ Inserted-plain url f fs h e
  | inr (i, e) ↦
      let (n, p) = find-some b'#' url i e in
      subst (λ u. Inserted u (f ∷ fs)) (sym p)
        (Inserted-marked (take i url) (drop (suc i) url) f fs h n)
]

-- For parameters whose names and values are bytes: the fields read from the query of the new url are
-- those of the old url and then the parameters, in order; what stands before the query and the
-- fragment are those of the old url.
pub append_query_params-query_fields :
    (url : Bytes) (f : FormField) (fs : List FormField)
    → All IsField (f ∷ fs)
    → (query_fields (before_fragment (append_query_params url (f ∷ fs)))
        ≡ query_fields (before_fragment url) ++ f ∷ fs)
      × ((cut b'?' (before_fragment (append_query_params url (f ∷ fs)))).0
          ≡ (cut b'?' (before_fragment url)).0)
      × (fragment (append_query_params url (f ∷ fs)) ≡ fragment url)
append_query_params-query_fields url f fs h =
    let e = append_query_params-Inserted url f fs h in
    let x = with_params-Extends (before_fragment url) f fs h in
    rw (before_fragment, fragment, e) (x.0, x.1, refl)
