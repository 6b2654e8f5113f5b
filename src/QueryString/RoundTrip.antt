-- ===== src/QueryString/RoundTrip.antt =====
-- common/utility.hpp, QueryString: parsing the query string that was created from fields.
use juce_simpleweb.Prelude.{
  ℕ, ◌+◌, ◌≡◌, ◌≢◌, refl, ap, ◌∙◌, false, Option, none, some, [], ◌∷◌, ◌++◌, append-nil,
  append_assoc, arith, length, length-append, Bytes, IsByte, All,
}
use juce_simpleweb.Bytes.Search.{Free}
use juce_simpleweb.CaseInsensitive.{Multimap}
use juce_simpleweb.Percent
use juce_simpleweb.Percent.RoundTrip.{decode-encode, encode-IsUrlSafe, IsUrlSafe, ampersand_unsafe}
use juce_simpleweb.QueryString.{create, create_from, add_field, last_field, parse_from, parse}
use juce_simpleweb.QueryString.Fields.{
  parse_from-ampersand, parse_from-field, add_field-named, end_field-lem, last_field-lem,
}

-- A field whose name stands for itself in a query string; its value may be any bytes.
pub record IsQueryField (field : Bytes × Bytes) : Type 0 where
  pub named : field.0 ≢ []
  pub no_ampersand : Free b'&' field.0
  pub no_equals : Free b'=' field.0
  pub value_bytes : All IsByte field.1

create_from-cons :
    (name value : Bytes) (fields : Multimap)
    → create_from false ((name, value) ∷ fields)
      ≡ b'&' ∷ (name ++ b'=' ∷ (Percent.encode value ++ create_from false fields))
unfolding create_from
create_from-cons name value fields = simp append_assoc

encode-no_ampersand : (value : Bytes) → All IsByte value → Free b'&' (Percent.encode value)
encode-no_ampersand value h = safe-Free (Percent.encode value) (encode-IsUrlSafe value h)
  where
    safe-Free : (s : Bytes) → All IsUrlSafe s → Free b'&' s
    safe-Free [] h = tt
    safe-Free (c ∷ s) (h, k) = (λ e. ampersand_unsafe (rw e at h), safe-Free s k)

add_field-encoded :
    (name value : Bytes) (r : Multimap)
    → IsQueryField (name, value)
    → add_field name (Percent.encode value) r ≡ r ++ (name, value) ∷ []
add_field-encoded name value r w =
    add_field-named name (Percent.encode value) r w.named
    ∙ ap (λ v. r ++ (name, v) ∷ []) (decode-encode value w.value_bytes)

parse_from-end :
    (q : Bytes) (c p : ℕ) (e v : Option ℕ) (r : Multimap)
    → parse_from q [] c p e v r ≡ last_field q p e v r
unfolding parse_from
parse_from-end q c p e v r = refl

create_from-nil : create_from false [] ≡ []
unfolding create_from
create_from-nil = refl

-- What the loop finds from the start of a field on.
parse_from-fields :
    (q before name value : Bytes) (fields r : Multimap)
    → IsQueryField (name, value)
    → All IsQueryField fields
    → q ≡ before ++ (name ++ b'=' ∷ (Percent.encode value ++ create_from false fields))
    → parse_from q
        (name ++ b'=' ∷ (Percent.encode value ++ create_from false fields))
        (length before)
        (length before)
        none
        none
        r
      ≡ r ++ (name, value) ∷ fields
parse_from-fields q before name value [] r w ws s =
    let e = length before + length name in
    parse_from-field q name (Percent.encode value) (create_from false []) (length before)
      (e + 1 + length (Percent.encode value)) r w.no_ampersand w.no_equals
      (encode-no_ampersand value w.value_bytes) refl
    ∙ ap
        (λ t.
          parse_from q t (e + 1 + length (Percent.encode value)) (length before) (some e)
            (some (e + 1)) r)
        create_from-nil
    ∙ parse_from-end q (e + 1 + length (Percent.encode value)) (length before) (some e)
        (some (e + 1)) r
    ∙ last_field-lem q before name (Percent.encode value) (length before) e (e + 1) r
        (s ∙ rw create_from-nil (simp append-nil)) refl refl refl
    ∙ add_field-encoded name value r w
parse_from-fields q before name value ((name', value') ∷ fields) r w (w', ws) s =
    let e = length before + length name in
    let c = e + 1 + length (Percent.encode value) in
    let found = r ++ (name, value) ∷ [] in
    let rest = name' ++ b'=' ∷ (Percent.encode value' ++ create_from false fields) in
    parse_from-field q name (Percent.encode value) (create_from false ((name', value') ∷ fields))
      (length before) c r w.no_ampersand w.no_equals (encode-no_ampersand value w.value_bytes) refl
    ∙ ap (λ t. parse_from q t c (length before) (some e) (some (e + 1)) r)
        (create_from-cons name' value' fields)
    ∙ parse_from-ampersand q rest c (length before) (some e) (some (e + 1)) r
    ∙ ap (parse_from q rest (c + 1) (c + 1) none none) (
        end_field-lem q before name (Percent.encode value)
          (create_from false ((name', value') ∷ fields)) c (length before) e (e + 1) r s refl refl
          refl refl
        ∙ add_field-encoded name value r w)
    ∙ ap (λ n. parse_from q rest n n none none found) next
    ∙ parse_from-fields q (before ++ (name ++ b'=' ∷ (Percent.encode value ++ b'&' ∷ []))) name'
        value' fields found w' ws
        (s ∙ rw (create_from-cons name' value' fields) (simp append_assoc))
    ∙ simp append_assoc
  where
    next :
        length before + length name + 1 + length (Percent.encode value) + 1
        ≡ length (before ++ (name ++ b'=' ∷ (Percent.encode value ++ b'&' ∷ [])))
    next = omega (
      arith,
      length-append before (name ++ b'=' ∷ (Percent.encode value ++ b'&' ∷ [])),
      length-append name (b'=' ∷ (Percent.encode value ++ b'&' ∷ [])),
      length-append (Percent.encode value) (b'&' ∷ []),
    )

-- Parsing a created query string gives the fields back, in their order, for names that are not
-- empty and hold no ampersand and no equals sign, and for any values of bytes.
pub parse-create : (fields : Multimap) → All IsQueryField fields → parse (create fields) ≡ fields
unfolding parse create_from
parse-create [] h = refl
parse-create ((name, value) ∷ fields) (w, ws) =
    let q = name ++ b'=' ∷ (Percent.encode value ++ create_from false fields) in
    ap parse (append_assoc name (b'=' ∷ Percent.encode value) (create_from false fields))
    ∙ parse-named q name (b'=' ∷ (Percent.encode value ++ create_from false fields)) refl w.named
    ∙ parse_from-fields q [] name value fields [] w ws refl
  where
    parse-named :
        (q name rest : Bytes)
        → q ≡ name ++ rest
        → name ≢ []
        → parse q ≡ parse_from q q 0 0 none none []
    parse-named q [] rest e h = absurd (h refl)
    parse-named q (c ∷ name) rest e h = rw e refl
