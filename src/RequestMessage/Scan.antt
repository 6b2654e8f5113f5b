-- ===== src/RequestMessage/Scan.antt =====
-- common/utility.hpp, RequestMessage::parse: where the scan of a request line stops, and
-- the target that it cuts out.
use juce_simpleweb.Prelude.{
  ℕ, ◌+◌, ◌-◌, ◌≡◌, ◌≢◌, refl, ap, ◌∙◌, Option, none, some, [], ◌∷◌, ◌++◌, append_assoc, arith,
  length, length-append, Bytes, codes,
}
use juce_simpleweb.Bytes.Search.{Free}
use juce_simpleweb.Bytes.Slices.{substr-middle}
use juce_simpleweb.RequestMessage.{Request, scan, set_target}

scan-plain :
    (c : ℕ) (s : Bytes) (i : ℕ) → c ≢ b' ' → c ≢ b'?' → scan (c ∷ s) i none ≡ scan s (i + 1) none
unfolding scan
scan-plain c s i h k = ground arith

scan-within_query :
    (c : ℕ) (s : Bytes) (i q : ℕ) → c ≢ b' ' → scan (c ∷ s) i (some q) ≡ scan s (i + 1) (some q)
unfolding scan
scan-within_query c s i q h = ground arith

scan-question :
    (c : ℕ) (s : Bytes) (i : ℕ) → scan (b'?' ∷ c ∷ s) i none ≡ scan (c ∷ s) (i + 1) (some (i + 1))
unfolding scan
scan-question c s i = refl

scan-space : (s : Bytes) (i : ℕ) (q : Option ℕ) → scan (b' ' ∷ s) i q ≡ (q, some i)
unfolding scan
scan-space s i q = refl

scan-path :
    (path rest : Bytes) (i j : ℕ)
    → Free b' ' path
    → Free b'?' path
    → i + length path ≡ j
    → scan (path ++ rest) i none ≡ scan rest j none
scan-path [] rest i j h k e = let same : i ≡ j = omega arith in rw same
scan-path (c ∷ path) rest i j h k e =
    scan-plain c (path ++ rest) i h.0 k.0 ∙ scan-path path rest (i + 1) j h.1 k.1 (omega arith)

scan-query :
    (query rest : Bytes) (i j q : ℕ)
    → Free b' ' query
    → i + length query ≡ j
    → scan (query ++ rest) i (some q) ≡ scan rest j (some q)
scan-query [] rest i j q h e = let same : i ≡ j = omega arith in rw same
scan-query (c ∷ query) rest i j q h e =
    scan-within_query c (query ++ rest) i q h.0
    ∙ scan-query query rest (i + 1) j q h.1 (omega arith)

-- The part of the request line between the method and the protocol.
abbrev pub target : Bytes → Option Bytes → Bytes
target path none = path
target path (some query) = path ++ b'?' ∷ query

abbrev pub query_or : Option Bytes → Bytes → Bytes
query_or none old = old
query_or (some query) old = query

abbrev pub IsQuery : Option Bytes → Type 0
IsQuery none = Unit {0}
IsQuery (some query) = Free b' ' query × Free b'\n' query

abbrev pub query_start : ℕ → Option Bytes → Option ℕ
query_start n none = none
query_start n (some query) = some (n + 1)

-- Where the scan of a request line stops.
pub scan-target :
    (path : Bytes) (query : Option Bytes) (rest : Bytes) (i : ℕ)
    → Free b' ' path
    → Free b'?' path
    → IsQuery query
    → scan (target path query ++ b' ' ∷ rest) i none
      ≡ (query_start (i + length path) query, some (i + length (target path query)))
scan-target path none rest i h k q =
    scan-path path (b' ' ∷ rest) i (i + length path) h k refl ∙ scan-space rest _ none
scan-target path (some []) rest i h k q = rw (append_assoc path (b'?' ∷ []) (b' ' ∷ rest)) (
    scan-path path (b'?' ∷ b' ' ∷ rest) i (i + length path) h k refl
    ∙ scan-question b' ' rest (i + length path)
    ∙ scan-space rest _ _
    ∙ ap (λ n. (some (i + length path + 1), some n))
        (omega (arith, length-append path (b'?' ∷ []))))
scan-target path (some (c ∷ query)) rest i h k q =
    rw (append_assoc path (b'?' ∷ c ∷ query) (b' ' ∷ rest)) (
      scan-path path (b'?' ∷ c ∷ (query ++ b' ' ∷ rest)) i (i + length path) h k refl
      ∙ scan-question c (query ++ b' ' ∷ rest) (i + length path)
      ∙ scan-query (c ∷ query) (b' ' ∷ rest) (i + length path + 1)
          (i + length path + 1 + length (c ∷ query)) (i + length path + 1) q.0 refl
      ∙ scan-space rest _ _
      ∙ ap (λ n. (some (i + length path + 1), some n))
          (omega (arith, length-append path (b'?' ∷ c ∷ query))))

-- The line less its line feed.
abbrev pub request_line : Bytes → Bytes → Option Bytes → Bytes → Bytes
request_line method path query version =
    method ++ (b' ' ∷ (target path query ++ (b' ' ∷ (codes "HTTP/" ++ (version ++ b'\r' ∷ [])))))

pub set_target-line :
    (method path : Bytes) (query : Option Bytes) (rest : Bytes) (r : Request)
    → set_target
        (method ++ (b' ' ∷ (target path query ++ rest)))
        (length method)
        (query_start (length method + 1 + length path) query)
        (length method + 1 + length (target path query))
        r
      ≡ record r { path = path; query_string = query_or query r.query_string }
unfolding set_target
set_target-line method path none rest r = rw (
    substr-middle (method ++ (b' ' ∷ (path ++ rest))) (method ++ b' ' ∷ []) path rest
      (length method + 1) (length method + 1 + length path - length method - 1) (simp append_assoc)
      (omega (arith, length-append method (b' ' ∷ []))) (omega arith))
set_target-line method path (some query) rest r = rw (
  substr-middle (method ++ (b' ' ∷ ((path ++ b'?' ∷ query) ++ rest))) (method ++ b' ' ∷ []) path
      (b'?' ∷ (query ++ rest)) (length method + 1)
      (length method + 1 + length path + 1 - length method - 2) (simp append_assoc)
      (omega (arith, length-append method (b' ' ∷ []))) (omega arith),
  substr-middle (method ++ (b' ' ∷ ((path ++ b'?' ∷ query) ++ rest)))
      (method ++ (b' ' ∷ (path ++ b'?' ∷ []))) query rest (length method + 1 + length path + 1)
      (length method + 1 + length (path ++ b'?' ∷ query) - (length method + 1 + length path + 1))
      (simp append_assoc)
      (omega
        (arith, length-append method (b' ' ∷ (path ++ b'?' ∷ [])), length-append path (b'?' ∷ [])))
      (omega (arith, length-append path (b'?' ∷ query))),
)
