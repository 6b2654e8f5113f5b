-- ===== src/Handshake/AcceptKey.antt =====
-- websocket/server_ws.hpp and websocket/client_ws.hpp: the accept key that a server computes, as
-- the protocol defines it and as this library's client checks it.
use juce_simpleweb.Prelude.{
  ℕ, zero, suc, ◌^◌, ◌<◌, ◌≡◌, ◌≢◌, ◌↔◌, inl, inr, refl, sym, ap, ◌∙◌, some, [], ◌∷◌, ◌++◌, ◌==◌,
  ne→==_false, length, Bytes, bytes_eq_refl, codes, arith, All, IsByte, Bool-cases,
}
use juce_simpleweb.CaseInsensitive.{Multimap, find_field}
use juce_simpleweb.Base64.{base64_encode, base64_decode}
use juce_simpleweb.Base64.RoundTrip.{base64_decode-base64_encode}
use juce_simpleweb.Handshake.{
  c_string, resize, hash_of, hex_string, accept_key, check_accept, opens,
}

-- A zero byte stands before zero bytes only.
pub data ZerosLast : Bytes → Type 0 where
  all_zero : {s : Bytes} → All (λ c. c ≡ 0) s → ZerosLast s
  nonzero_first : {c : ℕ} {s : Bytes} → c ≢ 0 → ZerosLast s → ZerosLast (c ∷ s)

-- The memory behind the hash does not matter.
resize-c_string_memory :
    (hash memory : Bytes)
    → resize (length hash) (c_string (hash ++ memory)) ≡ resize (length hash) (c_string hash)
unfolding resize c_string
resize-c_string_memory [] memory = refl
resize-c_string_memory (c ∷ hash) memory = elim (Bool-cases (c == 0)) [
  | inl ends ↦ rw ends
  | inr goes ↦ rw goes (ap (◌∷◌ c) (resize-c_string_memory hash memory))
]

cons_eq : (x y : ℕ) (a b : Bytes) → x ∷ a ≡ y ∷ b → (x ≡ y) × (a ≡ b)
cons_eq x y a b e = ground arith

resize-zeros : (s : Bytes) → All (λ c. c ≡ 0) s → resize (length s) [] ≡ s
unfolding resize
resize-zeros [] h = refl
resize-zeros (c ∷ s) (h, k) = rw (h, resize-zeros s k)

zeros-resize : (s : Bytes) → resize (length s) [] ≡ s → All (λ c. c ≡ 0) s
unfolding resize
zeros-resize [] h = tt
zeros-resize (c ∷ s) h =
    let (e, k) = cons_eq 0 c (resize (length s) []) s h in (sym e, zeros-resize s k)

resize-c_string_zeros : (s : Bytes) → All (λ c. c ≡ 0) s → resize (length s) (c_string s) ≡ s
unfolding resize c_string
resize-c_string_zeros [] h = refl
resize-c_string_zeros (c ∷ s) (h, k) = rw (h, resize-zeros s k)

resize-c_string : (s : Bytes) → ZerosLast s → resize (length s) (c_string s) ≡ s
unfolding resize c_string
resize-c_string s (all_zero h) = resize-c_string_zeros s h
resize-c_string (c ∷ s) (nonzero_first h z) = rw (ne→==_false c 0 h, resize-c_string s z)

ZerosLast-resize : (s : Bytes) → resize (length s) (c_string s) ≡ s → ZerosLast s
unfolding resize c_string
ZerosLast-resize [] h = all_zero tt
ZerosLast-resize (c ∷ s) h = elim (Bool-cases (c == 0)) [
  | inl ends ↦ all_zero (zeros-resize (c ∷ s) (rw ends at h))
  | inr goes ↦
      nonzero_first (λ e. ground arith)
        (ZerosLast-resize s (cons_eq c c (resize (length s) (c_string s)) s (rw goes at h)).1)
]

c_string-IsByte : (s : Bytes) → All IsByte s → All IsByte (c_string s)
unfolding c_string
c_string-IsByte [] h = tt
c_string-IsByte (c ∷ s) (h, k) = elim (Bool-cases (c == 0)) [
  | inl ends ↦ rw ends tt
  | inr goes ↦ rw goes (h, c_string-IsByte s k)
]

resize-IsByte : (n : ℕ) (s : Bytes) → All IsByte s → All IsByte (resize n s)
unfolding resize
resize-IsByte zero s h = tt
resize-IsByte (suc n) [] h = (omega arith, resize-IsByte n [] tt)
resize-IsByte (suc n) (c ∷ s) (h, k) = (h, resize-IsByte n s k)

length-resize : (n : ℕ) (s : Bytes) → length (resize n s) ≡ n
unfolding resize
length-resize zero s = refl
length-resize (suc n) [] = ap suc (length-resize n [])
length-resize (suc n) (c ∷ s) = ap suc (length-resize n s)

-- A digest of 20 bytes, as calc_sha1 gives.
pub record IsDigest (hash : Bytes) : Type 0 where
  pub size : length hash ≡ 20
  pub bytes : All IsByte hash

module _ (calc_sha1 : Bytes → Bytes) where
  hex_string-cut :
      (memory key : Bytes)
      → IsDigest (hash_of calc_sha1 key)
      → hex_string calc_sha1 memory key
        ≡ resize (length (hash_of calc_sha1 key)) (c_string (hash_of calc_sha1 key))
  unfolding hex_string
  hex_string-cut memory key d =
      ap (λ n. resize n (c_string (hash_of calc_sha1 key ++ memory))) (sym d.size)
      ∙ resize-c_string_memory (hash_of calc_sha1 key) memory

  base64_decode-accept_key :
      (memory key : Bytes)
      → IsDigest (hash_of calc_sha1 key)
      → base64_decode (accept_key calc_sha1 memory key) ≡ hex_string calc_sha1 memory key
  unfolding accept_key
  base64_decode-accept_key memory key d =
      base64_decode-base64_encode (hex_string calc_sha1 memory key) bytes short
    where
      bytes : All IsByte (hex_string calc_sha1 memory key)
      bytes =
          rw (hex_string-cut memory key d)
            (resize-IsByte (length (hash_of calc_sha1 key)) _ (c_string-IsByte _ d.bytes))

      short : length (hex_string calc_sha1 memory key) < 2 ^ 30
      short = rw (hex_string-cut memory key d) (
          omega (
            arith,
            length-resize (length (hash_of calc_sha1 key)) (c_string (hash_of calc_sha1 key)),
            d.size,
          ))

  -- For a digest of 20 bytes, whatever stands in memory behind it: the server's accept key is the
  -- base64 text of the digest, as the protocol wants, exactly if no zero byte of the digest
  -- stands before a byte that is not zero.
  pub accept_key_iff :
      (memory key : Bytes)
      → IsDigest (hash_of calc_sha1 key)
      → (accept_key calc_sha1 memory key ≡ base64_encode (hash_of calc_sha1 key))
        ↔ ZerosLast (hash_of calc_sha1 key)
  unfolding accept_key
  accept_key_iff memory key d = (
    λ e. ZerosLast-resize (hash_of calc_sha1 key) (
        sym (hex_string-cut memory key d)
        ∙ sym (base64_decode-accept_key memory key d)
        ∙ ap base64_decode e
        ∙ base64_decode-base64_encode (hash_of calc_sha1 key) d.bytes (omega (arith, d.size))),
    λ z. accept_key-whole (hex_string-cut memory key d ∙ resize-c_string (hash_of calc_sha1 key) z),
  )
    where
      accept_key-whole :
          hex_string calc_sha1 memory key ≡ hash_of calc_sha1 key
          → accept_key calc_sha1 memory key ≡ base64_encode (hash_of calc_sha1 key)
      accept_key-whole e = ap base64_encode e

  -- For a digest of 20 bytes, the client of this library opens the connection on a header whose
  -- Sec-WebSocket-Accept is the accept key of the server of this library for the client's nonce,
  -- whatever stands in the memory of the two behind the digest.
  pub check_accept-accept_key :
      (memory memory' nonce_base64 : Bytes) (header : Multimap)
      → IsDigest (hash_of calc_sha1 nonce_base64)
      → find_field (codes "Sec-WebSocket-Accept") header
        ≡ some (accept_key calc_sha1 memory nonce_base64)
      → check_accept calc_sha1 memory' nonce_base64 header ≡ opens
  unfolding check_accept
  check_accept-accept_key memory memory' nonce_base64 header d found = rw (
    found,
    check_accept,
    base64_decode-accept_key memory nonce_base64 d,
    hex_string-cut memory nonce_base64 d,
    hex_string-cut memory' nonce_base64 d,
    bytes_eq_refl (
        c_string (
          resize (length (hash_of calc_sha1 nonce_base64))
            (c_string (hash_of calc_sha1 nonce_base64)))),
  )
