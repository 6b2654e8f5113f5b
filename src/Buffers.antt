-- ===== src/Buffers.antt =====
-- A buffer in front of a stream, as the reads of websocket/client_ws.hpp and webserver/server_http.hpp
-- have it: bytes that were read ahead count as read.
use juce_simpleweb.Prelude.{
  ◌-◌, ◌≡◌, inl, inr, refl, sym, ap, ◌∙◌, [], ◌++◌, append-nil, append-cut, arith, leb, length,
  length-append, Bytes, Bool-cases,
}

-- What the buffer and the stream hold first is in the buffer behind the read, with what else was
-- there; the read takes no more bytes than it needs.
pub record Refill (left stream front more : Bytes) : Type 0 where
  pub bytes : Bytes
  pub left' : Bytes
  pub stream' : Bytes
  pub split : stream ≡ bytes ++ stream'
  pub size : length bytes ≡ length front - length left
  pub buffer : left ++ bytes ≡ front ++ left'
  pub still : left' ++ stream' ≡ more
  pub size_left : length left' ≡ length left - length front

pub refill :
    (left stream front more : Bytes)
    → left ++ stream ≡ front ++ more
    → Refill left stream front more
refill left stream front more e = elim (Bool-cases (leb (length left) (length front))) [
  | inl h ↦
      let (t, p, q) = append-cut left stream front more e (ground arith) in
      let total = ap length p ∙ length-append left t in
      record {
        bytes = t;
        left' = [];
        stream' = more;
        split = q;
        size = ground (arith, total);
        buffer = sym p ∙ sym (append-nil front);
        still = refl;
        size_left = ground (arith, total);
      }
  | inr h ↦
      let (t, p, q) = append-cut front more left stream (sym e) (ground arith) in
      let total = ap length p ∙ length-append front t in
      record {
        bytes = [];
        left' = t;
        stream' = stream;
        split = refl;
        size = ground (arith, total);
        buffer = append-nil left ∙ p;
        still = sym q;
        size_left = ground (arith, total);
      }
]
