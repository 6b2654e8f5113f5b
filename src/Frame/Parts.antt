-- ===== src/Frame/Parts.antt =====
-- websocket/client_ws.hpp: the parts of a frame, as the reads of the server cut it.
use juce_simpleweb.Prelude.{
  ℕ, ◌+◌, ◌≡◌, inl, inr, [], ◌∷◌, ◌++◌, append_assoc, leb, ltb, if◌then◌else◌, length, Bytes,
  Bool-cases,
}
use juce_simpleweb.Frame.{put_length, client_header, client_frame, apply_mask}

-- The second byte of the frame's head, and the bytes of the length behind it.
abbrev pub size_byte : ℕ → ℕ
size_byte n = if leb 126 n then (if ltb 0xffff n then 127 + 128 else 126 + 128) else n + 128

abbrev pub size_bytes : ℕ → Bytes
size_bytes n = if leb 126 n then (if ltb 0xffff n then put_length 8 n else put_length 2 n) else []

-- A client's frame is its head, the bytes of its length, the mask and the masked message.
pub client_frame-split :
    (op : ℕ) (mask payload : Bytes)
    → client_frame op mask payload
      ≡ (op ∷ size_byte (length payload) ∷ [])
        ++ (size_bytes (length payload) ++ (mask ++ apply_mask mask 0 payload))
unfolding client_frame client_header
client_frame-split op mask payload = elim (Bool-cases (leb 126 (length payload))) [
  | inl long ↦ elim (Bool-cases (ltb 0xffff (length payload))) [
    | inl huge ↦ rw (long, huge) (simp append_assoc)
    | inr medium ↦ rw (long, medium) (simp append_assoc)
  ]
  | inr short ↦ rw short
]
