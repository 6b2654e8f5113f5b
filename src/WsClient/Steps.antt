-- ===== src/WsClient/Steps.antt =====
-- websocket/client_ws.hpp: what the handlers of a frame's reads do with the bytes they waited for.
use juce_simpleweb.Prelude.{
  false, ℕ, suc, ◌+◌, ◌-◌, ◌≤◌, ◌<◌, ◌≡◌, ◌≢◌, inl, inr, refl, sym, ap, true, none, some, [], ◌∷◌,
  ◌++◌, append-nil, arith, ◌==◌, length, take-append, drop-append, Bytes, Bool-cases, ne→==_false,
  lt→ltb,
}
use juce_simpleweb.Frame.{size_t_mod, sum_length}
use juce_simpleweb.Handshake.{resize}
use juce_simpleweb.WsServer.{InMessage}
use juce_simpleweb.WsServer.Reader.{is_final, opcode, fragmented_length}
use juce_simpleweb.WsClient.{
  received, read_head, read_content, read_length, ClientConnection, new_message, set_timeout, told,
}
use juce_simpleweb.WsClient.Reader.{
  read_message, read_message_content, head_bytes, on_head, on_length, on_content, on_bytes,
  handle_frame, whole, kept,
}
use juce_simpleweb.WsClient.Transport.{idle, busy, message}

-- A length within the limit is read; the sum does not wrap.
abbrev pub Fits : ℕ → ClientConnection → Type 0
Fits n c =
    (n + fragmented_length c.fragmented_in_message ≤ c.config.max_message_size)
    × (n + fragmented_length c.fragmented_in_message < size_t_mod)

abbrev pub NoControl : ℕ → Type 0
NoControl op = (opcode op ≢ 8) × (opcode op ≢ 9) × (opcode op ≢ 10)

-- The connection after the last frame of a message.
abbrev pub after_message : InMessage → ClientConnection → ClientConnection
after_message m c = record c {
  fragmented_in_message = none;
  log = c.log ++ told c.handlers.on_message (received m.fin_rsv_opcode m.length m.streambuf);
}

-- The connection after another frame of a message.
abbrev pub after_fragment : InMessage → ClientConnection → ClientConnection
after_fragment m c = record c { fragmented_in_message = some m }

resize-front : (size left : Bytes) → resize (length size) (size ++ left) ≡ size
unfolding resize
resize-front [] left = refl
resize-front (x ∷ size) left = ap (◌∷◌ x) (resize-front size left)

module _ (mask : Bytes) where
  pub on_head-two :
      (n t op second : ℕ) (left : Bytes) (c : ClientConnection) (m : InMessage)
      → on_bytes mask
          (read_head n)
          t
          (busy c (message m.fin_rsv_opcode m.length (op ∷ second ∷ left)))
        ≡ head_bytes mask n (busy c (message m.fin_rsv_opcode m.length (op ∷ second ∷ left)))
  unfolding on_bytes on_head
  on_head-two n t op second left c m = elim (Bool-cases (t == 0)) [
    | inl e ↦ rw e (ground arith)
    | inr e ↦ rw e refl
  ]

  pub read_message_content-Fits :
      (n : ℕ) (c : ClientConnection) (m : InMessage)
      → Fits m.length c
      → read_message_content mask n (busy c m) ≡ some (idle c m (read_content n))
  unfolding read_message_content set_timeout
  read_message_content-Fits n c m f = ground arith

  pub head_bytes-short :
      (n op len : ℕ) (left : Bytes) (c : ClientConnection) (m : InMessage)
      → len < 126
      → head_bytes mask n (busy c (message m.fin_rsv_opcode m.length (op ∷ len ∷ left)))
        ≡ read_message_content mask (n - 2) (busy c (message op len left))
  unfolding head_bytes
  head_bytes-short n op len left c m h = ground arith

  pub head_bytes-medium :
      (n op : ℕ) (left : Bytes) (c : ClientConnection) (m : InMessage)
      → head_bytes mask n (busy c (message m.fin_rsv_opcode m.length (op ∷ 126 ∷ left)))
        ≡ some (idle c (message op m.length left) (read_length 2 (n - 2)))
  unfolding head_bytes set_timeout
  head_bytes-medium n op left c m = refl

  pub head_bytes-huge :
      (n op : ℕ) (left : Bytes) (c : ClientConnection) (m : InMessage)
      → head_bytes mask n (busy c (message m.fin_rsv_opcode m.length (op ∷ 127 ∷ left)))
        ≡ some (idle c (message op m.length left) (read_length 8 (n - 2)))
  unfolding head_bytes set_timeout
  head_bytes-huge n op left c m = refl

  pub on_length-size :
      (n t : ℕ) (size left : Bytes) (c : ClientConnection) (m : InMessage)
      → on_bytes mask
          (read_length (length size) n)
          t
          (busy c (message m.fin_rsv_opcode m.length (size ++ left)))
        ≡ read_message_content mask
            (n - length size)
            (busy c (message m.fin_rsv_opcode (sum_length 0 size) left))
  unfolding on_bytes on_length
  on_length-size n t size left c m = rw (resize-front size left, drop-append size left) refl

  -- The handler of the content has the payload alone, and what follows it in the next message.
  pub on_content-payload :
      (n t op : ℕ) (payload left : Bytes) (c : ClientConnection)
      → length left ≡ n - length payload
      → (m : InMessage) × (m.streambuf ≡ left)
        × (on_bytes mask (read_content n) t (busy c (message op (length payload) (payload ++ left)))
            ≡ handle_frame mask
                (length left)
                (message op (length payload) payload)
                m
                (busy c (message op (length payload) (payload ++ left))))
  unfolding on_bytes on_content
  on_content-payload n t op payload [] c h = (
    new_message,
    refl,
    rw (sym h, on_content)
        (ap
          (λ s.
            handle_frame mask 0 (message op (length payload) s) new_message
              (busy c (message op (length payload) (payload ++ []))))
          (append-nil payload)),
  )
  on_content-payload n t op payload (x ∷ left) c h = (
    message op (length payload) (x ∷ left),
    refl,
    rw (sym h, on_content)
        (rw
          (
            lt→ltb 0 (suc (length left)) (omega arith),
            take-append payload (x ∷ left),
            drop-append payload (x ∷ left),
          )
          refl),
  )

  pub handle_frame-message :
      (n : ℕ) (m m' s : InMessage) (c : ClientConnection)
      → is_final m.fin_rsv_opcode ≡ true
      → NoControl m.fin_rsv_opcode
      → handle_frame mask n m m' (busy c s)
        ≡ some (idle (after_message (whole mask c.fragmented_in_message m) c) m' (read_head n))
  unfolding handle_frame read_message set_timeout
  handle_frame-message n m m' s c f (a, b, d) =
      rw (ne→==_false _ _ a, ne→==_false _ _ b, ne→==_false _ _ d, f)

  pub handle_frame-fragment :
      (n : ℕ) (m m' s : InMessage) (c : ClientConnection)
      → is_final m.fin_rsv_opcode ≡ false
      → NoControl m.fin_rsv_opcode
      → handle_frame mask n m m' (busy c s)
        ≡ some (idle (after_fragment (kept mask c.fragmented_in_message m) c) m' (read_head n))
  unfolding handle_frame read_message set_timeout
  handle_frame-fragment n m m' s c f (a, b, d) =
      rw (ne→==_false _ _ a, ne→==_false _ _ b, ne→==_false _ _ d, f)
