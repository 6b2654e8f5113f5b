-- ===== src/WsClient/Frames.antt =====
-- websocket/client_ws.hpp: a frame of the server is read, from the buffer and the stream.
use juce_simpleweb.Prelude.{
  ℕ, ◌-◌, ◌<◌, ◌≡◌, inl, inr, refl, sym, ap, ◌∙◌, some, [], ◌∷◌, ◌++◌, append_assoc, arith, leb,
  ltb, length, Bytes, Bool-cases,
}
use juce_simpleweb.Frame.{put_length, server_header, sum_length}
use juce_simpleweb.Frame.Length.{
  length-put_length, sum_length-put_length_two, sum_length-put_length_eight,
}
use juce_simpleweb.WsServer.{InMessage}
use juce_simpleweb.WsClient.{read_head, read_content, read_length, ClientConnection}
use juce_simpleweb.WsClient.Reader.{read_message_content, head_bytes, handle_frame}
use juce_simpleweb.WsClient.Transport.{Reaches, idle, busy, message, one_read}
use juce_simpleweb.WsClient.Steps.{
  Fits, on_head-two, read_message_content-Fits, head_bytes-short, head_bytes-medium,
  head_bytes-huge, on_length-size, on_content-payload,
}

-- The bytes of a frame as the server's `send` queues them.
abbrev pub server_frame : ℕ → Bytes → Bytes
server_frame op payload = server_header op (length payload) ++ payload

-- What follows a frame: the next one is awaited, and the rest of the stream is in the buffer or
-- still to be read.
abbrev pub Continues :
    Bytes → (ClientConnection → Bytes → Type 0) → ClientConnection → Bytes → Type 0
Continues mask P c more =
    (m : InMessage) (stream : Bytes)
    → m.streambuf ++ stream ≡ more
    → Reaches mask P (idle c m (read_head (length m.streambuf))) stream

module _ (mask : Bytes) (P : ClientConnection → Bytes → Type 0) (c d : ClientConnection) (op : ℕ)
    (payload more : Bytes) (l : Fits (length payload) c)
    (handled : (n : ℕ) (m s : InMessage)
      → handle_frame mask n (message op (length payload) payload) m (busy c s)
        ≡ some (idle d m (read_head n)))
    (k : Continues mask P d more) where
  content_read :
      (left stream : Bytes) (n : ℕ)
      → n ≡ length left
      → left ++ stream ≡ payload ++ more
      → Reaches mask P (idle c (message op (length payload) left) (read_content n)) stream
  content_read left stream n z e =
      one_read mask P c (message op (length payload) left) (read_content n) stream payload more
        (ap (λ b. some (length payload - b)) z) e
        λ left' stream' still size.
          let (m, same, step) =
            on_content-payload mask n (length payload - length left) op payload left' c
              (size ∙ ap (λ b. b - length payload) (sym z)) in
          (
            _,
            step ∙ handled (length left') m _,
            rw (ap length (sym same)) (k m stream' (ap (λ s. s ++ stream') same ∙ still)),
          )

  length_read :
      (size left stream : Bytes) (n old : ℕ)
      → n ≡ length left
      → sum_length 0 size ≡ length payload
      → left ++ stream ≡ size ++ (payload ++ more)
      → Reaches mask P (idle c (message op old left) (read_length (length size) n)) stream
  length_read size left stream n old z s e =
      one_read mask P c (message op old left) (read_length (length size) n) stream size
        (payload ++ more) (ap (λ b. some (length size - b)) z) e
        λ left' stream' still fits. (
          _,
          on_length-size mask n (length size - length left) size left' c (message op old left)
              ∙ ap (λ m. read_message_content mask (n - length size) (busy c (message op m left')))
                  s
              ∙ read_message_content-Fits mask (n - length size) c
                  (message op (length payload) left') l,
          content_read left' stream' (n - length size) (ap (λ b. b - length size) z ∙ sym fits)
              still,
        )

  head_read :
      (m : InMessage) (stream tail : Bytes) (second : ℕ)
      → m.streambuf ++ stream ≡ op ∷ second ∷ tail
      → ((left stream' : Bytes)
          → left ++ stream' ≡ tail
          → length left ≡ length m.streambuf - 2
          → (c' : ClientConnection) × (head_bytes mask
                (length m.streambuf)
                (busy c (message m.fin_rsv_opcode m.length (op ∷ second ∷ left)))
              ≡ some c')
            × Reaches mask P c' stream')
      → Reaches mask P (idle c m (read_head (length m.streambuf))) stream
  head_read m stream tail second e k' =
      one_read mask P c m (read_head (length m.streambuf)) stream (op ∷ second ∷ []) tail refl e
        λ left stream' still size.
          let (c', p, rest) = k' left stream' still size in
          (
            c',
            on_head-two mask (length m.streambuf) (2 - length m.streambuf) op second left c m ∙ p,
            rest,
          )

  short_frame :
      (m : InMessage) (stream : Bytes)
      → length payload < 126
      → m.streambuf ++ stream ≡ op ∷ length payload ∷ (payload ++ more)
      → Reaches mask P (idle c m (read_head (length m.streambuf))) stream
  short_frame m stream h e =
      head_read m stream (payload ++ more) (length payload) e λ left stream' still size. (
        _,
        head_bytes-short mask (length m.streambuf) op (length payload) left c m h
            ∙ read_message_content-Fits mask (length m.streambuf - 2) c
                (message op (length payload) left) l,
        content_read left stream' (length m.streambuf - 2) (sym size) still,
      )

  long_frame :
      (m : InMessage) (stream size : Bytes) (second : ℕ)
      → ((n : ℕ) (left : Bytes)
          → head_bytes mask n (busy c (message m.fin_rsv_opcode m.length (op ∷ second ∷ left)))
            ≡ some (idle c (message op m.length left) (read_length (length size) (n - 2))))
      → sum_length 0 size ≡ length payload
      → m.streambuf ++ stream ≡ op ∷ second ∷ (size ++ (payload ++ more))
      → Reaches mask P (idle c m (read_head (length m.streambuf))) stream
  long_frame m stream size second head s e =
      head_read m stream (size ++ (payload ++ more)) second e λ left stream' still fits. (
        _,
        head (length m.streambuf) left,
        length_read size left stream' (length m.streambuf - 2) m.length (sym fits) s still,
      )

  -- A frame of the server that fits, whose handler awaits the next one.
  pub frame-Reaches :
      (m : InMessage) (stream : Bytes)
      → m.streambuf ++ stream ≡ server_frame op payload ++ more
      → Reaches mask P (idle c m (read_head (length m.streambuf))) stream
  unfolding server_header
  frame-Reaches m stream e = elim (Bool-cases (leb 126 (length payload))) [
    | inl long ↦ elim (Bool-cases (ltb 0xffff (length payload))) [
      | inl huge ↦
          long_frame m stream (put_length 8 (length payload)) 127
            (λ n left.
              head_bytes-huge mask n op left c m
              ∙ ap (λ k. some (idle c (message op m.length left) (read_length k (n - 2))))
                  (sym (length-put_length 8 (length payload))))
            (sum_length-put_length_eight (length payload) (omega (arith, l.1)))
            (e ∙ rw (long, huge) (simp append_assoc))
      | inr medium ↦
          long_frame m stream (put_length 2 (length payload)) 126
            (λ n left.
              head_bytes-medium mask n op left c m
              ∙ ap (λ k. some (idle c (message op m.length left) (read_length k (n - 2))))
                  (sym (length-put_length 2 (length payload))))
            (sum_length-put_length_two (length payload) (ground arith))
            (e ∙ rw (long, medium) (simp append_assoc))
    ]
    | inr short ↦ short_frame m stream (ground arith) (e ∙ rw short refl)
  ]
