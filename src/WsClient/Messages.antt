-- ===== src/WsClient/Messages.antt =====
-- websocket/client_ws.hpp: what a client is told of the messages of the server, whole or in fragments.
use juce_simpleweb.Prelude.{
  ℕ, ◌+◌, ◌≤◌, ◌<◌, ◌≡◌, refl, sym, ap, subst, ◌∙◌, Bool, true, false, none, some, List, [], ◌∷◌,
  ◌++◌, append_assoc, append-nil, arith, length, length-append, Bytes, All,
}
use juce_simpleweb.Frame.{size_t_mod}
use juce_simpleweb.WsServer.{InMessage}
use juce_simpleweb.WsServer.Reader.{is_final}
use juce_simpleweb.WsClient.{ClientEvent, received, read_head, ClientConnection, told}
use juce_simpleweb.WsClient.Reader.{whole, kept, joined}
use juce_simpleweb.WsClient.Transport.{Reaches, now, idle, message}
use juce_simpleweb.WsClient.Steps.{
  NoControl, after_message, after_fragment, handle_frame-message, handle_frame-fragment,
}
use juce_simpleweb.WsClient.Frames.{server_frame, Continues, frame-Reaches}

-- A message of the server: its opcode without the final bit, and its fragments; the last one is apart.
pub record ServerMessage : Type 0 where
  pub op : ℕ
  pub fragments : List Bytes
  pub last : Bytes

-- The bytes of a message's fragments from some point on, and their frames.
abbrev pub content_of : List Bytes → Bytes → Bytes
content_of [] last = last
content_of (p ∷ ps) last = p ++ content_of ps last

abbrev pub later_frames : List Bytes → Bytes → Bytes
later_frames [] last = server_frame 128 last
later_frames (p ∷ ps) last = server_frame 0 p ++ later_frames ps last

abbrev pub first_frames : ℕ → List Bytes → Bytes → Bytes
first_frames op [] last = server_frame (op + 128) last
first_frames op (p ∷ ps) last = server_frame op p ++ later_frames ps last

abbrev pub server_frames : List ServerMessage → Bytes
server_frames [] = []
server_frames (s ∷ ms) = first_frames s.op s.fragments s.last ++ server_frames ms

abbrev pub content : ServerMessage → Bytes
content s = content_of s.fragments s.last

-- A message that the client has room for; it is no control frame.
pub record IsMessage (limit : ℕ) (s : ServerMessage) : Type 0 where
  pub not_final : s.op < 128
  pub no_control : NoControl s.op
  pub fits : length (content s) ≤ limit
  pub small : length (content s) < size_t_mod

abbrev pub reports : Bool → List ServerMessage → List ClientEvent
reports is_set [] = []
reports is_set (s ∷ ms) =
    told is_set (received (s.op + 128) (length (content s)) (content s)) ++ reports is_set ms

abbrev pub after_messages : List ServerMessage → ClientConnection → ClientConnection
after_messages ms c = record c {
  fragmented_in_message = none;
  log = c.log ++ reports c.handlers.on_message ms;
}

-- The client waits for the next frame; of what the server sent, `more` is in its buffer or not
-- read.
abbrev pub Waits : ClientConnection → Bytes → ClientConnection → Bytes → Type 0
Waits d more c rest =
    (m : InMessage) × (c ≡ idle d m (read_head (length m.streambuf))) × (m.streambuf ++ rest ≡ more)

after_messages-nil :
    (c : ClientConnection) → c.fragmented_in_message ≡ none → c ≡ after_messages [] c
after_messages-nil c z =
    ap (λ l. record c { log = l }) (sym (append-nil c.log))
    ∙ ap (λ f. record c { fragmented_in_message = f; log = c.log ++ [] }) z

after_messages-cons :
    (s : ServerMessage) (ms : List ServerMessage) (c : ClientConnection)
    → after_messages ms (after_message (message (s.op + 128) (length (content s)) (content s)) c)
      ≡ after_messages (s ∷ ms) c
after_messages-cons s ms c =
    ap (λ l. record c { fragmented_in_message = none; log = l })
      (append_assoc c.log
        (told c.handlers.on_message (received (s.op + 128) (length (content s)) (content s)))
        (reports c.handlers.on_message ms))

-- The fragments of a message so far.
abbrev collected : ℕ → Bytes → ClientConnection → ClientConnection
collected op s c = after_fragment (message op (length s) s) c

module _ (mask : Bytes) where
  joined-message :
      (op op' : ℕ) (s p : Bytes)
      → length s + length p < size_t_mod
      → joined mask (message op (length s) s) (message op' (length p) p)
        ≡ message op (length (s ++ p)) (s ++ p)
  joined-message op op' s p h = ap (λ n. message op n (s ++ p)) (omega (arith, length-append s p))

  kept-first :
      (op : ℕ) (p : Bytes)
      → op < 128
      → kept mask none (message op (length p) p) ≡ message (op + 128) (length p) p
  kept-first op p h = ap (λ o. message o (length p) p) (omega arith)

  later-Reaches :
      (P : ClientConnection → Bytes → Type 0) (c : ClientConnection) (op : ℕ) (s : Bytes)
      (ps : List Bytes) (last more : Bytes) (m : InMessage) (stream : Bytes)
      → length s + length (content_of ps last) ≤ c.config.max_message_size
      → length s + length (content_of ps last) < size_t_mod
      → Continues mask P
          (after_message
            (message op (length (s ++ content_of ps last)) (s ++ content_of ps last))
            c)
          more
      → m.streambuf ++ stream ≡ later_frames ps last ++ more
      → Reaches mask P (idle (collected op s c) m (read_head (length m.streambuf))) stream
  later-Reaches P c op s [] last more m stream a b k e =
      frame-Reaches mask P (collected op s c)
        (after_message (message op (length (s ++ last)) (s ++ last)) c) 128 last more
        (omega arith, omega arith)
        (λ n m' t.
          handle_frame-message mask n (message 128 (length last) last) m' t (collected op s c) refl
            ((λ e. omega arith), (λ e. omega arith), (λ e. omega arith))
          ∙ ap (λ w. some (idle (after_message w c) m' (read_head n)))
              (joined-message op 128 s last b))
        k m stream e
  later-Reaches P c op s (p ∷ ps) last more m stream a b k e =
      let total = length-append p (content_of ps last) in
      let grown = length-append s p in
      frame-Reaches mask P (collected op s c) (collected op (s ++ p) c) 0 p
        (later_frames ps last ++ more) (omega arith, omega arith)
        (λ n m' t.
          handle_frame-fragment mask n (message 0 (length p) p) m' t (collected op s c) refl
            ((λ e. omega arith), (λ e. omega arith), (λ e. omega arith))
          ∙ ap (λ w. some (idle (after_fragment w c) m' (read_head n)))
              (joined-message op 0 s p (omega arith)))
        (λ m' stream' e'.
          later-Reaches P c op (s ++ p) ps last more m' stream' (omega arith) (omega arith)
            (subst (λ t. Continues mask P (after_message (message op (length t) t) c) more)
              (sym (append_assoc s p (content_of ps last))) k)
            e')
        m stream (e ∙ append_assoc (server_frame 0 p) (later_frames ps last) more)

  message-Reaches :
      (P : ClientConnection → Bytes → Type 0) (c : ClientConnection) (op : ℕ) (ps : List Bytes)
      (last more : Bytes) (m : InMessage) (stream : Bytes)
      → c.fragmented_in_message ≡ none
      → IsMessage c.config.max_message_size (record { op = op; fragments = ps; last = last })
      → Continues mask P
          (after_message (message (op + 128) (length (content_of ps last)) (content_of ps last)) c)
          more
      → m.streambuf ++ stream ≡ first_frames op ps last ++ more
      → Reaches mask P (idle c m (read_head (length m.streambuf))) stream
  message-Reaches P c op [] last more m stream z h k e =
      frame-Reaches mask P c (after_message (message (op + 128) (length last) last) c) (op + 128)
        last more (rw z (omega (arith, h.fits), omega (arith, h.small)))
        (λ n m' t.
          handle_frame-message mask n (message (op + 128) (length last) last) m' t c (final op)
            (control op h.no_control)
          ∙ ap
              (λ w. some (
                idle (after_message (whole mask w (message (op + 128) (length last) last)) c) m'
                  (read_head n)))
              z)
        k m stream e
    where
      final : (op : ℕ) → is_final (op + 128) ≡ true
      final op = ground arith

      control : (op : ℕ) → NoControl op → NoControl (op + 128)
      control op (x, y, z) =
          ((λ e. x (omega (arith, e))), (λ e. y (omega (arith, e))), (λ e. z (omega (arith, e))))
  message-Reaches P c op (p ∷ ps) last more m stream z h k e =
      let total = length-append p (content_of ps last) in
      frame-Reaches mask P c (collected (op + 128) p c) op p (later_frames ps last ++ more)
        (rw z (omega (arith, h.fits, total), omega (arith, h.small, total)))
        (λ n m' t.
          handle_frame-fragment mask n (message op (length p) p) m' t c (partial op h.not_final)
            h.no_control
          ∙ ap
              (λ w.
                some (
                  idle (after_fragment (kept mask w (message op (length p) p)) c) m' (read_head n)))
              z
          ∙ ap (λ w. some (idle (after_fragment w c) m' (read_head n)))
              (kept-first op p h.not_final))
        (λ m' stream' e'.
          later-Reaches P c (op + 128) p ps last more m' stream' (omega (arith, h.fits, total))
            (omega (arith, h.small, total)) k e')
        m stream (e ∙ append_assoc (server_frame op p) (later_frames ps last) more)
    where
      partial : (op : ℕ) → op < 128 → is_final op ≡ false
      partial op h = ground arith

-- A client that keeps no fragments is told of the messages that the server sends, each once and in
-- their order, with its opcode and the bytes of its fragments put together, wherever the bytes in
-- its buffer end and the reads begin; then it waits for the next frame. A message has any number of
-- fragments, is no control frame, and is within the limit.
pub messages-Reaches :
    (mask : Bytes) (ms : List ServerMessage) (c : ClientConnection) (m : InMessage)
    (stream more : Bytes)
    → c.fragmented_in_message ≡ none
    → All (IsMessage c.config.max_message_size) ms
    → m.streambuf ++ stream ≡ server_frames ms ++ more
    → Reaches mask
        (Waits (after_messages ms c) more)
        (idle c m (read_head (length m.streambuf)))
        stream
messages-Reaches mask [] c m stream more z h e =
    now (m, ap (λ d. idle d m (read_head (length m.streambuf))) (after_messages-nil c z), e)
messages-Reaches mask (s ∷ ms) c m stream more z (h, hs) e =
    let first = message (s.op + 128) (length (content s)) (content s) in
    message-Reaches mask (Waits (after_messages (s ∷ ms) c) more) c s.op s.fragments s.last
      (server_frames ms ++ more) m stream z h
      (λ m' stream' e'.
        subst
          (λ d.
            Reaches mask (Waits d more)
              (idle (after_message first c) m' (read_head (length m'.streambuf))) stream')
          (after_messages-cons s ms c)
          (messages-Reaches mask ms (after_message first c) m' stream' more refl hs e'))
      (e ∙ append_assoc (first_frames s.op s.fragments s.last) (server_frames ms) more)
