-- ===== src/WsServer/Fragments.antt =====
-- websocket/server_ws.hpp: a message in fragments reaches the endpoint as one message.
use juce_simpleweb.Prelude.{
  ℕ, ◌+◌, ◌%◌, ◌≤◌, ◌<◌, ◌≡◌, ◌≢◌, refl, sym, ap, ◌∙◌, true, false, Option, none, some, List, [],
  ◌∷◌, ◌++◌, append_assoc, arith, length, length-append, Bytes,
}
use juce_simpleweb.Frame.{size_t_mod}
use juce_simpleweb.WsServer.{
  InMessage, read_head, Connection, timer_for, set_timeout, cancel_timeout,
}
use juce_simpleweb.WsServer.Reader.{
  read_message, handle_frame, target, is_fragment, is_final, set_final, opcode,
}
use juce_simpleweb.WsServer.Transport.{
  Delivers, Delivers-append, Delivers-client_frame, Fits, ready, receive,
}
use juce_simpleweb.WsServer.Messages.{
  Sent, frame_of, IsData, after_message, handle_frame-message, handle_frame-fragment,
}

-- The kept message with one more fragment.
abbrev pub grown : ℕ → Bytes → Option InMessage → InMessage
grown op payload none = record {
  fin_rsv_opcode = set_final op;
  length = length payload;
  streambuf = payload;
}
grown op payload (some m) = record m {
  length = (m.length + length payload) % size_t_mod;
  streambuf = m.streambuf ++ payload;
}

-- The connection that has kept a fragment and reads on.
abbrev pub after_fragment : InMessage → Connection → Connection
after_fragment m c = record c {
  timer = timer_for c.timeout_idle;
  reading = read_head;
  fragmented_in_message = some m;
}

target-grown :
    (op : ℕ) (payload : Bytes) (kept : Option InMessage)
    → is_fragment op ≡ true
    → (let start = target op (length payload) kept in
        record start { streambuf = start.streambuf ++ payload })
      ≡ grown op payload kept
unfolding target
target-grown op payload none g = rw g
target-grown op payload (some m) g = rw g

receive-grown :
    (op : ℕ) (payload : Bytes) (c : Connection)
    → is_fragment op ≡ true
    → receive op payload c
      ≡ handle_frame op
          (length payload)
          (grown op payload c.fragmented_in_message)
          (record c { fragmented_in_message = some (grown op payload c.fragmented_in_message) })
unfolding receive
receive-grown op payload c g = rw (target-grown op payload c.fragmented_in_message g, g)

receive_fragment :
    (op : ℕ) (payload : Bytes) (c : Connection)
    → is_final op ≡ false
    → opcode op ≢ 8
    → opcode op ≢ 9
    → opcode op ≢ 10
    → receive op payload (ready c)
      ≡ some (after_fragment (grown op payload c.fragmented_in_message) c)
unfolding read_message set_timeout cancel_timeout
receive_fragment op payload c f a b d =
    receive-grown op payload (ready c) (rw f)
    ∙ handle_frame-fragment op (length payload) _ _ f a b d

receive_last :
    (op : ℕ) (payload : Bytes) (m : InMessage) (c : Connection)
    → is_final op ≡ true
    → opcode op ≡ 0
    → c.fragmented_in_message ≡ some m
    → receive op payload (ready c)
      ≡ some (
          after_message m.fin_rsv_opcode
            ((m.length + length payload) % size_t_mod)
            (m.streambuf ++ payload)
            c)
unfolding set_timeout cancel_timeout read_message
receive_last op payload m c f z k =
    receive-grown op payload (ready c) (rw f (rw z))
    ∙ handle_frame-message op (length payload) _ _ f (λ e. absurd (omega arith))
        (λ e. absurd (omega arith)) (λ e. absurd (omega arith))
    ∙ ap (λ kept. some (told_of (grown op payload kept))) k
  where
    told_of : InMessage → Connection
    told_of g = after_message g.fin_rsv_opcode g.length g.streambuf c

-- The frames between the first and the last, and the content that they carry.
abbrev pub frames : List Sent → Bytes
frames [] = []
frames (s ∷ ss) = frame_of 0 s ++ frames ss

abbrev pub content : List Sent → Bytes
content [] = []
content (s ∷ ss) = s.payload ++ content ss

fragment-Fits :
    (n : ℕ) (m : InMessage) (c : Connection)
    → c.fragmented_in_message ≡ some m
    → n + m.length ≤ c.config.max_message_size
    → n + m.length < size_t_mod
    → Fits n c
fragment-Fits n m c k a b = rw k (a, b)

-- The same stream, size and content in other words.
recast :
    {op op' n n' : ℕ} {c : Connection} {s s' l l' : Bytes}
    → s' ≡ s
    → op ≡ op'
    → n ≡ n'
    → l ≡ l'
    → Delivers c s (after_message op n l c)
    → Delivers c s' (after_message op' n' l' c)
recast e o f g d = rw (e, ← o, ← f, ← g) d

-- A kept message of `n` bytes more, where the sum does not wrap.
abbrev longer : InMessage → Bytes → InMessage
longer m payload = record m {
  length = m.length + length payload;
  streambuf = m.streambuf ++ payload;
}

grown-longer :
    (op : ℕ) (payload : Bytes) (m : InMessage)
    → m.length + length payload < size_t_mod
    → grown op payload (some m) ≡ longer m payload
grown-longer op payload m h =
    let size : (m.length + length payload) % size_t_mod ≡ m.length + length payload = omega arith in
    rw size

Delivers-rest :
    (middle : List Sent) (last : Sent) (m : InMessage) (c : Connection)
    → c.reading ≡ read_head
    → c.fragmented_in_message ≡ some m
    → m.length + length (content middle ++ last.payload) ≤ c.config.max_message_size
    → m.length + length (content middle ++ last.payload) + 4 < size_t_mod
    → Delivers c (frames middle ++ frame_of 128 last) (
        after_message m.fin_rsv_opcode
          (m.length + length (content middle ++ last.payload))
          (m.streambuf ++ (content middle ++ last.payload))
          c)
Delivers-rest [] last m c r k a b =
    let size : (m.length + length last.payload) % size_t_mod ≡ m.length + length last.payload =
      omega arith in
    Delivers-client_frame 128 last.m0 last.m1 last.m2 last.m3 last.payload c _ r (omega arith)
      (fragment-Fits (length last.payload) m c k (omega arith) (omega arith))
      (receive_last 128 last.payload m c refl refl k
        ∙ ap (λ n. some (after_message m.fin_rsv_opcode n (m.streambuf ++ last.payload) c)) size)
Delivers-rest (s ∷ middle) last m c r k a b =
    let more = content middle ++ last.payload in
    let total : length ((s.payload ++ content middle) ++ last.payload)
        ≡ length s.payload + length more =
      ap length (append_assoc s.payload (content middle) last.payload)
      ∙ length-append s.payload more in
    let g = longer m s.payload in
    recast (append_assoc (frame_of 0 s) (frames middle) (frame_of 128 last)) refl
      (omega (arith, total))
      (append_assoc m.streambuf s.payload more
        ∙ ap (◌++◌ m.streambuf) (sym (append_assoc s.payload (content middle) last.payload)))
      (Delivers-append
        (Delivers-client_frame 0 s.m0 s.m1 s.m2 s.m3 s.payload c (after_fragment g c) r
          (omega (arith, total))
          (fragment-Fits (length s.payload) m c k (omega (arith, total)) (omega (arith, total)))
          (receive_fragment 0 s.payload c refl (λ e. absurd (omega arith))
              (λ e. absurd (omega arith)) (λ e. absurd (omega arith))
            ∙ ap (λ kept. some (after_fragment (grown 0 s.payload kept) c)) k
            ∙ ap (λ kept. some (after_fragment kept c))
                (grown-longer 0 s.payload m (omega (arith, total)))))
        (Delivers-rest middle last g (after_fragment g c) refl refl (omega (arith, total))
          (omega (arith, total))))

-- A data message that a client sends in fragments, a first frame with its opcode, any number of
-- continuations and a final one, to a connection that waits for a frame and keeps no fragments,
-- reaches on_message once, if that is set: with the opcode of the first frame and the final
-- bit, the total size, and the payloads one after another. The total must fit the configured
-- size.
pub Delivers-fragments :
    (op : ℕ) (first : Sent) (middle : List Sent) (last : Sent) (c : Connection)
    → c.reading ≡ read_head
    → c.fragmented_in_message ≡ none
    → op < 128
    → IsData op
    → length (first.payload ++ (content middle ++ last.payload)) ≤ c.config.max_message_size
    → length (first.payload ++ (content middle ++ last.payload)) + 4 < size_t_mod
    → Delivers c (frame_of op first ++ (frames middle ++ frame_of 128 last)) (
        after_message
          (op + 128)
          (length (first.payload ++ (content middle ++ last.payload)))
          (first.payload ++ (content middle ++ last.payload))
          c)
Delivers-fragments op first middle last c r k h i a b =
    let more = content middle ++ last.payload in
    let total = length-append first.payload more in
    let g = grown op first.payload none in
    let open_bit : set_final op ≡ op + 128 = omega arith in
    let not_final : is_final op ≡ false = ground arith in
    recast refl open_bit (omega (arith, total)) refl (
      Delivers-append
        (Delivers-client_frame op first.m0 first.m1 first.m2 first.m3 first.payload c
          (after_fragment g c) r (omega (arith, total))
          (fits k (omega (arith, total)) (omega (arith, total)))
          (receive_fragment op first.payload c not_final i.1 i.2 i.3
            ∙ ap (λ kept. some (after_fragment (grown op first.payload kept) c)) k))
        (Delivers-rest middle last g (after_fragment g c) refl refl (omega (arith, total))
          (omega (arith, total))))
  where
    fits :
        {n : ℕ}
        → c.fragmented_in_message ≡ none
        → n ≤ c.config.max_message_size
        → n < size_t_mod
        → Fits n c
    fits k a b = rw k (omega arith, omega arith)
