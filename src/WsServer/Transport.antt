-- ===== src/WsServer/Transport.antt =====
-- websocket/server_ws.hpp: the reads of a connection over a stream of bytes. Each read completes
-- with exactly the bytes that it asked for, the scope's lock and no error.
use juce_simpleweb.Prelude.{
  ℕ, ◌+◌, ◌%◌, ◌≤◌, ◌<◌, ◌≡◌, inl, inr, refl, sym, ap, ◌∙◌, true, Option, none, some, [], ◌∷◌, ◌++◌,
  append-nil, append_assoc, arith, leb, ltb, if◌then◌else◌, length, take, take-append, Bytes,
  Bool-cases,
}
use juce_simpleweb.Frame.{size_t_mod, put_length, client_frame, apply_mask, sum_length}
use juce_simpleweb.Frame.Length.{
  length-put_length, sum_length-put_length_two, sum_length-put_length_eight,
}
use juce_simpleweb.Frame.Parts.{client_frame-split}
use juce_simpleweb.Frame.Mask.{unmask-apply_mask, length-apply_mask}
use juce_simpleweb.WsServer.{
  InMessage, Reading, no_read, read_head, read_length, read_content, Connection, set_timeout,
  cancel_timeout,
}
use juce_simpleweb.WsServer.Reader.{
  on_read, on_bytes, on_head, head_bytes, on_length, read_message_content, fragmented_length,
  on_content, handle_frame, target, is_fragment,
}

-- `transfer_exactly(n)` of the read that is under way; `4 + length` wraps at 64 bits.
abbrev pub transfer : Reading → Option ℕ
transfer no_read = none
transfer read_head = some 2
transfer (read_length num_bytes op) = some num_bytes
transfer (read_content n op) = some ((4 + n) % size_t_mod)

-- The connection reads these bytes, and is in the last state then.
pub data Delivers : Connection → Bytes → Connection → Type 0 where
  done : {c : Connection} → Delivers c [] c
  read :
      {c c' d : Connection} (bytes : Bytes) {rest whole : Bytes}
      → transfer c.reading ≡ some (length bytes)
      → on_read true none bytes c ≡ some c'
      → whole ≡ bytes ++ rest
      → Delivers c' rest d
      → Delivers c whole d

-- Streams follow one another.
pub Delivers-append :
    {c d e : Connection} {s t : Bytes} → Delivers c s d → Delivers d t e → Delivers c (s ++ t) e
Delivers-append done r = r
Delivers-append {t = t} (read bytes {rest = rest} p q e l) r =
    read bytes p q (rw e (append_assoc bytes rest t)) (Delivers-append l r)

-- The connection as the handler of a frame's content finds it.
abbrev pub ready : Connection → Connection
ready c = record (cancel_timeout (set_timeout none c)) { reading = no_read }

-- What the handler of a frame's content does when the content is `payload`.
unfoldable pub receive : ℕ → Bytes → Connection → Option Connection
receive op payload c =
    let start = target op (length payload) c.fragmented_in_message in
    let m : InMessage = record start { streambuf = start.streambuf ++ payload } in
    handle_frame op (length payload) m (record c {
      fragmented_in_message = if is_fragment op then some m else c.fragmented_in_message;
    })

on_content-masked :
    (op : ℕ) (m0 m1 m2 m3 : ℕ) (payload : Bytes) (c : Connection)
    → on_content
        (length payload)
        op
        ((m0 ∷ m1 ∷ m2 ∷ m3 ∷ []) ++ apply_mask (m0 ∷ m1 ∷ m2 ∷ m3 ∷ []) 0 payload)
        c
      ≡ receive op payload c
unfolding on_content receive
on_content-masked op m0 m1 m2 m3 payload c =
    rw (unmask-apply_mask (m0 ∷ m1 ∷ m2 ∷ m3 ∷ []) 0 payload)

-- A handler's state: its timeout is cancelled and its read taken off; and the state that waits
-- for a read.
abbrev pub taken : Connection → Connection
taken c = record (cancel_timeout c) { reading = no_read }

abbrev pub waiting : Reading → Connection → Connection
waiting r c = record (set_timeout none c) { reading = r }

pub on_read-head :
    (op second : ℕ) (c : Connection)
    → c.reading ≡ read_head
    → on_read true none (op ∷ second ∷ []) c ≡ head_bytes op second (taken c)
unfolding on_read on_bytes on_head
on_read-head op second c r = ap (λ rd. on_bytes rd (op ∷ second ∷ []) (taken c)) r

on_read-length :
    (num_bytes op : ℕ) (bytes : Bytes) (c : Connection)
    → on_read true none bytes (waiting (read_length num_bytes op) c)
      ≡ read_message_content (sum_length 0 (take num_bytes bytes)) op (ready c)
unfolding on_read on_bytes on_length cancel_timeout set_timeout
on_read-length num_bytes op bytes c = refl

on_read-content :
    (n op : ℕ) (bytes : Bytes) (c : Connection)
    → on_read true none bytes (waiting (read_content n op) c) ≡ on_content n op bytes (ready c)
unfolding on_read on_bytes cancel_timeout set_timeout
on_read-content n op bytes c = refl

ready-taken : (c : Connection) → ready (taken c) ≡ ready c
unfolding cancel_timeout set_timeout
ready-taken c = refl

ready-ready : (c : Connection) → ready (ready c) ≡ ready c
unfolding cancel_timeout set_timeout
ready-ready c = refl

-- A length within the limit is read; the sum does not wrap.
abbrev pub Fits : ℕ → Connection → Type 0
Fits n c =
    (n + fragmented_length c.fragmented_in_message ≤ c.config.max_message_size)
    × (n + fragmented_length c.fragmented_in_message < size_t_mod)

read_message_content-Fits :
    (n op : ℕ) (c : Connection)
    → Fits n c
    → read_message_content n op c ≡ some (waiting (read_content n op) c)
unfolding read_message_content
read_message_content-Fits n op c f = ground arith

head_bytes-short :
    (n op : ℕ) (c : Connection) → n < 126 → head_bytes op (n + 128) c ≡ read_message_content n op c
unfolding head_bytes
head_bytes-short n op c h = ground arith

head_bytes-medium :
    (op : ℕ) (c : Connection) → head_bytes op (126 + 128) c ≡ some (waiting (read_length 2 op) c)
unfolding head_bytes
head_bytes-medium op c = refl

head_bytes-huge :
    (op : ℕ) (c : Connection) → head_bytes op (127 + 128) c ≡ some (waiting (read_length 8 op) c)
unfolding head_bytes
head_bytes-huge op c = refl

abbrev pub four : ℕ → ℕ → ℕ → ℕ → Bytes
four m0 m1 m2 m3 = m0 ∷ m1 ∷ m2 ∷ m3 ∷ []

-- The last read of a frame, from any state that the frame was announced in.
Delivers-content :
    (op m0 m1 m2 m3 : ℕ) (payload : Bytes) (c d : Connection)
    → length payload + 4 < size_t_mod
    → receive op payload (ready c) ≡ some d
    → Delivers
        (waiting (read_content (length payload) op) c)
        (four m0 m1 m2 m3 ++ apply_mask (four m0 m1 m2 m3) 0 payload)
        d
Delivers-content op m0 m1 m2 m3 payload c d h e =
    read (four m0 m1 m2 m3 ++ apply_mask (four m0 m1 m2 m3) 0 payload)
      (ap some (omega (arith, length-apply_mask (four m0 m1 m2 m3) 0 payload)))
      (on_read-content (length payload) op _ c
        ∙ on_content-masked op m0 m1 m2 m3 payload (ready c)
        ∙ e)
      (sym (append-nil _)) done

module _ (op m0 m1 m2 m3 : ℕ) (payload : Bytes) (c d : Connection) (r : c.reading ≡ read_head) where
  abbrev masked : Bytes
  masked = four m0 m1 m2 m3 ++ apply_mask (four m0 m1 m2 m3) 0 payload

  frame-short :
      length payload < 126
      → Fits (length payload) c
      → receive op payload (ready c) ≡ some d
      → Delivers c ((op ∷ (length payload + 128) ∷ []) ++ masked) d
  unfolding cancel_timeout set_timeout
  frame-short h f e =
      read (op ∷ (length payload + 128) ∷ []) (ap transfer r)
        (on_read-head op (length payload + 128) c r
          ∙ head_bytes-short (length payload) op (taken c) h
          ∙ read_message_content-Fits (length payload) op (taken c) f)
        refl (Delivers-content op m0 m1 m2 m3 payload (taken c) d (omega arith) e)

  frame-long :
      (num_bytes second : ℕ) (size : Bytes)
      → head_bytes op second (taken c) ≡ some (waiting (read_length num_bytes op) (taken c))
      → num_bytes ≡ length size
      → sum_length 0 size ≡ length payload
      → length payload + 4 < size_t_mod
      → Fits (length payload) c
      → receive op payload (ready c) ≡ some d
      → Delivers c ((op ∷ second ∷ []) ++ (size ++ masked)) d
  unfolding cancel_timeout set_timeout
  frame-long num_bytes second size head k sum h f e =
      read (op ∷ second ∷ []) (ap transfer r) (on_read-head op second c r ∙ head) refl (
        read size (ap some k)
          (on_read-length num_bytes op size (taken c)
            ∙ ap (λ n. read_message_content n op (ready (taken c)))
                (ap (sum_length 0) (take-all size num_bytes k) ∙ sum)
            ∙ read_message_content-Fits (length payload) op (ready c) f)
          refl (Delivers-content op m0 m1 m2 m3 payload (ready c) d h e))
    where
      take-all : (s : Bytes) (n : ℕ) → n ≡ length s → take n s ≡ s
      take-all s n k = rw k (ap (take (length s)) (sym (append-nil s)) ∙ take-append s [])

-- A frame of a client, read from its first byte on by a connection that waits for a frame, is
-- handled with the very message that the client sent, whatever the mask: the length, of one, three
-- or nine bytes, is read back, and the content is unmasked. The message must fit the configured
-- size together with the fragments before it.
pub Delivers-client_frame :
    (op m0 m1 m2 m3 : ℕ) (payload : Bytes) (c d : Connection)
    → c.reading ≡ read_head
    → length payload + 4 < size_t_mod
    → Fits (length payload) c
    → receive op payload (ready c) ≡ some d
    → Delivers c (client_frame op (four m0 m1 m2 m3) payload) d
Delivers-client_frame op m0 m1 m2 m3 payload c d r h f e =
    rw (client_frame-split op (four m0 m1 m2 m3) payload)
      (elim (Bool-cases (leb 126 (length payload))) [
        | inl long ↦ elim (Bool-cases (ltb 0xffff (length payload))) [
          | inl huge ↦
              rw (long, huge)
                (frame-long op m0 m1 m2 m3 payload c d r 8 (127 + 128)
                  (put_length 8 (length payload)) (head_bytes-huge op (taken c))
                  (sym (length-put_length 8 (length payload)))
                  (sum_length-put_length_eight (length payload) (omega arith)) h f e)
          | inr medium ↦
              rw (long, medium)
                (frame-long op m0 m1 m2 m3 payload c d r 2 (126 + 128)
                  (put_length 2 (length payload)) (head_bytes-medium op (taken c))
                  (sym (length-put_length 2 (length payload)))
                  (sum_length-put_length_two (length payload) (ground arith)) h f e)
        ]
        | inr short ↦ rw short (frame-short op m0 m1 m2 m3 payload c d r (ground arith) f e)
      ])
