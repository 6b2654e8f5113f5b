-- ===== src/JuceClient/Flags.antt =====
-- SimpleWebSocketClient.cpp: what the flag and the listeners of a client tell, over any callbacks.
use juce_simpleweb.Prelude.{
  ◌≡◌, refl, sym, ap, ◌∙◌, inl, inr, Bool, true, false, some, List, [], ◌∷◌, ◌++◌, append-nil,
  append_assoc, ◌==◌, if◌then◌else◌, length, Bytes, Bool-cases, ◌>>=◌, All,
}
use juce_simpleweb.JuceServer.Hearing.{memory_block-sized}
use juce_simpleweb.WsClient.{
  ClientConnection, ClientEvent, opened, pinged, ponged, received, closes, fails, ClientError,
}
use juce_simpleweb.JuceClient.{
  ClientCall, connection_opened, message_received, data_received, connection_closed,
  connection_error, JuceClient, handle_new_connection_callback, handle_connection_closed_callback,
  handle_error_callback, on_message_callback, on_new_connection_callback,
  on_connection_close_callback, on_error_callback, call_back, call_each, tell,
}

abbrev pub IsSized : ClientEvent → Type 0
IsSized (received op size text) = size ≡ length text
IsSized e = Unit {0}

-- The flag after a callback: the last opening, closing or failure decides.
abbrev pub connected_after : ClientEvent → Bool → Bool
connected_after opened b = true
connected_after (closes status reason) b = false
connected_after (fails ec) b = false
connected_after e b = b

abbrev pub connected_after_all : List ClientEvent → Bool → Bool
connected_after_all [] b = b
connected_after_all (e ∷ events) b = connected_after_all events (connected_after e b)

-- What a listener is told; while the client is closing, errors are kept from it.
module _ (string_of : Bytes → Bytes) (is_closing : Bool) where
  abbrev pub heard : ClientEvent → List ClientCall
  heard opened = connection_opened ∷ []
  heard pinged = []
  heard ponged = []
  heard (received op size text) =
      if op == 129
      then message_received (string_of text) ∷ []
      else if op == 130
      then data_received text ∷ []
      else []
  heard (closes status reason) = connection_closed status (string_of reason) ∷ []
  heard (fails ec) = if is_closing then [] else connection_error ec ∷ []

  abbrev pub heard_all : List ClientEvent → List ClientCall
  heard_all [] = []
  heard_all (e ∷ events) = heard e ++ heard_all events

module _ (string_of : Bytes → Bytes) (c : ClientConnection) where
  -- The outcome of callbacks: the flag, the calls, and that the client is closing as before.
  pub record Told (b : Bool) (calls : List ClientCall) (j k : JuceClient) : Type 0 where
    pub flag : k.is_connected ≡ b
    pub said : k.calls ≡ j.calls ++ calls
    pub same_closing : k.is_closing ≡ j.is_closing

  failed :
      (ec : ClientError) (closing : Bool) (j : JuceClient)
      → Told false (if closing then [] else connection_error ec ∷ []) j (
          if closing
          then record j { is_connected = false }
          else tell (connection_error ec) (record j { is_connected = false }))
  failed ec true j = record { flag = refl; said = sym (append-nil j.calls); same_closing = refl }
  failed ec false j = record { flag = refl; said = refl; same_closing = refl }

  call_back-Told :
      (e : ClientEvent) (j : JuceClient)
      → IsSized e
      → (k : JuceClient) × (call_back string_of c e j ≡ some k)
        × Told (connected_after e j.is_connected) (heard string_of j.is_closing e) j k
  unfolding call_back on_message_callback on_new_connection_callback on_connection_close_callback
      on_error_callback handle_new_connection_callback handle_connection_closed_callback
      handle_error_callback
  call_back-Told opened j z = (_, refl, record { flag = refl; said = refl; same_closing = refl })
  call_back-Told pinged j z =
      (j, refl, record { flag = refl; said = sym (append-nil j.calls); same_closing = refl })
  call_back-Told ponged j z =
      (j, refl, record { flag = refl; said = sym (append-nil j.calls); same_closing = refl })
  call_back-Told (closes status reason) j z =
      (_, refl, record { flag = refl; said = refl; same_closing = refl })
  call_back-Told (fails ec) j z = (_, refl, failed ec j.is_closing j)
  call_back-Told (received op size text) j z = elim (Bool-cases (op == 129)) [
    | inl e ↦ rw e (_, refl, record { flag = refl; said = refl; same_closing = refl })
    | inr e ↦ rw e (elim (Bool-cases (op == 130)) [
      | inl f ↦
          rw (f, z, memory_block-sized text)
            (_, refl, record { flag = refl; said = refl; same_closing = refl })
      | inr f ↦
          rw f
            (j, refl, record { flag = refl; said = sym (append-nil j.calls); same_closing = refl })
    ])
  ]

  -- Callbacks of the socket client, in any order, where a message tells the size of its buffer,
  -- return. Afterwards the client is connected exactly if the last opening, closing or failure
  -- was an opening (or, if there was none, if it was before); the listeners have heard each
  -- opening, closing, text and binary message in order, and each error unless the client was
  -- closing.
  pub call_each-Told :
      (events : List ClientEvent) (j : JuceClient)
      → All IsSized events
      → (k : JuceClient) × (call_each string_of c events j ≡ some k)
        × Told
            (connected_after_all events j.is_connected)
            (heard_all string_of j.is_closing events)
            j
            k
  unfolding call_each
  call_each-Told [] j z =
      (j, refl, record { flag = refl; said = sym (append-nil j.calls); same_closing = refl })
  call_each-Told (e ∷ events) j (z, zs) =
      let (k, p, first) = call_back-Told e j z in
      let (l, q, later) = call_each-Told events k zs in
      (
        l,
        ap (λ o. o >>= call_each string_of c events) p ∙ q,
        record {
          flag = later.flag ∙ ap (connected_after_all events) first.flag;
          said =
              later.said
              ∙ ap (λ m. m ++ heard_all string_of k.is_closing events) first.said
              ∙ append_assoc j.calls (heard string_of j.is_closing e)
                  (heard_all string_of k.is_closing events)
              ∙ ap
                  (λ b. j.calls ++ (heard string_of j.is_closing e ++ heard_all string_of b events))
                  first.same_closing;
          same_closing = later.same_closing ∙ first.same_closing;
        },
      )
