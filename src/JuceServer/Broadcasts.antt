-- ===== src/JuceServer/Broadcasts.antt =====
-- SimpleWebSocketServer.cpp: what `send` and `sendExclude` do to the connections, over the map of
-- juce::HashMap.
use juce_simpleweb.Prelude.{
  ℕ, ◌≡◌, refl, ap, ◌∙◌, none, some, List, [], ◌∷◌, if◌then◌else◌, Bytes, ◌>>=◌,
}
use mathlib.Core.Path.{fun_ext}
use juce_simpleweb.HashMap.{HashMap}
use juce_simpleweb.WsServer.{Connection, send}
use juce_simpleweb.JuceServer.{
  JuceServer, on_connection, send_each, send_each_but, send_text, send_data, send_text_but,
  send_data_but, with_connections,
}
use juce_simpleweb.JuceServer.Sending.{reached, Named-entries, send_each_but-Sent}

send_each-eq-send_each_but :
    (op : ℕ) (message : Bytes) (visited : List (Bytes × ℕ)) (connections : ℕ → Connection)
    → send_each op message visited connections ≡ send_each_but [] op message visited connections
unfolding send_each send_each_but
send_each-eq-send_each_but op message [] connections = refl
send_each-eq-send_each_but op message ((id, h) ∷ visited) connections =
    ap (λ rest. on_connection (send message none op) h connections >>= rest)
      (fun_ext (send_each-eq-send_each_but op message visited))

module _ (maps : HashMap ℕ) (connection_string : ℕ → Bytes) where
  open maps use {Table, get, entries}

  -- The map holds each connection under the text of its address.
  abbrev pub Keyed : JuceServer Table → Type 0
  Keyed s = (k : Bytes) (h : ℕ) → get k s.connection_map ≡ some h → connection_string h ≡ k

  -- What a broadcast has done: a connection that the map holds under its id has sent the message
  -- once, unless its id is among those left out; every other connection is as it was.
  pub record Reaches (exclude_ids : List Bytes) (op : ℕ) (message : Bytes) (s t : JuceServer Table)
      : Type 0 where
    pub same_map : t.connection_map ≡ s.connection_map
    pub no_calls : t.calls ≡ s.calls
    pub sent :
        (h : ℕ)
        → (if reached connection_string exclude_ids h (get (connection_string h) s.connection_map)
            then send message none op (s.connections h)
            else some (s.connections h))
          ≡ some (t.connections h)

  loop-Reaches :
      (exclude_ids : List Bytes) (op : ℕ) (message : Bytes) (s : JuceServer Table)
      → Keyed s
      → (after : ℕ → Connection) × (send_each_but exclude_ids op message
            (entries s.connection_map)
            s.connections
          ≡ some after)
        × Reaches exclude_ids op message s (record s { connections = after })
  loop-Reaches exclude_ids op message s keyed =
      let apart = maps.entries_apart s.connection_map in
      let (after, e, sent) =
        send_each_but-Sent connection_string op message exclude_ids (entries s.connection_map)
          s.connections apart
          (Named-entries connection_string (entries s.connection_map) apart
            (λ k h p. keyed k h (maps.get_entries k s.connection_map ∙ p))) in
      (
        after,
        e,
        record {
          same_map = refl;
          no_calls = refl;
          sent = λ h. rw (maps.get_entries (connection_string h) s.connection_map) (sent h);
        },
      )

  -- Where the map holds connections under the texts of their addresses: `send` and `sendExclude`
  -- of a text and of bytes return, leave the map and make no call of a listener. Each connection
  -- that the map holds under its id has sent the message exactly once, as a final text frame or a
  -- final binary frame, unless sendExclude was given its id; every other connection is unchanged.
  pub broadcasts-Reaches :
      (message : Bytes) (exclude_ids : List Bytes) (s : JuceServer Table)
      → Keyed s
      → ((t : JuceServer Table) × (send_text maps message s ≡ some t) × Reaches [] 129 message s t)
        × ((t : JuceServer Table) × (send_data maps message s ≡ some t)
            × Reaches [] 130 message s t)
        × ((t : JuceServer Table) × (send_text_but maps message exclude_ids s ≡ some t)
            × Reaches exclude_ids 129 message s t)
        × ((t : JuceServer Table) × (send_data_but maps message exclude_ids s ≡ some t)
            × Reaches exclude_ids 130 message s t)
  unfolding send_text send_data send_text_but send_data_but
  broadcasts-Reaches message exclude_ids s keyed = (plain 129, plain 130, but 129, but 130)
    where
      plain :
          (op : ℕ)
          → (t : JuceServer Table) × ((send_each op message (entries s.connection_map) s.connections
                >>= with_connections maps s)
              ≡ some t)
            × Reaches [] op message s t
      plain op =
          let (after, e, r) = loop-Reaches [] op message s keyed in
          (_, rw (send_each-eq-send_each_but, e) refl, r)

      but :
          (op : ℕ)
          → (t : JuceServer Table) × ((send_each_but exclude_ids op message
                  (entries s.connection_map)
                  s.connections
                >>= with_connections maps s)
              ≡ some t)
            × Reaches exclude_ids op message s t
      but op = let (after, e, r) = loop-Reaches exclude_ids op message s keyed in (_, rw e refl, r)
