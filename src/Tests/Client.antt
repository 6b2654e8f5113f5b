-- ===== src/Tests/Client.antt =====
-- The theorems on the client, each applied to concrete data.
use juce_simpleweb.Prelude.{
  bytes_eq, Bool, ◌≡◌, refl, true, false, none, some, List, [], ◌∷◌, ◌++◌, arith, length, Bytes,
  codes, All,
}
use juce_simpleweb.Frame.{server_header}
use juce_simpleweb.CaseInsensitive.{find_field, case_insensitive_equal}
use juce_simpleweb.Base64.{base64_encode, encode_blocks}
use juce_simpleweb.Handshake.{write_handshake, answer, accept_key, hex_string, resize, c_string}
use juce_simpleweb.HttpHeader.{write_fields}
use juce_simpleweb.HttpServer.Arrival.{until, starts_with}
use juce_simpleweb.SendQueue
use juce_simpleweb.WsClient
use juce_simpleweb.WsClient.{ClientConnection, no_read, no_timer, new_message, read_head}
use juce_simpleweb.WsClient.Upgrade.{Address, corrected_path, nonce_base64, upgrade_text}
use juce_simpleweb.WsClient.Reader.{on_response_read}
use juce_simpleweb.WsClient.Transport.{Reaches, idle, message}
use juce_simpleweb.WsClient.Messages.{
  ServerMessage, IsMessage, after_messages, Waits, messages-Reaches,
}
use juce_simpleweb.WsServer.Opening.{
  Endpoint, Answering, Handshaking, find_endpoint, on_handshake_read, on_answered,
}
use juce_simpleweb.WsClient.Handshakes.{open_at, upgrade-opens}
use juce_simpleweb.WsClient.Opening.{answer_text, opened, opens-Reaches}
use juce_simpleweb.Tests.{waiting_connection, all_set, small_config}

abbrev fresh : ClientConnection
fresh = record {
  config = small_config;
  handlers = all_set;
  response = record { version = []; status_code = []; header = [] };
  in_message = new_message;
  fragmented_in_message = none;
  timeout_idle = 30;
  timer = no_timer;
  closed = false;
  socket_open = true;
  queue = SendQueue.empty;
  reading = no_read;
  log = [];
}

abbrev two_messages : List ServerMessage
two_messages =
    record { op = 1; fragments = codes "Hel" ∷ []; last = codes "lo" }
    ∷ record { op = 2; fragments = []; last = codes "!" }
    ∷ []

two_messages-IsMessage : All (IsMessage 100) two_messages
two_messages-IsMessage = (
  record {
    not_final = omega arith;
    no_control = ((λ e. omega arith), (λ e. omega arith), (λ e. omega arith));
    fits = omega arith;
    small = omega arith;
  },
  (
    record {
      not_final = omega arith;
      no_control = ((λ e. omega arith), (λ e. omega arith), (λ e. omega arith));
      fits = omega arith;
      small = omega arith;
    },
    tt,
  ),
)

messages-Reaches_example :
    Reaches []
      (Waits (after_messages two_messages fresh) (codes "x"))
      (idle fresh (message 0 0 (1 ∷ 3 ∷ codes "He")) (read_head 4))
      (codes "l" ++ (128 ∷ 2 ∷ (codes "lo" ++ (130 ∷ 1 ∷ codes "!x"))))
unfolding server_header
messages-Reaches_example =
    messages-Reaches [] two_messages fresh (message 0 0 (1 ∷ 3 ∷ codes "He")) _ (codes "x") refl
      two_messages-IsMessage refl

abbrev home : Address
home = record {
  host = codes "example.org";
  port = 8080;
  default_port = 80;
  path = codes "/chat?room=1";
}

-- A digest of 20 bytes.
abbrev some_digest : Bytes → Bytes
some_digest key =
    17 ∷ 200 ∷ 3 ∷ 45 ∷ 99 ∷ 255 ∷ 7 ∷ 81 ∷ 130 ∷ 64 ∷ 5 ∷ 6 ∷ 171 ∷ 8 ∷ 9 ∷ 10 ∷ 11 ∷ 12 ∷ 13 ∷ 14
    ∷ []

abbrev nonce : Bytes
nonce = codes "0123456789abcdef"

-- The part of the frames that arrives with the answer.
abbrev early : Bytes
early = 1 ∷ 3 ∷ codes "He"

opens-Reaches_example :
    (c' : ClientConnection) × (on_response_read some_digest []
        (nonce_base64 nonce)
        true
        none
        (answer_text some_digest [] [] [] home nonce [] ++ early)
        139
        fresh
      ≡ some c')
    × Reaches []
        (Waits (after_messages two_messages (opened some_digest [] [] [] home nonce [] fresh)) [])
        c'
        (codes "l" ++ (128 ∷ 2 ∷ (codes "lo" ++ (130 ∷ 1 ∷ codes "!"))))
unfolding server_header write_handshake answer find_field case_insensitive_equal write_fields
    accept_key hex_string base64_encode encode_blocks resize c_string until starts_with
opens-Reaches_example =
    opens-Reaches some_digest [] [] [] home nonce [] [] two_messages fresh
      (answer_text some_digest [] [] [] home nonce [] ++ early)
      (codes "l" ++ (128 ∷ 2 ∷ (codes "lo" ++ (130 ∷ 1 ∷ codes "!")))) [] 139
      (record { size = refl; bytes = omega arith }) tt refl refl two_messages-IsMessage refl refl

abbrev chat : Endpoint
chat = record { regex = codes "^/chat$"; handlers = all_set; on_handshake = none }

abbrev is_chat : Bytes → Bytes → Bool
is_chat regex path = bytes_eq path (codes "/chat")

abbrev accepted_connection : Handshaking
accepted_connection = record {
  connection = waiting_connection;
  request = record { method = []; path = []; query_string = []; version = []; header = [] };
  streambuf = [];
  reading = true;
  answering = none;
}

upgrade-opens_example :
    (h' : Handshaking) × (answer : Answering) × (c' : ClientConnection) × (on_handshake_read is_chat
        some_digest [] []
        (chat ∷ [])
        true
        none
        (upgrade_text false home nonce [] ++ codes "x")
        accepted_connection
      ≡ h')
    × (h'.answering ≡ some answer)
    × ((on_answered true none answer h').connection ≡ open_at chat waiting_connection)
    × (on_response_read some_digest
          (7 ∷ [])
          (nonce_base64 nonce)
          true
          none
          (answer.text ++ early)
          (length answer.text)
          fresh
        ≡ some c')
    × (c'.log ≡ WsClient.opened ∷ [])
    × (c'.reading ≡ read_head 4)
    × (c'.in_message.streambuf ≡ early)
unfolding corrected_path find_endpoint find_field
upgrade-opens_example =
    upgrade-opens is_chat some_digest [] [] (chat ∷ []) home nonce [] false (codes "/chat")
      (some (codes "room=1")) accepted_connection chat
      (upgrade_text false home nonce [] ++ codes "x") (codes "x") (7 ∷ []) early fresh refl
      (omega arith) (omega arith) (omega arith) (omega arith, omega arith)
      (omega arith, omega arith) tt refl refl refl (record { size = refl; bytes = omega arith }) tt
      refl refl
