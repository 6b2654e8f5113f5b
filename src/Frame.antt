-- ===== src/Frame.antt =====
-- websocket/server_ws.hpp and websocket/client_ws.hpp: the bytes of a frame, as `Connection::send`
-- of either side builds them, and the loops that read a length and undo the mask. A
-- `std::size_t` has 64 bits.
pub mod Length
pub mod Mask
pub mod Parts
use Prim.Native.Nat.{bit_xor}
use juce_simpleweb.Prelude.{
  ℕ, zero, suc, ◌+◌, ◌*◌, ◌/◌, ◌%◌, ◌^◌, [], ◌∷◌, ◌++◌, ltb, leb, if◌then◌else◌, length, get_or,
  Bytes,
}

abbrev pub size_t_mod : ℕ
size_t_mod = 2 ^ 64

-- `put((length >> (8 * c)) % 256)` for c from num_bytes - 1 down to 0.
unfoldable pub put_length : ℕ → ℕ → Bytes
put_length zero n = []
put_length (suc c) n = n / 2 ^ (8 * c) % 256 ∷ put_length c n

-- The header of a frame of the server.
unfoldable pub server_header : ℕ → ℕ → Bytes
server_header fin_rsv_opcode n =
    fin_rsv_opcode
    ∷ (if leb 126 n
        then (if ltb 0xffff n then 127 ∷ put_length 8 n else 126 ∷ put_length 2 n)
        else n ∷ [])

-- `x ^ mask[c % 4]` over a message, from position c on.
unfoldable pub apply_mask : Bytes → ℕ → Bytes → Bytes
apply_mask mask c [] = []
apply_mask mask c (x ∷ s) = bit_xor x (get_or mask (c % 4) 0) ∷ apply_mask mask (c + 1) s

-- The header of a frame of the client, its mask included, and the frame.
unfoldable pub client_header : ℕ → Bytes → ℕ → Bytes
client_header fin_rsv_opcode mask n =
    fin_rsv_opcode
    ∷ ((if leb 126 n
          then (if ltb 0xffff n then (127 + 128) ∷ put_length 8 n else (126 + 128) ∷ put_length 2 n)
          else (n + 128) ∷ [])
        ++ mask)

unfoldable pub client_frame : ℕ → Bytes → Bytes → Bytes
client_frame fin_rsv_opcode mask message =
    client_header fin_rsv_opcode mask (length message) ++ apply_mask mask 0 message

-- `length += length_bytes[c] << (8 * (num_bytes - 1 - c))`, from the sum so far.
unfoldable pub sum_length : ℕ → Bytes → ℕ
sum_length n [] = n
sum_length n (b ∷ bytes) = sum_length ((n + b * 2 ^ (8 * length bytes)) % size_t_mod) bytes

-- The loop `ostream.put(istream.get() ^ mask[c % 4])` over `n` bytes: past its end the stream
-- gives -1, whose low byte is 255.
unfoldable pub unmask : Bytes → ℕ → ℕ → Bytes → Bytes
unmask mask c zero s = []
unmask mask c (suc n) [] = bit_xor 255 (get_or mask (c % 4) 0) ∷ unmask mask (c + 1) n []
unmask mask c (suc n) (x ∷ s) = bit_xor x (get_or mask (c % 4) 0) ∷ unmask mask (c + 1) n s
