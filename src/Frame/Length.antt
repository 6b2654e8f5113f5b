-- ===== src/Frame/Length.antt =====
-- websocket/server_ws.hpp, websocket/client_ws.hpp: a length that is written is read back.
use juce_simpleweb.Prelude.{ℕ, zero, suc, ◌^◌, ◌≤◌, ◌<◌, ◌≡◌, refl, arith, length}
use juce_simpleweb.Frame.{put_length, server_header, sum_length}

pub sum_length-put_length_two : (n : ℕ) → n < 2 ^ 16 → sum_length 0 (put_length 2 n) ≡ n
unfolding sum_length put_length
sum_length-put_length_two n h = omega arith

pub sum_length-put_length_eight : (n : ℕ) → n < 2 ^ 64 → sum_length 0 (put_length 8 n) ≡ n
unfolding sum_length put_length
sum_length-put_length_eight n h = omega arith

pub length-put_length : (c n : ℕ) → length (put_length c n) ≡ c
unfolding put_length
length-put_length zero n = refl
length-put_length (suc c) n = omega (arith, length-put_length c n)

-- The header of a server frame takes at most the ten bytes that are reserved for it.
pub length-server_header : (fin_rsv_opcode n : ℕ) → length (server_header fin_rsv_opcode n) ≤ 10
unfolding server_header put_length
length-server_header fin_rsv_opcode n = ground arith
