-- ===== src/Frame/Mask.antt =====
-- websocket/server_ws.hpp, websocket/client_ws.hpp: the server's loop undoes the client's mask.
use juce_simpleweb.Prelude.{ℕ, ◌+◌, ◌%◌, ◌≡◌, refl, [], ◌∷◌, arith, length, get_or, Bytes}
use juce_simpleweb.Prelude.Bits.{bit_xor_twice}
use juce_simpleweb.Frame.{apply_mask, unmask}

pub length-apply_mask : (mask : Bytes) (c : ℕ) (s : Bytes) → length (apply_mask mask c s) ≡ length s
unfolding apply_mask
length-apply_mask mask c [] = refl
length-apply_mask mask c (x ∷ s) = omega (arith, length-apply_mask mask (c + 1) s)

-- Unmasking as many bytes as a masked message has gives the message, whatever the mask and the
-- position in it.
pub unmask-apply_mask :
    (mask : Bytes) (c : ℕ) (s : Bytes) → unmask mask c (length s) (apply_mask mask c s) ≡ s
unfolding unmask apply_mask
unmask-apply_mask mask c [] = refl
unmask-apply_mask mask c (x ∷ s) =
    rw (bit_xor_twice x (get_or mask (c % 4) 0), unmask-apply_mask mask (c + 1) s)
