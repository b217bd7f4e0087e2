-- ===== src/Network/IpV4.antt =====
-- Kernel/Source/Network/IpV4.c: the checksum of a header, on the list of its bytes.
pub mod Checksum
pub mod Routes
pub mod Address
pub mod Header
pub mod Receive
pub mod Send
mod Tests
use k_os.Prelude.{ℕ, zero, suc, ◌+◌, ◌-◌, ◌*◌, ◌/◌, ◌%◌, ◌^◌, List, [], ◌∷◌, ◌==◌, if◌then◌else◌}

-- The first loop, two bytes a round, and the byte that may be left.
unfoldable pub sum_loop : ℕ → List ℕ → ℕ
sum_loop sum [] = sum
sum_loop sum (a ∷ []) = (sum + a * 2 ^ 8) % 2 ^ 32
sum_loop sum (a ∷ b ∷ bytes) = sum_loop ((sum + (a * 2 ^ 8 + b)) % 2 ^ 32) bytes

-- while (Sum >> 16): for a sum of 32 bits two rounds are enough.
unfoldable pub fold_loop : ℕ → ℕ → ℕ
fold_loop zero sum = sum
fold_loop (suc fuel) sum =
    let rest = fold_loop fuel (sum % 2 ^ 16 + sum / 2 ^ 16) in
    if sum / 2 ^ 16 == 0 then sum else rest

unfoldable pub ip_checksum : List ℕ → ℕ
ip_checksum bytes = (2 ^ 32 - 1 - fold_loop 2 (sum_loop 0 bytes)) % 2 ^ 16
