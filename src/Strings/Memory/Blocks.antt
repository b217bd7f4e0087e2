-- ===== src/Strings/Memory/Blocks.antt =====
-- A copy in pieces is a copy of the whole.
use k_os.Prelude.{ℕ, ◌+◌, ◌-◌, ◌≤◌, ◌≡◌, arith}
use k_os.Strings.Memory.{Memory, store}

-- Upwards, where the source is not below the destination.
pub store_up :
    (v w dst src : ℕ) (m : Memory) (x : ℕ)
    → dst ≤ src
    → store w (dst + v) (src + v) (store v dst src m) x ≡ store (v + w) dst src m x
store_up v w dst src m x le = grind arith

-- Upwards, where the source ends before the destination.
pub store_apart :
    (v w dst src : ℕ) (m : Memory) (x : ℕ)
    → src + (v + w) ≤ dst
    → store w (dst + v) (src + v) (store v dst src m) x ≡ store (v + w) dst src m x
store_apart v w dst src m x le = grind arith

-- Downwards, where the destination is not below the source.
pub store_down :
    (v w dst src : ℕ) (m : Memory) (x : ℕ)
    → src ≤ dst
    → store w dst src (store v (dst + w) (src + w) m) x ≡ store (w + v) dst src m x
store_down v w dst src m x le = ground arith

-- No bytes.
pub store_zero : (dst src : ℕ) (m : Memory) (x : ℕ) → store 0 dst src m x ≡ m x
store_zero dst src m x = ground arith

-- A block onto itself.
pub store_same : (w dst : ℕ) (m : Memory) (x : ℕ) → store w dst dst m x ≡ m x
store_same w dst m x = grind arith

-- A copy of memories that agree.
pub store_cong :
    (w dst src : ℕ) (m n : Memory)
    → ((x : ℕ) → m x ≡ n x)
    → (x : ℕ) → store w dst src m x ≡ store w dst src n x
store_cong w dst src m n h x = ground (arith, h x, h (src + (x - dst)))
