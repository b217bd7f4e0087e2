-- ===== src/Network/IpV4/Header/Fields.antt =====
-- A header that is stored and loaded again.
use k_os.Prelude.{
  ℕ, zero, suc, ◌+◌, ◌*◌, ◌/◌, ◌%◌, ◌^◌, ◌≤◌, ◌<◌, ◌≡◌, refl, ap, ◌∙◌, List, [], ◌∷◌, arith, length,
  get_or, set, length-set, get_or-set_self, get_or-set_ne,
}
use k_os.Network.Buf.{NetworkBuf}
use k_os.Network.IpV4.Header.{
  data_offset, clear_checksum, header_of, IpV4Header, header_bytes, load16, load_header,
  write_bytes, store16, bytes_at,
}
use k_os.Network.IpV4.Checksum.{IsBytes}

pub length-bytes_at : (n : ℕ) (bytes : List ℕ) (at : ℕ) → length (bytes_at n bytes at) ≡ n
unfolding bytes_at
length-bytes_at zero bytes at = refl
length-bytes_at (suc n) bytes at = ap suc (length-bytes_at n bytes (suc at))

pub length-write_bytes :
    (bytes : List ℕ) (at : ℕ) (xs : List ℕ) → length (write_bytes bytes at xs) ≡ length bytes
unfolding write_bytes
length-write_bytes bytes at [] = refl
length-write_bytes bytes at (x ∷ xs) =
    length-write_bytes (set bytes at x) (suc at) xs ∙ length-set bytes at x

-- A byte in front of a store.
get_or-write_before :
    (bytes : List ℕ) (at j : ℕ) (xs : List ℕ)
    → j < at
    → get_or (write_bytes bytes at xs) j 0 ≡ get_or bytes j 0
unfolding write_bytes
get_or-write_before bytes at j [] lt = refl
get_or-write_before bytes at j (x ∷ xs) lt =
    get_or-write_before (set bytes at x) (suc at) j xs (omega arith)
    ∙ get_or-set_ne bytes at j x 0 (omega arith)

-- A byte behind it.
pub get_or-write_behind :
    (bytes : List ℕ) (at j : ℕ) (xs : List ℕ)
    → at + length xs ≤ j
    → get_or (write_bytes bytes at xs) j 0 ≡ get_or bytes j 0
unfolding write_bytes
get_or-write_behind bytes at j [] le = refl
get_or-write_behind bytes at j (x ∷ xs) le =
    get_or-write_behind (set bytes at x) (suc at) j xs (omega arith)
    ∙ get_or-set_ne bytes at j x 0 (omega arith)

-- What is stored is what is loaded.
pub bytes_at-write_bytes :
    (bytes : List ℕ) (at : ℕ) (xs : List ℕ)
    → at + length xs ≤ length bytes
    → bytes_at (length xs) (write_bytes bytes at xs) at ≡ xs
unfolding bytes_at write_bytes
bytes_at-write_bytes bytes at [] le = refl
bytes_at-write_bytes bytes at (x ∷ xs) le =
    let here =
      get_or-write_before (set bytes at x) (suc at) at xs (omega arith)
      ∙ get_or-set_self bytes at x 0 (omega arith) in
    let there =
      bytes_at-write_bytes (set bytes at x) (suc at) xs (omega (arith, length-set bytes at x)) in
    rw (here, there) refl

-- A byte in front of those that are loaded does not matter.
bytes_at-set_before :
    (n : ℕ) (bytes : List ℕ) (at j v : ℕ)
    → j < at
    → bytes_at n (set bytes j v) at ≡ bytes_at n bytes at
unfolding bytes_at
bytes_at-set_before zero bytes at j v lt = refl
bytes_at-set_before (suc n) bytes at j v lt =
    rw
      (
        get_or-set_ne bytes j at v 0 (omega arith),
        bytes_at-set_before n bytes (suc at) j v (omega arith),
      )
      refl

-- A byte that is stored among them.
bytes_at-set :
    (n : ℕ) (bytes : List ℕ) (at i v : ℕ)
    → at + n ≤ length bytes
    → bytes_at n (set bytes (at + i) v) at ≡ set (bytes_at n bytes at) i v
unfolding bytes_at
bytes_at-set zero bytes at i v le = refl
bytes_at-set (suc n) bytes at zero v le =
    let e : at + 0 ≡ at = omega arith in
    rw
      (
        e,
        get_or-set_self bytes at v 0 (omega arith),
        bytes_at-set_before n bytes (suc at) at v (omega arith),
      )
      refl
bytes_at-set (suc n) bytes at (suc i) v le =
    let e : at + suc i ≡ suc at + i = omega arith in
    rw
      (
        e,
        get_or-set_ne bytes (suc at + i) at v 0 (omega arith),
        bytes_at-set n bytes (suc at) i v (omega arith),
      )
      refl

pub bytes_at-store16 :
    (n : ℕ) (bytes : List ℕ) (at i v : ℕ)
    → at + n ≤ length bytes
    → bytes_at n (store16 bytes (at + i) v) at ≡ store16 (bytes_at n bytes at) i v
bytes_at-store16 n bytes at i v le =
    let e : suc (at + i) ≡ at + suc i = omega arith in
    let long = length-set bytes (at + i) (v % 2 ^ 8) in
    rw (e, bytes_at-set n (set bytes (at + i) (v % 2 ^ 8)) at (suc i) (v / 2 ^ 8) (omega arith))
      (ap (λ xs. set xs (suc i) (v / 2 ^ 8)) (bytes_at-set n bytes at i (v % 2 ^ 8) le))

-- A field that is cleared and put back.
pub restored :
    (bytes : List ℕ) (at : ℕ)
    → IsBytes bytes
    → suc at < length bytes
    → store16 (store16 bytes at 0) at (load16 bytes at) ≡ bytes
restored [] at all lt = refl
restored (x ∷ []) at all lt = absurd (omega arith)
restored (x ∷ y ∷ bytes) zero all lt =
    let low : (x + y * 2 ^ 8) % 2 ^ 8 ≡ x = omega (arith, all.0) in
    let high : (x + y * 2 ^ 8) / 2 ^ 8 ≡ y = omega (arith, all.0) in rw (low, high) refl
restored (x ∷ y ∷ bytes) (suc at) all lt =
    ap (λ xs. x ∷ xs) (restored (y ∷ bytes) at all.1 (omega arith))

-- The fields of a header fit.
pub record IsHeader (h : IpV4Header) : Type 0 where
  pub version : h.version < 2 ^ 4
  pub ihl : h.ihl < 2 ^ 4
  pub total_len : h.total_len < 2 ^ 16
  pub id : h.id < 2 ^ 16
  pub frag_off : h.frag_off < 2 ^ 16
  pub checksum : h.checksum < 2 ^ 16
  pub src_addr : h.src_addr < 2 ^ 32
  pub dst_addr : h.dst_addr < 2 ^ 32

pub load_header-header_bytes : (h : IpV4Header) → IsHeader h → load_header (header_bytes h) ≡ h
unfolding load_header
load_header-header_bytes h v =
    let version : (h.version * 2 ^ 4 + h.ihl) / 2 ^ 4 ≡ h.version =
      omega (arith, v.version, v.ihl) in
    let ihl : (h.version * 2 ^ 4 + h.ihl) % 2 ^ 4 ≡ h.ihl = omega (arith, v.ihl) in
    let total : h.total_len % 2 ^ 8 + h.total_len / 2 ^ 8 % 2 ^ 8 * 2 ^ 8 ≡ h.total_len =
      omega (arith, v.total_len) in
    let id : h.id % 2 ^ 8 + h.id / 2 ^ 8 % 2 ^ 8 * 2 ^ 8 ≡ h.id = omega (arith, v.id) in
    let frag : h.frag_off % 2 ^ 8 + h.frag_off / 2 ^ 8 % 2 ^ 8 * 2 ^ 8 ≡ h.frag_off =
      omega (arith, v.frag_off) in
    let csum : h.checksum % 2 ^ 8 + h.checksum / 2 ^ 8 % 2 ^ 8 * 2 ^ 8 ≡ h.checksum =
      omega (arith, v.checksum) in
    rw
      (
        version,
        ihl,
        total,
        id,
        frag,
        csum,
        loaded h.src_addr v.src_addr,
        loaded h.dst_addr v.dst_addr,
      )
      refl
  where
    loaded :
        (n : ℕ)
        → n < 2 ^ 32
        → n % 2 ^ 8
            + n / 2 ^ 8 % 2 ^ 8 * 2 ^ 8
            + (n / 2 ^ 16 % 2 ^ 8 + n / 2 ^ 24 % 2 ^ 8 * 2 ^ 8) * 2 ^ 16
          ≡ n
    loaded n lt = omega arith

-- The field of the checksum in the memory of the buffer.
checksum_field :
    (bytes : List ℕ) (at : ℕ)
    → (load_header (bytes_at 20 bytes at)).checksum ≡ load16 bytes (at + 10)
unfolding load_header bytes_at
checksum_field bytes at =
    let e : at + 10 ≡ suc (suc (suc (suc (suc (suc (suc (suc (suc (suc at))))))))) = omega arith in
    rw e refl

-- IpV4Input puts the checksum back.
pub checksum_put_back :
    (b : NetworkBuf)
    → IsBytes b.bytes
    → data_offset b + 20 ≤ length b.bytes
    → store16 (clear_checksum b) (data_offset b + 10) (header_of b).checksum ≡ b.bytes
checksum_put_back b all fits =
    rw (checksum_field b.bytes (data_offset b))
      (restored b.bytes (data_offset b + 10) all (omega arith))
