-- ===== src/Network/IpV4/Header.antt =====
-- Kernel/Include/Network/IpV4.h and Kernel/Source/Network/IpV4.c: the header in the bytes of a buffer.
--
-- Memory is little-endian: a field of two or four bytes is the number that a load of it answers.
pub mod Fields
use k_os.Prelude.{ℕ, zero, suc, ◌+◌, ◌-◌, ◌*◌, ◌/◌, ◌%◌, ◌^◌, List, [], ◌∷◌, ◌++◌, get_or, set}
use k_os.Network.Buf.{NetworkBuf}
use k_os.Network.IpV4.{ip_checksum}

pub record IpV4Header : Type 0 where
  pub version : ℕ
  pub ihl : ℕ
  pub tos : ℕ
  pub total_len : ℕ
  pub id : ℕ
  pub frag_off : ℕ
  pub ttl : ℕ
  pub protocol : ℕ
  pub checksum : ℕ
  pub src_addr : ℕ
  pub dst_addr : ℕ

abbrev pub le16 : ℕ → List ℕ
le16 n = n % 2 ^ 8 ∷ n / 2 ^ 8 % 2 ^ 8 ∷ []

abbrev pub le32 : ℕ → List ℕ
le32 n = n % 2 ^ 8 ∷ n / 2 ^ 8 % 2 ^ 8 ∷ n / 2 ^ 16 % 2 ^ 8 ∷ n / 2 ^ 24 % 2 ^ 8 ∷ []

-- The packed structure.
abbrev pub header_bytes : IpV4Header → List ℕ
header_bytes h =
    (h.version * 2 ^ 4 + h.ihl)
    ∷ h.tos
    ∷ (le16 h.total_len
        ++ (le16 h.id
            ++ (le16 h.frag_off
                ++ (h.ttl
                    ∷ h.protocol
                    ∷ (le16 h.checksum ++ (le32 h.src_addr ++ le32 h.dst_addr))))))

abbrev pub load16 : List ℕ → ℕ → ℕ
load16 bytes at = get_or bytes at 0 + get_or bytes (suc at) 0 * 2 ^ 8

abbrev pub load32 : List ℕ → ℕ → ℕ
load32 bytes at = load16 bytes at + load16 bytes (at + 2) * 2 ^ 16

-- The header at the start of some bytes.
unfoldable pub load_header : List ℕ → IpV4Header
load_header bytes = record {
  version = get_or bytes 0 0 / 2 ^ 4;
  ihl = get_or bytes 0 0 % 2 ^ 4;
  tos = get_or bytes 1 0;
  total_len = load16 bytes 2;
  id = load16 bytes 4;
  frag_off = load16 bytes 6;
  ttl = get_or bytes 8 0;
  protocol = get_or bytes 9 0;
  checksum = load16 bytes 10;
  src_addr = load32 bytes 12;
  dst_addr = load32 bytes 16;
}

-- A store of some bytes, and of two.
unfoldable pub write_bytes : List ℕ → ℕ → List ℕ → List ℕ
write_bytes bytes at [] = bytes
write_bytes bytes at (x ∷ xs) = write_bytes (set bytes at x) (suc at) xs

abbrev pub store16 : List ℕ → ℕ → ℕ → List ℕ
store16 bytes at n = set (set bytes at (n % 2 ^ 8)) (suc at) (n / 2 ^ 8)

-- The `n` bytes from a place on.
unfoldable pub bytes_at : ℕ → List ℕ → ℕ → List ℕ
bytes_at zero bytes at = []
bytes_at (suc n) bytes at = get_or bytes at 0 ∷ bytes_at n bytes (suc at)

-- Buf->Data in the bytes of the buffer, and the header there.
abbrev pub data_offset : NetworkBuf → ℕ
data_offset b = b.data_ptr - b.head

abbrev pub header_of : NetworkBuf → IpV4Header
header_of b = load_header (bytes_at 20 b.bytes (data_offset b))

-- IpH->Checksum = 0, and IpV4Checksum over the header then.
abbrev pub clear_checksum : NetworkBuf → List ℕ
clear_checksum b = store16 b.bytes (data_offset b + 10) 0

abbrev pub checksum_of : NetworkBuf → ℕ → ℕ
checksum_of b header_len = ip_checksum (bytes_at header_len (clear_checksum b) (data_offset b))
