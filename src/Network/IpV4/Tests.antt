-- ===== src/Network/IpV4/Tests.antt =====
-- A header of 20 bytes with its checksum field zero.
use k_os.Prelude.{ℕ, ◌/◌, ◌%◌, ◌≡◌, refl, some, List, [], ◌∷◌, ◌++◌, arith}
use k_os.Network.IpV4.Routes.{IpV4Route, lookup_loop, route_lookup}
use k_os.Network.IpV4.Routes.Best.{Chosen, route_lookup_lem}
use k_os.Network.IpV4.Address.{ip_ntop, ip_pton}
use k_os.Network.IpV4.Address.RoundTrip.{ip_pton-ip_ntop}
use k_os.Network.IpV4.{sum_loop, fold_loop, ip_checksum}
use k_os.Network.IpV4.Checksum.{IsBytes, ip_checksum_filled}

abbrev before : List ℕ
before = 0x45 ∷ 0 ∷ 0 ∷ 0x3c ∷ 0x1c ∷ 0x46 ∷ 0x40 ∷ 0 ∷ 0x40 ∷ 6 ∷ []

abbrev after : List ℕ
after = 0xac ∷ 0x10 ∷ 0x0a ∷ 0x63 ∷ 0xac ∷ 0x10 ∷ 0x0a ∷ 0x0c ∷ []

header_checksum : ip_checksum (before ++ (0 ∷ 0 ∷ after)) ≡ 0xb1e6
unfolding ip_checksum sum_loop fold_loop
header_checksum = refl

ip_checksum_example :
    ip_checksum (
      before
      ++ (ip_checksum (before ++ (0 ∷ 0 ∷ after)) / 256
          ∷ ip_checksum (before ++ (0 ∷ 0 ∷ after)) % 256
          ∷ after))
    ≡ 0
ip_checksum_example = ip_checksum_filled 5 before after header_bytes refl (omega arith)
  where
    header_bytes : IsBytes (before ++ (0 ∷ 0 ∷ after))
    header_bytes = ground arith

-- 10.0.2.0/24 on one device, and the rest over a gateway.
abbrev two_routes : List IpV4Route
two_routes =
    (record {
      dest = 0;
      netmask = 0;
      gateway = 0x0a000202;
      src = 0x0a00020f;
      dev = 0x5000;
      metric = 100;
    })
    ∷ (record {
      dest = 0x0a000200;
      netmask = 0xffffff00;
      gateway = 0;
      src = 0x0a00020f;
      dev = 0x5000;
      metric = 100;
    })
    ∷ []

near_is_direct :
    route_lookup two_routes 0x0a000205
    ≡ some (record {
      dest = 0x0a000200;
      netmask = 0xffffff00;
      gateway = 0;
      src = 0x0a00020f;
      dev = 0x5000;
      metric = 100;
    })
unfolding route_lookup lookup_loop
near_is_direct = refl

route_lookup_example : Chosen 0x0a000205 two_routes (route_lookup two_routes 0x0a000205)
route_lookup_example = route_lookup_lem 0x0a000205 two_routes

ip_pton_example :
    (text : List ℕ) × (ip_ntop 0x0a00020f 16 ≡ some text) × (ip_pton text ≡ 0x0a00020f)
ip_pton_example = ip_pton-ip_ntop 0x0a00020f 16 (omega arith) (omega arith)
