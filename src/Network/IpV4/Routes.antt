-- ===== src/Network/IpV4/Routes.antt =====
-- Kernel/Source/Network/IpV4.c: the list of routes.
pub mod Best
use k_os.Prelude.{
  ℕ, bit_and, Bool, true, false, ◌&&◌, ◌||◌, Option, none, some, List, [], ◌∷◌, ◌++◌, ltb, ◌==◌,
  if◌then◌else◌,
}

-- `dev` is the address of the device.
pub record IpV4Route : Type 0 where
  pub dest : ℕ
  pub netmask : ℕ
  pub gateway : ℕ
  pub src : ℕ
  pub dev : ℕ
  pub metric : ℕ

pub data RouteStatus : Type 0 where
  route_added removed not_found no_memory : RouteStatus

-- IpV4RouteAdd; the Boolean is whether MemoryAllocate has given a block.
unfoldable pub route_add : Bool → List IpV4Route → IpV4Route → List IpV4Route × RouteStatus
route_add false routes r = (routes, no_memory)
route_add true routes r = (routes ++ (r ∷ []), route_added)

unfoldable pub route_del : List IpV4Route → ℕ → ℕ → List IpV4Route × RouteStatus
route_del [] dest netmask = ([], not_found)
route_del (r ∷ rs) dest netmask =
    let rest = route_del rs dest netmask in
    if (r.dest == dest) && (r.netmask == netmask) then (rs, removed) else (r ∷ rest.0, rest.1)

abbrev pub is_match : ℕ → IpV4Route → Bool
is_match dest r = bit_and dest r.netmask == r.dest

-- Whether `r` goes before `best`.
abbrev pub is_better : IpV4Route → IpV4Route → Bool
is_better r best =
    ltb r.metric best.metric || ((r.metric == best.metric) && ltb best.netmask r.netmask)

-- `!Best || ...`
abbrev pub prefer : IpV4Route → Option IpV4Route → Option IpV4Route
prefer r none = some r
prefer r (some best) = if is_better r best then some r else some best

unfoldable pub lookup_loop : ℕ → Option IpV4Route → List IpV4Route → Option IpV4Route
lookup_loop dest best [] = best
lookup_loop dest best (r ∷ rs) =
    lookup_loop dest (if is_match dest r then prefer r best else best) rs

unfoldable pub route_lookup : List IpV4Route → ℕ → Option IpV4Route
route_lookup routes dest = lookup_loop dest none routes

unfoldable pub route_get_default : List IpV4Route → Option IpV4Route
route_get_default routes = route_lookup routes 0
