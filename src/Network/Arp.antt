-- ===== src/Network/Arp.antt =====
-- Kernel/Source/Network/Arp.c: the cache of hardware addresses and the packets that wait for one.
--
-- The two arrays are lists; the lock makes each function a step. An address is the 32-bit number that the
-- code loads, a MAC the list of its bytes. TimerTicks is the argument `now`, the result of
-- TimerMsToTicks the argument `timeout`. EthernetOutput and NetworkFreeBuf are listed as effects in the
-- order of the calls (Input); what EthernetOutput answers is an argument.
pub mod View
pub mod Slots
pub mod Cache
pub mod Flush
pub mod Exchange
pub mod Input
mod Tests
use k_os.Prelude.{
  ℕ, suc, ◌+◌, ◌-◌, ◌%◌, ◌^◌, Bool, true, false, not, ◌&&◌, ◌||◌, Option, none, some, List, [], ◌∷◌,
  map, ltb, ◌==◌, if◌then◌else◌, get_or, set, replicate,
}
use k_os.Network.Buf.{Status, success, incorrect_value, no_memory}

pub record CacheEntry : Type 0 where
  pub ip : ℕ
  pub mac : List ℕ
  pub timestamp : ℕ
  pub valid : Bool

pub record Waiting : Type 0 where
  pub ip : ℕ
  pub dev : ℕ
  pub buf : ℕ
  pub expires_at : ℕ
  pub valid : Bool

-- GCache and GPending.
pub record Arp : Type 0 where
  pub cache : List CacheEntry
  pub pending : List Waiting

abbrev pub zero_entry : CacheEntry
zero_entry = record { ip = 0; mac = replicate 6 0; timestamp = 0; valid = false }

abbrev pub zero_waiting : Waiting
zero_waiting = record { ip = 0; dev = 0; buf = 0; expires_at = 0; valid = false }

unfoldable pub arp_init : Arp
arp_init = record { cache = replicate 32 zero_entry; pending = replicate 8 zero_waiting }

unfoldable pub cache_clear : Arp → Arp
cache_clear s = record s { cache = replicate 32 zero_entry }

-- GCache[I].Valid && GCache[I].Ip == Ip
abbrev pub matches : CacheEntry → ℕ → Bool
matches e ip = e.valid && e.ip == ip

abbrev pub next : Option ℕ → Option ℕ
next none = none
next (some i) = some (suc i)

-- The index of the entry, `none` for NULLPTR.
unfoldable pub cache_find : List CacheEntry → ℕ → Option ℕ
cache_find [] ip = none
cache_find (e ∷ es) ip = let rest = cache_find es ip in if matches e ip then some 0 else next rest

-- The first loop of ArpCacheAllocLocked.
unfoldable pub first_invalid : List CacheEntry → Option ℕ
first_invalid [] = none
first_invalid (e ∷ es) = let rest = first_invalid es in if not e.valid then some 0 else next rest

-- Its second loop, from index `i` on, with the index and the timestamp of Oldest.
unfoldable pub oldest_loop : ℕ → List CacheEntry → ℕ × ℕ → ℕ × ℕ
oldest_loop i [] best = best
oldest_loop i (e ∷ es) best =
    oldest_loop (suc i) es (if ltb e.timestamp best.1 then (i, e.timestamp) else best)

unfoldable pub oldest : List CacheEntry → ℕ
oldest [] = 0
oldest (e ∷ es) = (oldest_loop 1 es (0, e.timestamp)).0

abbrev pub or_else : Option ℕ → ℕ → ℕ
or_else none d = d
or_else (some i) d = i

unfoldable pub cache_alloc : List CacheEntry → ℕ
cache_alloc c = or_else (first_invalid c) (oldest c)

-- What ArpCacheAdd stores of a MAC that is not NULL.
abbrev pub added : ℕ → ℕ → List ℕ → CacheEntry
added now ip mac = record { ip = ip; mac = mac; timestamp = now; valid = true }

unfoldable pub cache_add : Arp → ℕ → ℕ → Option (List ℕ) → Arp
cache_add s now ip none = s
cache_add s now ip (some mac) =
    let e = or_else (cache_find s.cache ip) (cache_alloc s.cache) in
    record s { cache = set s.cache e (added now ip mac) }

abbrev pub invalid : CacheEntry → CacheEntry
invalid e = record e { valid = false }

abbrev pub invalidate : List CacheEntry → Option ℕ → List CacheEntry
invalidate c none = c
invalidate c (some i) = set c i (invalid (get_or c i zero_entry))

unfoldable pub cache_del : Arp → ℕ → Arp
cache_del s ip = record s { cache = invalidate s.cache (cache_find s.cache ip) }

-- (Now - GCache[I].Timestamp) > TimeoutTicks, on UINT64
abbrev pub is_expired : ℕ → ℕ → CacheEntry → Bool
is_expired now timeout e = ltb timeout ((now + (2 ^ 64 - e.timestamp)) % 2 ^ 64)

abbrev pub purge_entry : ℕ → ℕ → CacheEntry → CacheEntry
purge_entry now timeout e = if e.valid && is_expired now timeout e then invalid e else e

unfoldable pub purge_expired : Arp → ℕ → ℕ → Arp
purge_expired s now timeout = record s { cache = map (purge_entry now timeout) s.cache }

abbrev pub mac_at : List CacheEntry → Option ℕ → Option (List ℕ)
mac_at c none = none
mac_at c (some i) = let e = get_or c i zero_entry in if e.valid then some e.mac else none

-- `none` for FALSE, otherwise what is copied to MacOut.
unfoldable pub cache_lookup : Arp → ℕ → ℕ → ℕ → Arp × Option (List ℕ)
cache_lookup s now timeout ip =
    let purged = purge_expired s now timeout in
    (purged, mac_at purged.cache (cache_find purged.cache ip))

abbrev pub behind : Waiting → Option (List Waiting) → Option (List Waiting)
behind x none = none
behind x (some xs) = some (x ∷ xs)

-- The loop of ArpQueuePacket, `none` where every slot is taken.
unfoldable pub queue_loop : List Waiting → Waiting → Option (List Waiting)
queue_loop [] w = none
queue_loop (x ∷ xs) w = elim x.valid [ false ↦ some (w ∷ xs) | true ↦ behind x (queue_loop xs w) ]

unfoldable pub queue_packet : Arp → ℕ → ℕ → ℕ → ℕ → ℕ → Arp × Status
queue_packet s now timeout dev ip buf =
    if dev == 0 || buf == 0
    then (s, incorrect_value)
    else elim (queue_loop s.pending (record {
      ip = ip;
      dev = dev;
      buf = buf;
      expires_at = (now + timeout) % 2 ^ 64;
      valid = true;
    })) [ none ↦ (s, no_memory) | some p ↦ (record s { pending = p }, success) ]
