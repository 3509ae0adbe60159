-- ===== src/Api/RateLimiter.antt =====
-- internal/api/middleware.go: the rate limiters of the clients, in shards. The operations are the
-- steps between which the requests of several clients may interleave.
pub mod Kept
use gps_data_receiver.Prelude.{
  ℕ, ◌-◌, ◌*◌, ◌%◌, ◌^◌, ◌==◌, List, [], ◌∷◌, Option, none, some, Bool, true, false, if◌then◌else◌,
  ltb, bit_and, bit_xor, lookup, insert,
}
use gps_data_receiver.Parser.Data.{Bytes}

abbrev pub limiter_shard_count : ℕ
limiter_shard_count = 256

-- `A` is the library's token bucket. An entry is shared by its address.
pub record RateLimiterEntry (A : Type 0) : Type 0 where
  pub address : ℕ
  pub limiter : A
  pub last_seen : ℕ

abbrev pub RateLimiterShard : Type 0 → Type 0
RateLimiterShard A = List (Bytes × RateLimiterEntry A)

-- The array of the shards, by index.
abbrev pub Shards : Type 0 → Type 0
Shards A = ℕ → RateLimiterShard A

-- The 32-bit FNV-1a hash of the address.
unfoldable pub fnv : ℕ → Bytes → ℕ
fnv h [] = h
fnv h (b ∷ bs) = fnv (bit_xor h b * 16777619 % 2 ^ 32) bs

unfoldable pub get_shard : Bytes → ℕ
unfolding fnv
get_shard ip = bit_and (fnv 2166136261 ip) (limiter_shard_count - 1)

module _ {A : Type 0} where
  abbrev pub new_rate_limiter : Shards A
  new_rate_limiter i = []

  abbrev pub update_limiter_shard :
      ℕ → (RateLimiterShard A → RateLimiterShard A) → Shards A → Shards A
  update_limiter_shard i f shards j = if j == i then f (shards j) else shards j

  -- The reading of the map under the read lock.
  unfoldable pub find_limiter : Bytes → Shards A → Option (RateLimiterEntry A)
  unfolding get_shard
  find_limiter ip shards = lookup ip (shards (get_shard ip))

  abbrev pub touch : Bytes → ℕ → RateLimiterEntry A → Shards A → Shards A
  touch ip now entry shards =
      update_limiter_shard (get_shard ip) (insert ip (record entry { last_seen = now })) shards

  abbrev pub touch_if : Bool → Bytes → ℕ → RateLimiterEntry A → Shards A → Shards A
  touch_if true ip now entry shards = touch ip now entry shards
  touch_if false ip now entry shards = shards

  abbrev pub mark_found : Bytes → ℕ → ℕ → Option (RateLimiterEntry A) → Shards A → Shards A
  mark_found ip address now none shards = shards
  mark_found ip address now (some entry) shards =
      touch_if (entry.address == address) ip now entry shards

  -- The mark on the entry that was read, made through its address after the lock is given back. The
  -- map sees it if it still holds that entry.
  unfoldable pub mark_seen : Bytes → ℕ → ℕ → Shards A → Shards A
  unfolding get_shard
  mark_seen ip address now shards =
      mark_found ip address now (lookup ip (shards (get_shard ip))) shards

  abbrev pub add_limiter :
      Bytes
      → ℕ
      → RateLimiterEntry A
      → Option (RateLimiterEntry A)
      → Shards A
      → Shards A × RateLimiterEntry A
  add_limiter ip now fresh none shards = (
    update_limiter_shard (get_shard ip) (insert ip (record fresh { last_seen = now })) shards,
    fresh,
  )
  add_limiter ip now fresh (some entry) shards = (touch ip now entry shards, entry)

  -- The part under the lock, after the reading found none: the map is read again. `fresh` is the new
  -- entry with its token bucket.
  unfoldable pub make_limiter :
      Bytes → ℕ → RateLimiterEntry A → Shards A → Shards A × RateLimiterEntry A
  unfolding get_shard
  make_limiter ip now fresh shards =
      add_limiter ip now fresh (lookup ip (shards (get_shard ip))) shards

  abbrev found_or_made :
      Bytes → ℕ → RateLimiterEntry A → Option (RateLimiterEntry A) → Shards A → Shards A × A
  found_or_made ip now fresh none shards =
      let made = make_limiter ip now fresh shards in (made.0, (made.1).limiter)
  found_or_made ip now fresh (some entry) shards =
      (mark_seen ip entry.address now shards, entry.limiter)

  -- The whole of it, when no other request comes in between.
  unfoldable pub get_limiter : Bytes → ℕ → RateLimiterEntry A → Shards A → Shards A × A
  unfolding find_limiter mark_seen make_limiter
  get_limiter ip now fresh shards = found_or_made ip now fresh (find_limiter ip shards) shards

  unfoldable pub evict_before : ℕ → RateLimiterShard A → RateLimiterShard A
  evict_before cutoff [] = []
  evict_before cutoff (e ∷ es) =
      let rest = evict_before cutoff es in if ltb (e.1).last_seen cutoff then rest else e ∷ rest

  -- One shard's turn of the clean-up.
  abbrev pub clean_shard : ℕ → ℕ → Shards A → Shards A
  clean_shard cutoff i shards = update_limiter_shard i (evict_before cutoff) shards
