-- ===== src/Filter/Persistence.antt =====
-- internal/filter/stoppage_filter.go: the state in Redis, which a restart reads. Go may walk a map in
-- any order; here it is walked from its end.
pub mod Placed
pub mod Restart
use gps_data_receiver.Prelude.{
  ℕ, zero, suc, List, [], ◌∷◌, ◌++◌, Option, none, some, Bool, true, if◌then◌else◌, length, take,
  drop, map, lookup, insert, bytes_eq, codes,
}
use gps_data_receiver.Parser.Data.{Bytes}
use gps_data_receiver.Filter.{
  shard_count, StoppageShard, StoppageFilter, new_stoppage_filter, set_last, shard_index,
}

abbrev pub redis_key_prefix : Bytes
redis_key_prefix = codes "stoppage_state:"

abbrev pub redis_key : Bytes → Bytes
redis_key imei = redis_key_prefix ++ imei

-- What Redis holds; that entries expire after a day is left out.
abbrev pub Redis : Type 0
Redis = List (Bytes × Bytes)

unfoldable pub copy_shard : StoppageShard → StoppageShard → StoppageShard
copy_shard [] copy = copy
copy_shard (e ∷ es) copy = insert e.0 e.1 (copy_shard es copy)

-- The first n shards.
unfoldable pub state_copy : ℕ → StoppageFilter → StoppageShard
unfolding copy_shard
state_copy zero sf = []
state_copy (suc n) sf = copy_shard (sf.shards n) (state_copy n sf)

abbrev pub value_of : Bool → Bytes
value_of is_stoppage = if is_stoppage then codes "1" else codes "0"

unfoldable pub set_commands : StoppageShard → List (Bytes × Bytes)
set_commands [] = []
set_commands (e ∷ es) = (redis_key e.0, value_of e.1) ∷ set_commands es

unfoldable pub run_sets : List (Bytes × Bytes) → Redis → Redis
run_sets [] redis = redis
run_sets (c ∷ cs) redis = insert c.0 c.1 (run_sets cs redis)

-- `executed` is how many commands of the pipeline Redis carries out: all, or fewer when it fails.
unfoldable pub sync_to_redis : ℕ → StoppageFilter → Redis → Redis
unfolding state_copy set_commands run_sets
sync_to_redis executed sf redis =
    run_sets (take executed (set_commands (state_copy shard_count sf))) redis

module _ (sum32 : Bytes → ℕ) where
  abbrev load_value : Bytes → Option Bytes → StoppageFilter → StoppageFilter
  load_value key none sf = sf
  load_value key (some value) sf =
      set_last sum32 (drop (length redis_key_prefix) key) (bytes_eq value (codes "1")) sf

  -- One batch of keys with their values.
  unfoldable pub load_keys : List Bytes → Redis → StoppageFilter → StoppageFilter
  unfolding set_last
  load_keys [] redis sf = sf
  load_keys (key ∷ keys) redis sf = load_keys keys redis (load_value key (lookup key redis) sf)

  -- The batches that SCAN gives; none is an error, which ends the loading.
  unfoldable pub load_from_redis :
      List (Option (List Bytes)) → Redis → StoppageFilter → StoppageFilter
  unfolding load_keys
  load_from_redis [] redis sf = sf
  load_from_redis (none ∷ batches) redis sf = sf
  load_from_redis (some keys ∷ batches) redis sf =
      load_from_redis batches redis (load_keys keys redis sf)

  -- NewStoppageFilter
  abbrev pub restart : Bool → List (Option (List Bytes)) → Redis → StoppageFilter
  restart enabled batches redis = load_from_redis batches redis (new_stoppage_filter enabled)
