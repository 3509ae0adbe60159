-- ===== src/Filter/Persistence/Restart.antt =====
-- internal/filter/stoppage_filter.go: a restart keeps what the filter knows of the devices.
use gps_data_receiver.Prelude.{
  ℕ, ◌≤◌, ◌≡◌, ◌⊎◌, ==_iff, refl, ap, sym, ◌∙◌, List, [], ◌∷◌, ◌++◌, Option, none, some, Bool,
  Bool-cases, true, false, inl, inr, arith, All, length, take, take_all, lookup, lookup-insert,
  bytes_eq, bytes_eq→≡, codes, subst,
}
use gps_data_receiver.Parser.Data.{Bytes}
use gps_data_receiver.Filter.{
  shard_count, StoppageShard, StoppageFilter, new_stoppage_filter, shard_index, last_was_stoppage,
}
use gps_data_receiver.Filter.Persistence.{
  redis_key_prefix, redis_key, Redis, state_copy, value_of, set_commands, run_sets, sync_to_redis,
  load_value, load_keys, load_from_redis, restart,
}
use gps_data_receiver.Filter.Persistence.Placed.{
  IsPlaced, lookup-state_copy, set_last_same, set_last_other,
}

prefixed : (text j k : Bytes) → bytes_eq (text ++ j) (text ++ k) ≡ bytes_eq j k
unfolding bytes_eq
prefixed [] j k = refl
prefixed (t ∷ ts) j k = rw ((==_iff t t).1 refl) (prefixed ts j k)

lookup-set_commands :
    (imei : Bytes) (es : StoppageShard) (redis : Redis) (b : Bool)
    → lookup imei es ≡ some b
    → lookup (redis_key imei) (run_sets (set_commands es) redis) ≡ some (value_of b)
unfolding set_commands run_sets lookup
lookup-set_commands imei [] redis b h = absurd (cc h)
lookup-set_commands imei (e ∷ es) redis b h =
    lookup-insert (redis_key imei) (redis_key e.0) (value_of e.1) (run_sets (set_commands es) redis)
    ∙ elim (Bool-cases (bytes_eq imei e.0)) [
      | inl here ↦
          let same : some e.1 ≡ some b = rw here at h in
          rw (prefixed redis_key_prefix imei e.0, here) (ap (value_or (value_of e.1)) same)
      | inr past ↦
          rw (prefixed redis_key_prefix imei e.0, past)
            (lookup-set_commands imei es redis b (rw past at h))
    ]
  where
    value_or : Bytes → Option Bool → Option Bytes
    value_or d none = some d
    value_or d (some c) = some (value_of c)

module _ (sum32 : Bytes → ℕ) where
  -- The keys that a scan for the prefix gives, and that one of them is the device's.
  abbrev pub AreKeys : List Bytes → Type 0
  AreKeys = All (λ (key : Bytes). (other : Bytes) × (key ≡ redis_key other))

  abbrev pub Among : Bytes → List Bytes → Type 0
  Among imei [] = ⊥
  Among imei (key ∷ keys) = (key ≡ redis_key imei) ⊎ Among imei keys

  abbrev pub ScanGives : Bytes → List (Option (List Bytes)) → Type 0
  ScanGives imei [] = ⊥
  ScanGives imei (none ∷ batches) = ⊥
  ScanGives imei (some keys ∷ batches) = Among imei keys ⊎ ScanGives imei batches

  abbrev pub AllKeys : List (Option (List Bytes)) → Type 0
  AllKeys [] = Unit
  AllKeys (none ∷ batches) = Unit
  AllKeys (some keys ∷ batches) = AreKeys keys × AllKeys batches

  abbrev Knows : Bytes → Bool → StoppageFilter → Type 0
  Knows imei b sf = last_was_stoppage sum32 sf imei ≡ some b

  value_of-read : (b : Bool) → bytes_eq (value_of b) (codes "1") ≡ b
  unfolding bytes_eq
  value_of-read true = refl
  value_of-read false = refl

  module _ (imei : Bytes) (b : Bool) (redis : Redis)
      (held : lookup (redis_key imei) redis ≡ some (value_of b)) where
    load_own :
        (key : Bytes) (sf : StoppageFilter)
        → key ≡ redis_key imei
        → Knows imei b (load_value sum32 key (lookup key redis) sf)
    load_own key sf key_is =
        subst (λ (k : Bytes). Knows imei b (load_value sum32 k (lookup k redis) sf)) (sym key_is)
          (rw held (rw (value_of-read b) (set_last_same sum32 sf imei b)))

    load_value-Knows :
        (key other : Bytes) (sf : StoppageFilter)
        → key ≡ redis_key other
        → Knows imei b sf
        → Knows imei b (load_value sum32 key (lookup key redis) sf)
    load_value-Knows key other sf key_is knows = elim (Bool-cases (bytes_eq imei other)) [
      | inl same ↦ load_own key sf (key_is ∙ ap redis_key (sym (bytes_eq→≡ imei other same)))
      | inr differ ↦
          subst (λ (k : Bytes). Knows imei b (load_value sum32 k (lookup k redis) sf)) (sym key_is)
            (by_value (lookup (redis_key other) redis) differ)
    ]
      where
        by_value :
            (value : Option Bytes)
            → bytes_eq imei other ≡ false
            → Knows imei b (load_value sum32 (redis_key other) value sf)
        by_value none differ = knows
        by_value (some v) differ =
            set_last_other sum32 sf imei other (bytes_eq v (codes "1")) differ ∙ knows

    load_keys-keeps :
        (keys : List Bytes) (sf : StoppageFilter)
        → AreKeys keys
        → Knows imei b sf
        → Knows imei b (load_keys sum32 keys redis sf)
    unfolding load_keys
    load_keys-keeps [] sf are knows = knows
    load_keys-keeps (key ∷ keys) sf ((other, key_is), are) knows =
        load_keys-keeps keys (load_value sum32 key (lookup key redis) sf) are
          (load_value-Knows key other sf key_is knows)

    load_keys-Knows :
        (keys : List Bytes) (sf : StoppageFilter)
        → AreKeys keys
        → Among imei keys
        → Knows imei b (load_keys sum32 keys redis sf)
    unfolding load_keys
    load_keys-Knows [] sf are given = elim given [ ]
    load_keys-Knows (key ∷ keys) sf (k, are) (inl here) =
        load_keys-keeps keys (load_value sum32 key (lookup key redis) sf) are (load_own key sf here)
    load_keys-Knows (key ∷ keys) sf (k, are) (inr later) =
        load_keys-Knows keys (load_value sum32 key (lookup key redis) sf) are later

    load_from_redis-keeps :
        (batches : List (Option (List Bytes))) (sf : StoppageFilter)
        → AllKeys batches
        → Knows imei b sf
        → Knows imei b (load_from_redis sum32 batches redis sf)
    unfolding load_from_redis
    load_from_redis-keeps [] sf are knows = knows
    load_from_redis-keeps (none ∷ batches) sf are knows = knows
    load_from_redis-keeps (some keys ∷ batches) sf (k, are) knows =
        load_from_redis-keeps batches (load_keys sum32 keys redis sf) are
          (load_keys-keeps keys sf k knows)

    load_from_redis-Knows :
        (batches : List (Option (List Bytes))) (sf : StoppageFilter)
        → AllKeys batches
        → ScanGives imei batches
        → Knows imei b (load_from_redis sum32 batches redis sf)
    unfolding load_from_redis
    load_from_redis-Knows [] sf are given = elim given [ ]
    load_from_redis-Knows (none ∷ batches) sf are given = elim given [ ]
    load_from_redis-Knows (some keys ∷ batches) sf (k, are) (inl here) =
        load_from_redis-keeps batches (load_keys sum32 keys redis sf) are
          (load_keys-Knows keys sf k here)
    load_from_redis-Knows (some keys ∷ batches) sf (k, are) (inr later) =
        load_from_redis-Knows batches (load_keys sum32 keys redis sf) are later

  -- A device's state survives a restart: if the state is placed as every state that the filter comes
  -- to, Redis carries out all commands of the last synchronisation, and the scan at the start gives
  -- the device's key before it fails, if it does, and only keys with the prefix, then the new filter
  -- knows of the device what the old one knew, whatever Redis held before.
  pub restart-sync_to_redis :
      (sf : StoppageFilter) (imei : Bytes) (b enabled : Bool) (redis : Redis) (executed : ℕ)
      (batches : List (Option (List Bytes)))
      → IsPlaced sum32 sf
      → last_was_stoppage sum32 sf imei ≡ some b
      → length (set_commands (state_copy shard_count sf)) ≤ executed
      → AllKeys batches
      → ScanGives imei batches
      → last_was_stoppage sum32
          (restart sum32 enabled batches (sync_to_redis executed sf redis))
          imei
        ≡ some b
  unfolding sync_to_redis shard_index
  restart-sync_to_redis sf imei b enabled redis executed batches placed known all are scanned =
      let copied : lookup imei (state_copy shard_count sf) ≡ some b =
        lookup-state_copy sum32 sf imei shard_count b placed (omega arith) known in
      let commands = set_commands (state_copy shard_count sf) in
      let held : lookup (redis_key imei) (run_sets (take executed commands) redis)
          ≡ some (value_of b) =
        ap (λ (l : List (Bytes × Bytes)). lookup (redis_key imei) (run_sets l redis))
          (take_all executed commands all)
        ∙ lookup-set_commands imei (state_copy shard_count sf) redis b copied in
      load_from_redis-Knows imei b (run_sets (take executed commands) redis) held batches
        (new_stoppage_filter enabled) are scanned
