-- ===== src/Filter.antt =====
-- internal/filter/stoppage_filter.go: the filter for redundant stoppages.
pub mod History
pub mod Device
pub mod Redelivery
pub mod Persistence
pub mod Tests
use gps_data_receiver.Prelude.{
  ℕ, zero, suc, ◌+◌, ◌%◌, ◌==◌, List, [], ◌∷◌, Option, none, some, Bool, true, false, not, ◌||◌,
  if◌then◌else◌, length, lookup, insert,
}
use gps_data_receiver.Prelude.Int.{is_zero}
use gps_data_receiver.Parser.Data.{Bytes, ParsedGpsData}

abbrev pub shard_count : ℕ
shard_count = 256

-- Of each device in the shard: whether its last record was a stoppage.
abbrev pub StoppageShard : Type 0
StoppageShard = List (Bytes × Bool)

-- The array of the shards, by index.
pub record StoppageFilter : Type 0 where
  pub shards : ℕ → StoppageShard
  pub enabled : Bool

unfoldable pub is_stoppage : {F : Type 0} → ParsedGpsData F → Bool
is_stoppage r = is_zero r.speed

abbrev pub update_shard : ℕ → (StoppageShard → StoppageShard) → StoppageFilter → StoppageFilter
update_shard i f sf = record {
  shards = λ j. if j == i then f (sf.shards j) else sf.shards j;
  enabled = sf.enabled;
}

-- `exists && lastWasStoppage`
abbrev pub stands : Option Bool → Bool
stands none = false
stands (some b) = b

abbrev pub keep {ℓ} : {A : Type ℓ} → Bool → A → List A → List A
keep b r rs = if b then r ∷ rs else rs

-- Without the state that Redis may hold.
abbrev pub new_stoppage_filter : Bool → StoppageFilter
new_stoppage_filter enabled = record { shards = λ i. []; enabled = enabled }

-- The entries of the first n shards.
unfoldable pub count_shards : ℕ → StoppageFilter → ℕ
count_shards zero sf = 0
count_shards (suc n) sf = count_shards n sf + length (sf.shards n)

unfoldable pub get_state_count : StoppageFilter → ℕ
unfolding count_shards
get_state_count sf = count_shards shard_count sf

abbrev pub clear_state : StoppageFilter → StoppageFilter
clear_state sf = record sf { shards = λ i. [] }

-- `sum32` is the 32-bit FNV-1a hash of Go's library.
module _ (sum32 : Bytes → ℕ) where
  unfoldable pub shard_index : Bytes → ℕ
  shard_index imei = sum32 imei % shard_count

  -- shard.state[imei]
  unfoldable pub last_was_stoppage : StoppageFilter → Bytes → Option Bool
  unfolding shard_index
  last_was_stoppage sf imei = lookup imei (sf.shards (shard_index imei))

  unfoldable pub set_last : Bytes → Bool → StoppageFilter → StoppageFilter
  unfolding shard_index
  set_last imei b sf = update_shard (shard_index imei) (insert imei b) sf

  module _ {F : Type 0} where
    -- A record under its shard's lock: whether it is kept, and the filter after it.
    unfoldable pub filter_record : ParsedGpsData F → StoppageFilter → Bool × StoppageFilter
    unfolding is_stoppage last_was_stoppage set_last
    filter_record r sf =
        if not (is_stoppage r)
        then (true, set_last r.imei false sf)
        else if not (stands (last_was_stoppage sf r.imei))
        then (true, set_last r.imei true sf)
        else (false, sf)

    unfoldable pub filter_records :
        List (ParsedGpsData F) → StoppageFilter → List (ParsedGpsData F) × StoppageFilter
    unfolding filter_record
    filter_records [] sf = ([], sf)
    filter_records (r ∷ rs) sf =
        let first = filter_record r sf in
        let others = filter_records rs first.1 in (keep first.0 r others.0, others.1)

    unfoldable pub filter_data :
        List (ParsedGpsData F) → StoppageFilter → List (ParsedGpsData F) × StoppageFilter
    unfolding filter_records
    filter_data rs sf = if not sf.enabled then (rs, sf) else filter_records rs sf
