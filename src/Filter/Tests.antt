-- ===== src/Filter/Tests.antt =====
-- internal/filter/stoppage_filter.go with concrete records.
use gps_data_receiver.Prelude.{
  ℕ, ◌≡◌, refl, List, [], ◌∷◌, true, length, Option, none, some, inl, arith, lookup, insert,
  bytes_eq,
}
use gps_data_receiver.Prelude.Int.{ℤ, pos}
use gps_data_receiver.Parser.Data.{Bytes, ParsedGpsData}
use gps_data_receiver.Filter.{
  StoppageFilter, is_stoppage, filter_data, filter_records, filter_record, last_was_stoppage,
  set_last, shard_index, shard_count,
}
use gps_data_receiver.Filter.Persistence.{
  redis_key, copy_shard, state_copy, set_commands, sync_to_redis, restart,
}
use gps_data_receiver.Filter.Persistence.Placed.{
  IsPlaced, new_stoppage_filter-IsPlaced, filter_data-IsPlaced,
}
use gps_data_receiver.Filter.Persistence.Restart.{restart-sync_to_redis}
use gps_data_receiver.Filter.History.{standing, without_repeats, filter_data-history}
use gps_data_receiver.Filter.Device.{of_device, squeeze, Alternates, filter_data-of_device}
use gps_data_receiver.Filter.Redelivery.{IsStoppage, filter_data_twice}

abbrev at_speed : ℕ → ParsedGpsData ℤ
at_speed speed = record {
  lat = pos 0;
  lon = pos 0;
  speed = pos speed;
  status = pos 0;
  ew = pos 1;
  ns = pos 1;
  date_time = [];
  imei = b'4' ∷ b'2' ∷ [];
  raw_data = [];
}

abbrev batch : List (ParsedGpsData ℤ)
batch = at_speed 0 ∷ at_speed 0 ∷ at_speed 9 ∷ at_speed 0 ∷ []

abbrev fresh : StoppageFilter
fresh = record { shards = λ i. []; enabled = true }

filter_data-history_example :
    (filter_data length batch fresh).0 ≡ without_repeats (standing length fresh) [] batch
filter_data-history_example = filter_data-history length batch fresh refl

filter_data-of_device_example :
    (of_device (b'4' ∷ b'2' ∷ []) (filter_data length batch fresh).0
      ≡ squeeze (standing length fresh (b'4' ∷ b'2' ∷ [])) (of_device (b'4' ∷ b'2' ∷ []) batch))
    × Alternates
        (standing length fresh (b'4' ∷ b'2' ∷ []))
        (of_device (b'4' ∷ b'2' ∷ []) (filter_data length batch fresh).0)
filter_data-of_device_example = filter_data-of_device length (b'4' ∷ b'2' ∷ []) batch fresh refl

stops : IsStoppage (at_speed 0)
unfolding is_stoppage
stops = refl

filter_data_twice_example :
    (filter_data length (at_speed 0 ∷ []) (filter_data length (at_speed 0 ∷ []) fresh).1).0 ≡ []
filter_data_twice_example = filter_data_twice length (at_speed 0 ∷ []) fresh refl (stops, tt)

abbrev seen : StoppageFilter
seen = (filter_data length batch fresh).1

seen-IsPlaced : IsPlaced length seen
seen-IsPlaced = filter_data-IsPlaced length batch fresh (new_stoppage_filter-IsPlaced length true)

seen_standing : last_was_stoppage length seen (b'4' ∷ b'2' ∷ []) ≡ some true
unfolding last_was_stoppage filter_data filter_records filter_record is_stoppage set_last
    shard_index lookup insert bytes_eq
seen_standing = refl

seen_commands : length (set_commands (state_copy shard_count seen)) ≡ 1
unfolding set_commands state_copy copy_shard filter_data filter_records filter_record is_stoppage
    last_was_stoppage set_last shard_index lookup insert bytes_eq
seen_commands = refl

abbrev scanned : List (Option (List Bytes))
scanned = some (redis_key (b'4' ∷ b'2' ∷ []) ∷ []) ∷ none ∷ []

-- The scan fails after the batch with the device's key.
restart-sync_to_redis_example :
    last_was_stoppage length
      (restart length true scanned (sync_to_redis 1 seen []))
      (b'4' ∷ b'2' ∷ [])
    ≡ some true
restart-sync_to_redis_example =
    restart-sync_to_redis length seen (b'4' ∷ b'2' ∷ []) true true [] 1 scanned seen-IsPlaced
      seen_standing (omega (arith, seen_commands)) (((b'4' ∷ b'2' ∷ [], refl), tt), tt)
      (inl (inl refl))
