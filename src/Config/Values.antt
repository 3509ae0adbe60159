-- ===== src/Config/Values.antt =====
-- internal/config/config.go: single values of the environment.
use gps_data_receiver.Prelude.{
  ◌==◌, List, [], ◌∷◌, Option, none, some, Bool, if◌then◌else◌, length, trim_space,
}
use gps_data_receiver.Prelude.Int.{ℤ}
use gps_data_receiver.Parser.Data.{Bytes}
use gps_data_receiver.Parser.Hooshnic.Items.{split}

-- os.Getenv, empty for a name that is not set, and Go's parsers of numbers.
pub record Environment (F : Type 0) : Type 0 where
  pub getenv : Bytes → Bytes
  pub parse_int : Bytes → Option ℤ
  pub parse_int64 : Bytes → Option ℤ
  pub parse_duration : Bytes → Option ℤ
  pub parse_bool : Bytes → Option Bool
  pub parse_float : Bytes → Option F
  pub one_hundredth : F

module _ {F : Type 0} (env : Environment F) where
  unfoldable pub get_env : Bytes → Bytes → Bytes
  get_env key default_value =
      let value = env.getenv key in if length value == 0 then default_value else value

  unfoldable pub get_env_any : List Bytes → Bytes → Bytes
  get_env_any [] default_value = default_value
  get_env_any (key ∷ keys) default_value =
      let value = env.getenv key in
      let others = get_env_any keys default_value in if length value == 0 then others else value

  abbrev value_or : {A : Type 0} → A → Option A → A
  value_or default_value none = default_value
  value_or default_value (some value) = value

  -- getInt, getInt64, getDuration, getBool and getFloat64
  unfoldable pub get_value : {A : Type 0} → (Bytes → Option A) → Bytes → A → A
  get_value parse key default_value =
      let value = env.getenv key in
      if length value == 0 then default_value else value_or default_value (parse value)

  -- getBoolAny, getIntAny and getDurationAny
  unfoldable pub get_value_any : {A : Type 0} → (Bytes → Option A) → List Bytes → A → A
  get_value_any parse [] default_value = default_value
  get_value_any parse (key ∷ keys) default_value =
      let value = env.getenv key in
      let others = get_value_any parse keys default_value in
      if length value == 0 then others else value_or others (parse value)

  unfoldable pub trimmed_parts : List Bytes → List Bytes
  unfolding trim_space
  trimmed_parts [] = []
  trimmed_parts (part ∷ parts) =
      let rest = trimmed_parts parts in
      let trimmed = trim_space part in if length trimmed == 0 then rest else trimmed ∷ rest

  unfoldable pub get_slice : Bytes → List Bytes → List Bytes
  unfolding trimmed_parts split
  get_slice key default_value =
      let value = env.getenv key in
      if length value == 0 then default_value else trimmed_parts (split b',' value)
