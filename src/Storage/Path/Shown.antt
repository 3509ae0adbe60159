-- ===== src/Storage/Path/Shown.antt =====
-- internal/storage/postgres.go: what the points of a path are.
use mathlib.Core.List.{Memᴰ}
use mathlib.Core.List.Memᴰ.{head, tail}
use gps_data_receiver.Prelude.{
  min, ℕ, zero, suc, ◌≡◌, ◌≤◌, ◌⊎◌, ◌==◌, ◌&&◌, refl, ap, sym, ◌∙◌, List, [], ◌∷◌, ◌++◌, Bool,
  Bool-cases, true, false, not, if◌then◌else◌, arith, leb, length, length-take, subst, take,
  take_all, All, All-take, inl, inr, bytes_eq, bytes_eq→≡, bytes_eq_refl, codes,
}
use gps_data_receiver.Parser.Data.{Bytes}
use gps_data_receiver.Prelude.Int.{ℤ, pos, negsuc}
use gps_data_receiver.Prelude.Result.{Result, ok, err}
use gps_data_receiver.Storage.Path.{
  PathPoint, PathRow, PathTable, PathQueryFilter, PathError, path_limit, midnight, is_stop,
  is_based, base, without_repeated_stops, query_path_points,
}
use gps_data_receiver.Storage.Path.Stops.{
  NoStopsInARow, NoStopsInARow-take, without_repeated_stops-NoStopsInARow,
  moving-without_repeated_stops, stop-without_repeated_stops, All-without_repeated_stops,
}

-- What a caller may have: as many points as asked for up to 200000, and 50000 if none or fewer are asked
-- for.
abbrev pub allowed : ℤ → ℕ
allowed (pos zero) = 50_000
allowed (pos (suc n)) = min (suc n) 200_000
allowed (negsuc n) = 50_000

path_limit-allowed : (limit : ℤ) → path_limit limit ≡ allowed limit
unfolding path_limit
path_limit-allowed (pos zero) = refl
path_limit-allowed (pos (suc n)) = ground arith
path_limit-allowed (negsuc n) = refl

module _ {F : Type 0} (db : PathTable F) where
  -- A point of this device, not before the first midnight and before the second.
  abbrev pub IsOfDay : Bytes → Bytes → Bytes → PathPoint F → Type 0
  IsOfDay start end imei p =
      (p.imei ≡ imei)
      × (db.text_less p.date_time (start ++ codes " 00:00:00") ≡ false)
      × (db.text_less p.date_time (end ++ codes " 00:00:00") ≡ true)

  -- The points are those of some of the rows, in their order, all with a coordinate.
  abbrev pub Within : List (PathPoint F) → List (PathRow F) → Type 0
  Within [] rows = Unit
  Within (p ∷ points) [] = ⊥
  Within (p ∷ points) (r ∷ rows) =
      ((r.point ≡ p) × (r.has_coordinate ≡ true) × Within points rows) ⊎ Within (p ∷ points) rows

  Within-skip :
      (points : List (PathPoint F)) (r : PathRow F) (rows : List (PathRow F))
      → Within points rows
      → Within points (r ∷ rows)
  Within-skip [] r rows h = tt
  Within-skip (p ∷ points) r rows h = inr h

  Within-take :
      (n : ℕ) (points : List (PathPoint F)) (rows : List (PathRow F))
      → Within points rows
      → Within (take n points) rows
  Within-take zero points rows h = tt
  Within-take (suc n) [] rows h = tt
  Within-take (suc n) (p ∷ points) [] h = elim h [ ]
  Within-take (suc n) (p ∷ points) (r ∷ rows) (inl (e, has, h)) =
      inl (e, has, Within-take n points rows h)
  Within-take (suc n) (p ∷ points) (r ∷ rows) (inr h) =
      inr (Within-take (suc n) (p ∷ points) rows h)

  is_based-IsOfDay :
      (filter : PathQueryFilter) (p : PathPoint F)
      → is_based db filter p ≡ true
      → IsOfDay filter.date_start filter.date_end filter.imei p
  is_based-IsOfDay filter p e = elim (Bool-cases (bytes_eq p.imei filter.imei)) [
    | inr other ↦ absurd (cc (rw other at e))
    | inl same ↦ elim (Bool-cases (db.text_less p.date_time (midnight filter.date_start))) [
      | inl early ↦ absurd (cc (rw early at (rw same at e)))
      | inr from ↦ (bytes_eq→≡ p.imei filter.imei same, from, rw from at (rw same at e))
    ]
  ]

  IsOfDay-is_based :
      (filter : PathQueryFilter) (p : PathPoint F)
      → IsOfDay filter.date_start filter.date_end filter.imei p
      → is_based db filter p ≡ true
  IsOfDay-is_based filter p (same, from, to) =
      let equal : bytes_eq p.imei filter.imei ≡ true =
        ap (bytes_eq p.imei) (sym same) ∙ bytes_eq_refl p.imei in
      rw equal (rw from to)

  base-IsOfDay :
      (filter : PathQueryFilter) (rows : List (PathRow F))
      → All (IsOfDay filter.date_start filter.date_end filter.imei) (base db filter rows)
  unfolding base
  base-IsOfDay filter [] = tt
  base-IsOfDay filter (r ∷ rows) =
      go (is_based db filter r.point) r.has_coordinate refl (base-IsOfDay filter rows)
    where
      go :
          (selected has : Bool)
          → is_based db filter r.point ≡ selected
          → All (IsOfDay filter.date_start filter.date_end filter.imei) (base db filter rows)
          → All
              (IsOfDay filter.date_start filter.date_end filter.imei)
              (if selected && has then r.point ∷ base db filter rows else base db filter rows)
      go true true e rest = (is_based-IsOfDay filter r.point e, rest)
      go true false e rest = rest
      go false has e rest = rest

  base-Within :
      (filter : PathQueryFilter) (prev : Bool) (rows : List (PathRow F))
      → Within (without_repeated_stops db prev (base db filter rows)) rows
  unfolding base without_repeated_stops
  base-Within filter prev [] = tt
  base-Within filter prev (r ∷ rows) =
      go (is_based db filter r.point) r.has_coordinate (is_stop db r.point) prev refl
        (base-Within filter prev rows) (base-Within filter (is_stop db r.point) rows)
    where
      go :
          (selected has stop before : Bool)
          → r.has_coordinate ≡ has
          → Within (without_repeated_stops db before (base db filter rows)) rows
          → Within (without_repeated_stops db (is_stop db r.point) (base db filter rows)) rows
          → Within
              (without_repeated_stops db before
                (if selected && has then r.point ∷ base db filter rows else base db filter rows))
              (r ∷ rows)
      go true true stop before e skipped kept = by_stop (not (is_stop db r.point && before))
        where
          by_stop :
              (keeps : Bool)
              → Within
                  (if keeps
                    then r.point
                      ∷ without_repeated_stops db (is_stop db r.point) (base db filter rows)
                    else without_repeated_stops db (is_stop db r.point) (base db filter rows))
                  (r ∷ rows)
          by_stop true = inl (refl, e, kept)
          by_stop false = Within-skip _ r rows kept
      go true false stop before e skipped kept = Within-skip _ r rows skipped
      go false has stop before e skipped kept = Within-skip _ r rows skipped

  base-complete :
      (filter : PathQueryFilter) (r : PathRow F) (rows : List (PathRow F))
      → Memᴰ r rows
      → r.has_coordinate ≡ true
      → IsOfDay filter.date_start filter.date_end filter.imei r.point
      → Memᴰ r.point (base db filter rows)
  unfolding base
  base-complete filter r [] m has of_day = elim m [ ]
  base-complete filter r (q ∷ rows) (head e) has of_day =
      subst (λ (x : PathRow F). Memᴰ r.point (base db filter (x ∷ rows))) e
        (rw (IsOfDay-is_based filter r.point of_day) (rw has (head refl)))
  base-complete filter r (q ∷ rows) (tail m) has of_day =
      go (is_based db filter q.point && q.has_coordinate) (base-complete filter r rows m has of_day)
    where
      go :
          (kept : Bool)
          → Memᴰ r.point (base db filter rows)
          → Memᴰ r.point (if kept then q.point ∷ base db filter rows else base db filter rows)
      go true m = tail m
      go false m = m

  -- Every row of the day with a coordinate at which the device moves is among the points.
  abbrev pub AllMoves : Bytes → Bytes → Bytes → List (PathPoint F) → Type 0
  AllMoves start end imei points =
      (r : PathRow F)
      → Memᴰ r db.rows
      → r.has_coordinate ≡ true
      → IsOfDay start end imei r.point
      → db.is_zero (r.point).speed ≡ false
      → Memᴰ r.point points

  -- If the device stops in such a row, one of the points is a stop.
  abbrev pub SomeStop : Bytes → Bytes → Bytes → List (PathPoint F) → Type 0
  SomeStop start end imei points =
      (r : PathRow F)
      → Memᴰ r db.rows
      → r.has_coordinate ≡ true
      → IsOfDay start end imei r.point
      → db.is_zero (r.point).speed ≡ true
      → (q : PathPoint F) × Memᴰ q points × (db.is_zero q.speed ≡ true)

  abbrev pub IsPath : ℕ → Bytes → Bytes → Bytes → List (PathPoint F) → Type 0
  IsPath limit start end imei points =
      (length points ≤ limit)
      × Within points db.rows
      × All (IsOfDay start end imei) points
      × NoStopsInARow db false points
      × ((length points ≡ limit)
          ⊎ (AllMoves start end imei points × SomeStop start end imei points))

  taken-IsPath :
      (filter : PathQueryFilter)
      → IsPath (path_limit filter.limit) filter.date_start filter.date_end filter.imei (
          take (path_limit filter.limit) (without_repeated_stops db false (base db filter db.rows)))
  taken-IsPath filter =
      let found : List (PathPoint F) = base db filter db.rows in
      let path : List (PathPoint F) = without_repeated_stops db false found in
      let limit : ℕ = path_limit filter.limit in
      let size = length-take limit path in
      let OfDay : PathPoint F → Type 0 = IsOfDay filter.date_start filter.date_end filter.imei in
      (
        omega (arith, size),
        Within-take limit path db.rows (base-Within filter false db.rows),
        All-take OfDay limit path
            (All-without_repeated_stops db OfDay false found (base-IsOfDay filter db.rows)),
        NoStopsInARow-take db limit false path
            (without_repeated_stops-NoStopsInARow db false found),
        elim (Bool-cases (leb limit (length path))) [
          | inl cut ↦ inl (ground arith)
          | inr whole ↦
              let same : take limit path ≡ path = take_all limit path (ground arith) in
              inr (
                (λ r m has of_day moves. subst (Memᴰ r.point) (sym same) (
                    moving-without_repeated_stops db r.point false found moves
                      (base-complete filter r db.rows m has of_day))),
                (λ r m has of_day stops.
                    elim (stop-without_repeated_stops db r.point false found stops
                      (base-complete filter r db.rows m has of_day)) [
                        | inl before ↦ absurd (cc before)
                        | inr (q, among, q_stops) ↦ (q, subst (Memᴰ q) (sym same) among, q_stops)
                      ]),
              )
        ],
      )

  -- When the query for a path succeeds, its points are at most as many as the caller asked for, and at
  -- most 200000, or 50000 where the limit is not positive. They are those of rows with a coordinate, in
  -- the order of the rows, all of the IMEI and between the midnights of the two days that the filter
  -- names. No two stops follow one another. If they are fewer than that limit, every such row at which
  -- the device moves is among them, and a stop if there is a row at which it stops.
  pub query_path_points-IsPath :
      (filter : PathQueryFilter) (points : List (PathPoint F))
      → query_path_points db filter ≡ ok points
      → IsPath (allowed filter.limit) filter.date_start filter.date_end filter.imei points
  unfolding query_path_points
  query_path_points-IsPath filter points e = elim (Bool-cases (length filter.imei == 0)) [
    | inl missing ↦ absurd (cc (rw missing at e))
    | inr given ↦ elim (Bool-cases db.answers) [
      | inr failed ↦ absurd (cc (rw failed at (rw given at e)))
      | inl answered ↦
          let IsShown : ℕ → List (PathPoint F) → Type 0 =
            λ limit. IsPath limit filter.date_start filter.date_end filter.imei in
          subst (λ (limit : ℕ). IsShown limit points) (path_limit-allowed filter.limit)
            (subst (IsShown (path_limit filter.limit))
              (ap (points_or points) (rw answered at (rw given at e))) (taken-IsPath filter))
    ]
  ]
    where
      points_or : List (PathPoint F) → Result PathError (List (PathPoint F)) → List (PathPoint F)
      points_or d (ok found) = found
      points_or d (err e) = d
