-- ===== src/Storage/Path/Stops.antt =====
-- internal/storage/postgres.go: what the window over stops leaves of a path.
use mathlib.Core.List.{Memᴰ}
use mathlib.Core.List.Memᴰ.{head, tail}
use gps_data_receiver.Prelude.{
  ℕ, zero, suc, ◌≡◌, ◌⊎◌, ◌&&◌, refl, ap, sym, ◌∙◌, List, [], ◌∷◌, Bool, Bool-cases, true, false,
  not, if◌then◌else◌, take, All, inl, inr,
}
use gps_data_receiver.Storage.Path.{PathPoint, PathTable, is_stop, without_repeated_stops}

module _ {F : Type 0} (db : PathTable F) where
  -- No stop stands behind a stop.
  abbrev pub NoStopsInARow : Bool → List (PathPoint F) → Type 0
  NoStopsInARow prev [] = Unit
  NoStopsInARow prev (p ∷ points) =
      ((db.is_zero p.speed && prev) ≡ false) × NoStopsInARow (db.is_zero p.speed) points

  NoStopsInARow-weaken :
      (prev : Bool) (points : List (PathPoint F))
      → NoStopsInARow true points
      → NoStopsInARow prev points
  NoStopsInARow-weaken true points h = h
  NoStopsInARow-weaken false [] h = tt
  NoStopsInARow-weaken false (p ∷ points) (alone, rest) = (no_stop (is_stop db p), rest)
    where
      no_stop : (b : Bool) → (b && false) ≡ false
      no_stop true = refl
      no_stop false = refl

  pub without_repeated_stops-NoStopsInARow :
      (prev : Bool) (points : List (PathPoint F))
      → NoStopsInARow prev (without_repeated_stops db prev points)
  unfolding without_repeated_stops
  without_repeated_stops-NoStopsInARow prev [] = tt
  without_repeated_stops-NoStopsInARow prev (p ∷ points) =
      go (is_stop db p) prev refl (without_repeated_stops db (is_stop db p) points)
        (without_repeated_stops-NoStopsInARow (is_stop db p) points)
    where
      go :
          (stop before : Bool)
          → is_stop db p ≡ stop
          → (rest : List (PathPoint F)) → NoStopsInARow stop rest
          → NoStopsInARow before (if not (stop && before) then p ∷ rest else rest)
      go true true e rest h = h
      go true false e rest h = (rw e refl, rw e h)
      go false before e rest h = (rw e refl, rw e h)

  pub NoStopsInARow-take :
      (n : ℕ) (prev : Bool) (points : List (PathPoint F))
      → NoStopsInARow prev points
      → NoStopsInARow prev (take n points)
  NoStopsInARow-take zero prev points h = tt
  NoStopsInARow-take (suc n) prev [] h = tt
  NoStopsInARow-take (suc n) prev (p ∷ points) (alone, rest) =
      (alone, NoStopsInARow-take n (is_stop db p) points rest)

  pub moving-without_repeated_stops :
      (p : PathPoint F) (prev : Bool) (points : List (PathPoint F))
      → db.is_zero p.speed ≡ false
      → Memᴰ p points
      → Memᴰ p (without_repeated_stops db prev points)
  unfolding without_repeated_stops
  moving-without_repeated_stops p prev [] moves m = elim m [ ]
  moving-without_repeated_stops p prev (q ∷ points) moves (head e) =
      rw (ap (λ (x : PathPoint F). db.is_zero x.speed) (sym e) ∙ moves) (head e)
  moving-without_repeated_stops p prev (q ∷ points) moves (tail m) =
      go (not (is_stop db q && prev))
        (moving-without_repeated_stops p (is_stop db q) points moves m)
    where
      go :
          (kept : Bool)
          → Memᴰ p (without_repeated_stops db (is_stop db q) points)
          → Memᴰ p (
              if kept
              then q ∷ without_repeated_stops db (is_stop db q) points
              else without_repeated_stops db (is_stop db q) points)
      go true m = tail m
      go false m = m

  -- A stop among the points, or one right before them, leaves a stop.
  pub stop-without_repeated_stops :
      (p : PathPoint F) (prev : Bool) (points : List (PathPoint F))
      → is_stop db p ≡ true
      → Memᴰ p points
      → (prev ≡ true)
        ⊎ ((q : PathPoint F) × Memᴰ q (without_repeated_stops db prev points)
            × (is_stop db q ≡ true))
  unfolding without_repeated_stops
  stop-without_repeated_stops p prev [] stops m = elim m [ ]
  stop-without_repeated_stops p prev (q ∷ points) stops (head e) = elim (Bool-cases prev) [
    | inl before ↦ inl before
    | inr first ↦
        let q_stops : is_stop db q ≡ true = ap (is_stop db) (sym e) ∙ stops in
        inr (q, rw q_stops (rw first (head refl)), q_stops)
  ]
  stop-without_repeated_stops p prev (q ∷ points) stops (tail m) =
      elim (stop-without_repeated_stops p (is_stop db q) points stops m) [
        | inr (s, among, s_stops) ↦ inr (s, by_kept (not (is_stop db q && prev)) s among, s_stops)
        | inl q_stops ↦ elim (Bool-cases prev) [
          | inl before ↦ inl before
          | inr first ↦ inr (q, rw q_stops (rw first (head refl)), q_stops)
        ]
      ]
    where
      by_kept :
          (kept : Bool) (s : PathPoint F)
          → Memᴰ s (without_repeated_stops db (is_stop db q) points)
          → Memᴰ s (
              if kept
              then q ∷ without_repeated_stops db (is_stop db q) points
              else without_repeated_stops db (is_stop db q) points)
      by_kept true s among = tail among
      by_kept false s among = among

  pub All-without_repeated_stops :
      (P : PathPoint F → Type 0) (prev : Bool) (points : List (PathPoint F))
      → All P points
      → All P (without_repeated_stops db prev points)
  unfolding without_repeated_stops
  All-without_repeated_stops P prev [] h = tt
  All-without_repeated_stops P prev (p ∷ points) (h, hs) =
      go (not (is_stop db p && prev)) (All-without_repeated_stops P (is_stop db p) points hs)
    where
      go :
          (kept : Bool)
          → All P (without_repeated_stops db (is_stop db p) points)
          → All P (
              if kept
              then p ∷ without_repeated_stops db (is_stop db p) points
              else without_repeated_stops db (is_stop db p) points)
      go true rest = (h, rest)
      go false rest = rest
