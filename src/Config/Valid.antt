-- ===== src/Config/Valid.antt =====
-- internal/config/config.go: which configurations the server starts with.
use gps_data_receiver.Prelude.{
  ◌==◌, ◌≡◌, ◌⊎◌, inl, inr, refl, List, [], ◌∷◌, Bool, Bool-cases, true, false, not, ◌&&◌, ◌||◌,
  length, arith, All, trim_space, ap, ◌∙◌, codes,
}
use gps_data_receiver.Prelude.Int.{ℤ, pos, negsuc}
use gps_data_receiver.Prelude.Result.{Result, ok, err}
use gps_data_receiver.Parser.Data.{Bytes}
use gps_data_receiver.Config.Data.{
  Config, ConfigError, destination_servers_missing, auth_token_missing, url_missing,
}
use gps_data_receiver.Config.{
  is_empty, positive, exceeds, read_config, bound_workers, validate, load,
}
use gps_data_receiver.Parser.Hooshnic.Items.{split}
use gps_data_receiver.Config.Values.{Environment, trimmed_parts, get_slice}

exceeds_irreflexive : (n : ℤ) → exceeds n n ≡ false
unfolding exceeds
exceeds_irreflexive (pos n) = ground arith
exceeds_irreflexive (negsuc n) = ground arith

and_false : (b : Bool) → (b && false) ≡ false
and_false true = refl
and_false false = refl

module _ {F : Type 0} where
  -- The mirror, if it is on, has a token and somewhere to send to.
  abbrev pub has_mirror_target : Config F → Bool
  has_mirror_target c =
      not (c.hooshnics).enabled
      || not (is_empty (c.hooshnics).auth_token)
        && (not (is_empty (c.hooshnics).raw_url) || not (is_empty (c.hooshnics).parsed_url))

  abbrev pub may_start : Config F → Bool
  may_start c = not (length (c.http).destination_servers == 0) && has_mirror_target c

  abbrev pub IsValid : Config F → Type 0
  IsValid c =
      (may_start c ≡ true)
      × All (λ (s : Bytes). is_empty s ≡ false) (c.http).destination_servers
      × ((positive (c.outgoing_rate_limit).requests_per_second
            && exceeds (c.worker).count (c.outgoing_rate_limit).requests_per_second)
          ≡ false)

module _ {F : Type 0} (env : Environment F) where
  trimmed_parts-nonempty :
      (parts : List Bytes) → All (λ (s : Bytes). is_empty s ≡ false) (trimmed_parts env parts)
  unfolding trimmed_parts
  trimmed_parts-nonempty [] = tt
  trimmed_parts-nonempty (part ∷ parts) = elim (Bool-cases (length (trim_space part) == 0)) [
    | inl blank ↦ rw blank (trimmed_parts-nonempty parts)
    | inr there ↦ rw there (there, trimmed_parts-nonempty parts)
  ]

  get_slice-nonempty :
      (key : Bytes) → All (λ (s : Bytes). is_empty s ≡ false) (get_slice env key [])
  unfolding get_slice
  get_slice-nonempty key = elim (Bool-cases (length (env.getenv key) == 0)) [
    | inl missing ↦ rw missing tt
    | inr there ↦ rw there (trimmed_parts-nonempty (split b',' (env.getenv key)))
  ]

  bound_workers-IsValid :
      (c : Config F)
      → may_start c ≡ true
      → All (λ (s : Bytes). is_empty s ≡ false) (c.http).destination_servers
      → IsValid (bound_workers env c)
  unfolding bound_workers
  bound_workers-IsValid c starts named =
      let rate = (c.outgoing_rate_limit).requests_per_second in
      elim (Bool-cases (positive rate && exceeds (c.worker).count rate)) [
        | inl too_many ↦ rw too_many (
          starts,
          named,
          ap (λ (b : Bool). positive rate && b) (exceeds_irreflexive rate)
              ∙ and_false (positive rate),
        )
        | inr few ↦ rw few (starts, named, few)
      ]

  abbrev pub Decided : Config F → Result ConfigError (Config F) → Type 0
  Decided c result =
      ((v : Config F) × (result ≡ ok v) × (v ≡ bound_workers env c) × IsValid v)
      ⊎ ((e : ConfigError) × (result ≡ err e) × (may_start c ≡ false))

  validate-Decided :
      (c : Config F)
      → All (λ (s : Bytes). is_empty s ≡ false) (c.http).destination_servers
      → Decided c (validate env c)
  unfolding validate
  validate-Decided c named = elim (Bool-cases (length (c.http).destination_servers == 0)) [
    | inl none ↦ inr (destination_servers_missing, rw (validate, none) refl, rw none refl)
    | inr some ↦ elim (Bool-cases (c.hooshnics).enabled) [
      | inr off ↦ inl (
        bound_workers env c,
        rw (validate, some) (rw off refl),
        refl,
        bound_workers-IsValid c (rw some (rw off refl)) named,
      )
      | inl on ↦ elim (Bool-cases (is_empty (c.hooshnics).auth_token)) [
        | inl no_token ↦ inr (
          auth_token_missing,
          rw (validate, some) (rw on (rw no_token refl)),
          rw some (rw on (rw no_token refl)),
        )
        | inr token ↦ elim (Bool-cases (is_empty (c.hooshnics).raw_url)) [
          | inr raw ↦ inl (
            bound_workers env c,
            rw (validate, some) (rw on (rw token (rw raw refl))),
            refl,
            bound_workers-IsValid c (rw some (rw on (rw token (rw raw refl)))) named,
          )
          | inl no_raw ↦ elim (Bool-cases (is_empty (c.hooshnics).parsed_url)) [
            | inr parsed ↦ inl (
              bound_workers env c,
              rw (validate, some) (rw on (rw token (rw no_raw (rw parsed refl)))),
              refl,
              bound_workers-IsValid c (rw some (rw on (rw token (rw no_raw (rw parsed refl)))))
                  named,
            )
            | inl no_parsed ↦ inr (
              url_missing,
              rw (validate, some) (rw on (rw token (rw no_raw (rw no_parsed refl)))),
              rw some (rw on (rw token (rw no_raw (rw no_parsed refl)))),
            )
          ]
        ]
      ]
    ]
  ]

  -- Load gives a configuration exactly when the environment names a destination server and, if the
  -- mirror is on, a token and one of the two addresses for it; the configuration is then what was
  -- read, except that there are no more workers than a positive outgoing rate allows, and no
  -- destination server is an empty text.
  pub load-Decided : Decided (read_config env) (load env)
  unfolding load read_config
  load-Decided =
      validate-Decided (read_config env) (get_slice-nonempty (codes "DESTINATION_SERVERS"))
