-- ===== src/Apps/Main/Range.antt =====
-- The range of the options that apps/novacache-server.cpp starts the server with.
use distributed_data_store.Prelude.{
  ℕ, subst, ◌*◌, ◌^◌, ◌<◌, ◌≤◌, ◌≡◌, refl, Option, none, some, List, [], ◌∷◌, Bytes, ltb, leb,
  arith, Bool-cases, inl, inr, ◌⊎◌,
}
use distributed_data_store.Protocol.Decimal.{unsigned_value}
use distributed_data_store.Persistence.Engine.{FsyncMode}
use distributed_data_store.Apps.Cli.{below}
use distributed_data_store.Apps.Main
use distributed_data_store.Apps.Main.{
  Options, Flag, version_flag, host_flag, port_flag, workers_flag, data_dir_flag, fsync_flag,
  interval_flag, unknown_flag, flag_of, Action, show_version, show_usage, bad_value, serve,
  no_value, takes_value, set_option, set_port, set_workers, set_fsync, set_interval, parse_size,
  parse_fsync, read_options,
}

-- `port` fits std::uint16_t, `workers` std::size_t, and the interval is a year at most and so fits an
-- int; the engine is used if there is a directory for it.
pub record IsValid (options : Options) : Type 0 where
  pub port_fits : options.port < 2 ^ 16
  pub workers_fit : options.workers < 2 ^ 64
  pub interval_fits : options.snapshot_interval_seconds ≤ 31_536_000

abbrev pub AllValid : Action → Type 0
AllValid (serve options) = IsValid options
AllValid action = Unit

abbrev IfValid : Option Options → Type 0
IfValid none = Unit
IfValid (some options) = IsValid options

abbrev Below : ℕ → Option ℕ → Type 0
Below limit none = Unit
Below limit (some n) = n < limit

below-Below : (limit : ℕ) (x : Option ℕ) → Below limit (below limit x)
below-Below limit none = tt
below-Below limit (some n) = elim (Bool-cases (ltb n limit)) [
  | inl h ↦ rw h (ground (arith, h))
  | inr h ↦ rw h tt
]

set_port-IfValid :
    (options : Options) (x : Option ℕ)
    → Below 65_536 x
    → IsValid options
    → IfValid (set_port options x)
set_port-IfValid options none h valid = tt
set_port-IfValid options (some port) h valid = record {
  port_fits = omega (arith, h);
  workers_fit = valid.workers_fit;
  interval_fits = valid.interval_fits;
}

set_workers-IfValid :
    (options : Options) (x : Option ℕ)
    → Below (2 ^ 64) x
    → IsValid options
    → IfValid (set_workers options x)
set_workers-IfValid options none h valid = tt
set_workers-IfValid options (some workers) h valid = record {
  port_fits = valid.port_fits;
  workers_fit = h;
  interval_fits = valid.interval_fits;
}

set_fsync-IfValid :
    (options : Options) (x : Option FsyncMode) → IsValid options → IfValid (set_fsync options x)
set_fsync-IfValid options none valid = tt
set_fsync-IfValid options (some mode) valid = record {
  port_fits = valid.port_fits;
  workers_fit = valid.workers_fit;
  interval_fits = valid.interval_fits;
}

set_interval-IfValid :
    (options : Options) (x : Option ℕ) → IsValid options → IfValid (set_interval options x)
set_interval-IfValid options none valid = tt
set_interval-IfValid options (some interval) valid =
    elim (Bool-cases (leb interval (86_400 * 365))) [
      | inl h ↦ rw h (record {
        port_fits = valid.port_fits;
        workers_fit = valid.workers_fit;
        interval_fits = ground (arith, h);
      })
      | inr h ↦ rw h tt
    ]

set_option-IfValid :
    (flag : Flag) (value : Bytes) (options : Options)
    → IsValid options
    → IfValid (set_option flag value options)
unfolding set_option parse_size Main.parse_port
set_option-IfValid host_flag value options valid = record {
  port_fits = valid.port_fits;
  workers_fit = valid.workers_fit;
  interval_fits = valid.interval_fits;
}
set_option-IfValid port_flag value options valid =
    set_port-IfValid options (Main.parse_port value) (below-Below 65_536 (unsigned_value value))
      valid
set_option-IfValid workers_flag value options valid =
    set_workers-IfValid options (parse_size value) (below-Below (2 ^ 64) (unsigned_value value))
      valid
set_option-IfValid data_dir_flag value options valid = record {
  port_fits = valid.port_fits;
  workers_fit = valid.workers_fit;
  interval_fits = valid.interval_fits;
}
set_option-IfValid fsync_flag value options valid =
    set_fsync-IfValid options (parse_fsync value) valid
set_option-IfValid interval_flag value options valid =
    set_interval-IfValid options (parse_size value) valid
set_option-IfValid version_flag value options valid = valid
set_option-IfValid unknown_flag value options valid = valid

no_value-AllValid : (flag : Flag) → AllValid (no_value flag)
no_value-AllValid version_flag = tt
no_value-AllValid host_flag = tt
no_value-AllValid port_flag = tt
no_value-AllValid workers_flag = tt
no_value-AllValid data_dir_flag = tt
no_value-AllValid fsync_flag = tt
no_value-AllValid interval_flag = tt
no_value-AllValid unknown_flag = tt

Option-cases {ℓ} : {A : Type ℓ} (x : Option A) → (x ≡ none) ⊎ ((a : A) × (x ≡ some a))
Option-cases none = inl refl
Option-cases (some a) = inr (a, refl)

-- If the options are in range, with a port below 2^16, a number of workers below 2^64 and a
-- snapshot interval of a year at most, so are those that the server starts with, whatever the
-- arguments.
pub read_options-AllValid :
    (arguments : List Bytes) (options : Options)
    → IsValid options
    → AllValid (read_options arguments options)
unfolding read_options
read_options-AllValid [] options valid = valid
read_options-AllValid (argument ∷ []) options valid = no_value-AllValid (flag_of argument)
read_options-AllValid (argument ∷ value ∷ rest) options valid =
    elim (Bool-cases (takes_value (flag_of argument))) [
      | inr alone ↦ rw (read_options, alone) (no_value-AllValid (flag_of argument))
      | inl valued ↦ elim (Option-cases (set_option (flag_of argument) value options)) [
        | inl bad ↦ rw (read_options, valued, bad) tt
        | inr (options', good) ↦
            let valid' =
              subst IfValid good (set_option-IfValid (flag_of argument) value options valid) in
            rw (read_options, valued, good) (read_options-AllValid rest options' valid')
      ]
    ]
