-- ===== src/Apps/Main.antt =====
-- apps/novacache-server.cpp: the arguments of the server.
pub mod Range
use distributed_data_store.Prelude.{
  ℕ, zero, suc, ◌*◌, ◌^◌, Bool, true, false, ◌||◌, Option, none, some, List, [], ◌∷◌, Bytes, text,
  leb, if◌then◌else◌, eqb,
}
use distributed_data_store.Protocol.Decimal.{unsigned_value}
use distributed_data_store.Persistence.Engine.{FsyncMode, always, everysec, never}
use distributed_data_store.Apps.Cli.{below}

unfoldable pub parse_port : Bytes → Option ℕ
parse_port bytes = below 65_536 (unsigned_value bytes)

unfoldable pub parse_size : Bytes → Option ℕ
parse_size bytes = below (2 ^ 64) (unsigned_value bytes)

unfoldable pub parse_fsync : Bytes → Option FsyncMode
parse_fsync bytes =
    if eqb bytes (text "always")
    then some always
    else if eqb bytes (text "everysec")
    then some everysec
    else if eqb bytes (text "none")
    then some never
    else none

-- The fields of ServerConfig that main sets.
pub record Options : Type 0 where
  pub host : Bytes
  pub port : ℕ
  pub workers : ℕ
  pub persistence_enabled : Bool
  pub data_dir : Bytes
  pub fsync : FsyncMode
  pub snapshot_interval_seconds : ℕ

unfoldable pub default_options : Options
default_options = record {
  host = text "127.0.0.1";
  port = 6_379;
  workers = 0;
  persistence_enabled = false;
  data_dir = [];
  fsync = everysec;
  snapshot_interval_seconds = 300;
}

pub data Flag : Type 0 where
  version_flag host_flag port_flag workers_flag data_dir_flag fsync_flag interval_flag
        unknown_flag :
      Flag

unfoldable pub flag_of : Bytes → Flag
flag_of argument =
    if eqb argument (text "--version")
    then version_flag
    else if eqb argument (text "-h") || eqb argument (text "--host")
    then host_flag
    else if eqb argument (text "-p") || eqb argument (text "--port")
    then port_flag
    else if eqb argument (text "--workers")
    then workers_flag
    else if eqb argument (text "--data-dir")
    then data_dir_flag
    else if eqb argument (text "--fsync")
    then fsync_flag
    else if eqb argument (text "--snapshot-interval")
    then interval_flag
    else unknown_flag

-- What main does next. A bad value is reported, all else but `serve` shows what is asked for or how to
-- call the program.
pub data Action : Type 0 where
  show_version show_usage : Action
  bad_value : Flag → Action
  serve : Options → Action

abbrev no_value : Flag → Action
no_value version_flag = show_version
no_value flag = show_usage

abbrev set_port : Options → Option ℕ → Option Options
set_port options none = none
set_port options (some port) = some (record options { port = port })

abbrev set_workers : Options → Option ℕ → Option Options
set_workers options none = none
set_workers options (some workers) = some (record options { workers = workers })

abbrev set_fsync : Options → Option FsyncMode → Option Options
set_fsync options none = none
set_fsync options (some mode) = some (record options { fsync = mode })

-- At most 365 days.
abbrev set_interval : Options → Option ℕ → Option Options
set_interval options none = none
set_interval options (some interval) =
    if leb interval (86_400 * 365)
    then some (record options { snapshot_interval_seconds = interval })
    else none

-- `none` is a bad value.
unfoldable pub set_option : Flag → Bytes → Options → Option Options
set_option host_flag value options = some (record options { host = value })
set_option port_flag value options = set_port options (parse_port value)
set_option workers_flag value options = set_workers options (parse_size value)
set_option data_dir_flag value options =
    some (record options { data_dir = value; persistence_enabled = true })
set_option fsync_flag value options = set_fsync options (parse_fsync value)
set_option interval_flag value options = set_interval options (parse_size value)
set_option flag value options = some options

abbrev takes_value : Flag → Bool
takes_value version_flag = false
takes_value unknown_flag = false
takes_value flag = true

-- The loop of main.
unfoldable pub read_options : List Bytes → Options → Action
read_options [] options = serve options
read_options (argument ∷ []) options = no_value (flag_of argument)
read_options (argument ∷ value ∷ rest) options = elim (takes_value (flag_of argument)) [
  | false ↦ no_value (flag_of argument)
  | true ↦ elim (set_option (flag_of argument) value options) [
    | none ↦ bad_value (flag_of argument)
    | some options' ↦ read_options rest options'
  ]
]
