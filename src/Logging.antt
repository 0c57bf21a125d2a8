-- ===== src/Logging.antt =====
-- include/deribit/logging.h: the global logger. spdlog is a record of the functions that the source
-- calls; `fmt` has done its work on the texts.
use hft_deribit.Prelude.{
  ℕ, ◌<◌, ◌≤◌, ◌≡◌, refl, ◌∙◌, arith, Bool, true, List, [], ◌∷◌, ◌++◌, Option, none, some, Text,
  codes, leb, ◌==◌, if◌then◌else◌,
}

pub data LogLevel : Type 0 where
  debug info strategy warning error critical : LogLevel

-- The levels, sinks and loggers of spdlog. `write` is a call of `debug`, `info` and so on.
pub record Spdlog : Type 1 where
  pub Level : Type 0
  pub spd_debug : Level
  pub spd_info : Level
  pub spd_warn : Level
  pub spd_err : Level
  pub spd_critical : Level
  pub Sink : Type 0
  -- a coloured console and a file; the flag is that of `basic_file_sink_mt`, to truncate the file
  pub console_sink : Sink
  pub file_sink : Text → Bool → Sink
  pub set_pattern : Sink → Text → Sink
  pub Logger : Type 0
  pub make_logger : Text → List Sink → Logger
  pub set_level : Logger → Level → Logger
  pub write : Logger → Level → Text → Logger

module _ (spd : Spdlog) where
  open spd use {Level, Logger}

  unfoldable pub to_spd : LogLevel → Level
  to_spd debug = spd.spd_debug
  to_spd info = spd.spd_info
  to_spd warning = spd.spd_warn
  to_spd error = spd.spd_err
  to_spd critical = spd.spd_critical
  to_spd strategy = spd.spd_info

  -- The global logger afterwards. It is also spdlog's default logger.
  unfoldable pub init_logging : Text → Option Logger
  init_logging filename =
      let console = spd.set_pattern spd.console_sink (codes "[%H:%M:%S.%e] [T%t] [%^%l%$] %v") in
      let file =
        spd.set_pattern (spd.file_sink filename true)
          (codes "[%Y-%m-%d %H:%M:%S.%e] [T%t] [%l] %v") in
      some (spd.set_level (spd.make_logger (codes "deribit") (console ∷ file ∷ [])) spd.spd_debug)

  -- `set_log_level` sets the same level twice: the global logger is spdlog's default logger.
  unfoldable pub set_log_level : Option Logger → LogLevel → Option Logger
  set_log_level none lvl = none
  set_log_level (some l) lvl = some (spd.set_level (spd.set_level l (to_spd lvl)) (to_spd lvl))

  -- The macros, by the level in their names; `none` is the use of a null pointer.
  unfoldable pub log : Option Logger → LogLevel → Text → Option Logger
  log none lvl msg = none
  log (some l) strategy msg = some (spd.write l (to_spd strategy) (codes "[STRATEGY] " ++ msg))
  log (some l) lvl msg = some (spd.write l (to_spd lvl) msg)

  unfoldable pub log_timer : Option Logger → Text → Option Logger
  log_timer none msg = none
  log_timer (some l) msg = some (spd.write l (to_spd info) (codes "[TIMER] " ++ msg))

  -- What spdlog documents: levels are ordered, and a logger writes a message if its level is at
  -- least the logger's, which is the last one set.
  pub record IsFiltering : Type 0 where
    pub severity : Level → ℕ
    pub writes : Logger → Level → Bool
    pub debug-info : severity spd.spd_debug < severity spd.spd_info
    pub info-warn : severity spd.spd_info < severity spd.spd_warn
    pub warn-err : severity spd.spd_warn < severity spd.spd_err
    pub err-critical : severity spd.spd_err < severity spd.spd_critical
    pub writes-set_level :
        (l : Logger) (set asked : Level)
        → writes (spd.set_level l set) asked ≡ leb (severity set) (severity asked)

-- The order in which the comment of `LogLevel` lists them, `strategy` with `info`.
abbrev pub order : LogLevel → ℕ
order debug = 0
order info = 1
order strategy = 1
order warning = 2
order error = 3
order critical = 4

module _ (spd : Spdlog) (f : IsFiltering spd) where
  severity_at : ℕ → ℕ
  severity_at k =
      if k == 0
      then f.severity spd.spd_debug
      else if k == 1
      then f.severity spd.spd_info
      else if k == 2
      then f.severity spd.spd_warn
      else if k == 3
      then f.severity spd.spd_err
      else f.severity spd.spd_critical

  severity_at-order :
      (a : LogLevel) → (f.severity (to_spd spd a) ≡ severity_at (order a)) × (order a ≤ 4)
  unfolding to_spd severity_at
  severity_at-order debug = (refl, omega arith)
  severity_at-order info = (refl, omega arith)
  severity_at-order strategy = (refl, omega arith)
  severity_at-order warning = (refl, omega arith)
  severity_at-order error = (refl, omega arith)
  severity_at-order critical = (refl, omega arith)

  severity_at-leb : (m n : ℕ) → m ≤ 4 → n ≤ 4 → leb (severity_at m) (severity_at n) ≡ leb m n
  unfolding severity_at
  severity_at-leb m n hm hn = ground (arith, f.debug-info, f.info-warn, f.warn-err, f.err-critical)

  severity-order :
      (a b : LogLevel)
      → leb (f.severity (to_spd spd a)) (f.severity (to_spd spd b)) ≡ leb (order a) (order b)
  severity-order a b =
      rw ((severity_at-order a).0, (severity_at-order b).0)
        (severity_at-leb (order a) (order b) (severity_at-order a).1 (severity_at-order b).1)

  -- If spdlog filters as it documents: once the logger was initialized and the level was set, a
  -- message is written exactly if its level stands at or behind the level set in the order debug,
  -- info, warning, error, critical, where strategy counts as info.
  set_log_level_filters :
      (filename : Text) (lvl asked : LogLevel)
      → (l : spd.Logger) × (set_log_level spd (init_logging spd filename) lvl ≡ some l)
        × (f.writes l (to_spd spd asked) ≡ leb (order lvl) (order asked))
  unfolding set_log_level init_logging
  set_log_level_filters filename lvl asked =
      (_, refl, f.writes-set_level _ (to_spd spd lvl) (to_spd spd asked) ∙ severity-order lvl asked)
