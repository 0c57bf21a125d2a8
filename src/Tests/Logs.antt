-- ===== src/Tests/Logs.antt =====
-- The logger, with numbers for spdlog's levels and a level and lines for a logger.
use hft_deribit.Prelude.{
  ℕ, ◌≡◌, refl, arith, List, [], ◌∷◌, ◌++◌, some, none, Text, codes, leb, if◌then◌else◌,
}
use hft_deribit.Logging.{
  debug, strategy, error, Spdlog, to_spd, init_logging, set_log_level, log, log_timer, IsFiltering,
}

pub record Kept : Type 0 where
  pub level : ℕ
  pub lines : List Text

abbrev keeper : Spdlog
keeper = record {
  Level = ℕ;
  spd_debug = 1;
  spd_info = 2;
  spd_warn = 3;
  spd_err = 4;
  spd_critical = 5;
  Sink = Text;
  console_sink = [];
  file_sink = λ filename _. filename;
  set_pattern = λ sink _. sink;
  Logger = Kept;
  make_logger = λ _ _. record { level = 2; lines = [] };
  set_level = λ l level. record l { level = level };
  write = λ l level msg. if leb l.level level then record l { lines = l.lines ++ msg ∷ [] } else l;
}

abbrev filtering : IsFiltering keeper
filtering = record {
  severity = λ level. level;
  writes = λ l level. leb l.level level;
  debug-info = omega arith;
  info-warn = omega arith;
  warn-err = omega arith;
  err-critical = omega arith;
  writes-set_level = λ l set asked. refl;
}

-- A strategy message is not written from `warning` on, and is tagged before.
strategy_lines :
    log keeper (init_logging keeper (codes "deribit.log")) strategy (codes "buy")
    ≡ some (record { level = 1; lines = codes "[STRATEGY] buy" ∷ [] })
unfolding log init_logging to_spd
strategy_lines = refl

-- Without a logger the level is ignored, and a message uses a null pointer.
no_logger :
    (set_log_level keeper none debug ≡ none)
    × (log keeper none error (codes "x") ≡ none)
    × (log_timer keeper none (codes "x") ≡ none)
unfolding set_log_level log log_timer
no_logger = (refl, refl, refl)
