-- ===== src/Log/Tests.antt =====
-- Runs of common/log/log.cpp.
use drachma_block_chain.Common.{List, [], ◌∷◌, ◌++◌, true, ok, ◌≡◌, ◌≢◌, refl, codes}
use drachma_block_chain.Log.{
  warn, rank, to_string, opened, failed, LogState, new_log, LogHost, open_file, set_file,
  write_line, write, log_line,
}
use drachma_block_chain.Log.Files.{LogCall, sets_file, writes, run_calls, second_set_file_silences}

abbrev host : LogHost
host = record {
  parent_path = λ path. codes "/var";
  create_directories = λ path. ok tt;
  opens = λ path. true;
}

abbrev open_state : LogState
open_state = record new_log { file = opened (codes "/var/a") }

abbrev silent_state : LogState
silent_state = record new_log { file = failed (codes "/var/a") }

abbrev later_calls : List LogCall
later_calls =
    writes [] [] [] warn (codes "x")
    ∷ sets_file host (codes "/var/c")
    ∷ writes [] [] [] warn (codes "y")
    ∷ []

line_written :
    (write (codes "12:00") (codes "7") (codes "1") warn (codes "low") open_state).written
    ≡ (codes "/var/a", codes "12:00 [WARN] (7:1) low" ++ 10 ∷ []) ∷ []
unfolding write rank write_line log_line to_string
line_written = refl

second_set_file_silences_example : (run_calls later_calls silent_state).written ≡ open_state.written
unfolding set_file open_file
second_set_file_silences_example =
    second_set_file_silences host (codes "/var/a") (codes "/var/b") open_state silent_state
      later_calls refl named refl
  where
    named : codes "/var/b" ≢ []
    named same = cc
