-- ===== src/Log.antt =====
-- common/log/log.cpp. A call is atomic, as each holds `g_lock`. The file system, the clock and the numbers of
-- the process and of the thread are parameters; what is written is kept in lists.
pub mod Files
mod Tests
use drachma_block_chain.Common.{
  ℕ, List, [], ◌∷◌, ◌++◌, Bool, true, false, ltb, if◌then◌else◌, Result, ok, err, ◌>>=◌, codes,
}

-- `DEBUG`, `INFO`, `WARN`, `ERROR`
pub data Level : Type 0 where
  debug info warn error : Level

unfoldable pub rank : Level → ℕ
rank debug = 0
rank info = 1
rank warn = 2
rank error = 3

-- `ToString`
unfoldable pub to_string : Level → List ℕ
to_string debug = codes "DEBUG"
to_string info = codes "INFO"
to_string warn = codes "WARN"
to_string error = codes "ERROR"

-- `g_file`: closed, open on a path, or open on a path with its `failbit` set, as by an `open` that fails
-- since the file is open already.
pub data LogFile : Type 0 where
  closed : LogFile
  opened failed : List ℕ → LogFile

-- The globals, and what has been written: the lines on `std::cerr`, and those in files, with their paths.
pub record LogState : Type 0 where
  pub level : Level
  pub file : LogFile
  pub printed : List (List ℕ)
  pub written : List (List ℕ × List ℕ)

abbrev pub new_log : LogState
new_log = record { level = info; file = closed; printed = []; written = [] }

-- The file system: the directory of a path, the creation of directories, which may throw, and whether a
-- file opens.
pub record LogHost : Type 0 where
  pub parent_path : List ℕ → List ℕ
  pub create_directories : List ℕ → Result (Unit {0})
  pub opens : List ℕ → Bool

-- `SetLevel`
unfoldable pub set_level : Level → LogState → LogState
set_level level state = record state { level = level }

-- `g_file.open(path, std::ios::app)`
unfoldable pub open_file : LogHost → List ℕ → LogFile → LogFile
open_file host path closed = if host.opens path then opened path else closed
open_file host path (opened old) = failed old
open_file host path (failed old) = failed old

-- `SetFile`
unfoldable pub set_file : LogHost → List ℕ → LogState → Result LogState
set_file host [] state = ok state
set_file host (c ∷ path) state = do
  created ← host.create_directories (host.parent_path (c ∷ path))
  ok (record state { file = open_file host (c ∷ path) state.file })

-- `if (g_file.is_open()) g_file << line;`
unfoldable pub write_line : LogFile → List ℕ → List (List ℕ × List ℕ) → List (List ℕ × List ℕ)
write_line closed line written = written
write_line (opened path) line written = written ++ (path, line) ∷ []
write_line (failed path) line written = written

-- The line, from the clock and the two numbers as they are printed.
unfoldable pub log_line : List ℕ → List ℕ → List ℕ → Level → List ℕ → List ℕ
log_line now pid thread level msg =
    now
    ++ (codes " ["
        ++ (to_string level
            ++ (codes "] ("
                ++ (pid ++ (codes ":" ++ (thread ++ (codes ") " ++ (msg ++ 10 ∷ []))))))))

-- `Write`
unfoldable pub write : List ℕ → List ℕ → List ℕ → Level → List ℕ → LogState → LogState
write now pid thread level msg state =
    let line = log_line now pid thread level msg in
    if ltb (rank level) (rank state.level) then state else record state {
      printed = state.printed ++ line ∷ [];
      written = write_line state.file line state.written;
    }
