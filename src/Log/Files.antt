-- ===== src/Log/Files.antt =====
-- What common/log/log.cpp writes into files.
use drachma_block_chain.Common.{
  ℕ, List, [], ◌∷◌, ◌++◌, Bool, true, false, ltb, if◌then◌else◌, Result, ok, err, ◌>>=◌, ◌≡◌, ◌≢◌,
  refl, ap, ◌∙◌, >>=-eq-ok, ok-injective,
}
use mathlib.Core.Path.{subst}
use drachma_block_chain.Log.{
  Level, rank, opened, failed, LogState, LogHost, set_level, open_file, set_file, write_line, write,
  log_line,
}

-- The calls of the module; one of `SetFile` that throws leaves the state as it is.
pub data LogCall : Type 0 where
  sets_level : Level → LogCall
  sets_file : LogHost → List ℕ → LogCall
  writes : List ℕ → List ℕ → List ℕ → Level → List ℕ → LogCall

abbrev after_file : Result LogState → LogState → LogState
after_file (ok next) state = next
after_file (err thrown) state = state

unfoldable pub run_call : LogCall → LogState → LogState
run_call (sets_level level) state = set_level level state
run_call (sets_file host path) state = after_file (set_file host path state) state
run_call (writes now pid thread level msg) state = write now pid thread level msg state

unfoldable pub run_calls : List LogCall → LogState → LogState
run_calls [] state = state
run_calls (call ∷ calls) state = run_calls calls (run_call call state)

-- Nothing reaches a file any more.
IsSilent : List ℕ → LogState → LogState → Type 0
IsSilent old before state = (state.file ≡ failed old) × (state.written ≡ before.written)

set_file-IsSilent :
    (old : List ℕ) (before : LogState) (host : LogHost) (path : List ℕ) (state : LogState)
    (made : Result (Unit {0}))
    → IsSilent old before state
    → IsSilent old before (
        after_file
          (made >>= λ created. ok (record state { file = open_file host path state.file }))
          state)
unfolding IsSilent open_file
set_file-IsSilent old before host path state (err thrown) h = h
set_file-IsSilent old before host path state (ok created) h = (ap (open_file host path) h.0, h.1)

write-IsSilent :
    (old : List ℕ) (before : LogState) (line : List ℕ) (state : LogState) (below : Bool)
    → IsSilent old before state
    → IsSilent old before (
        if below then state else record state {
          printed = state.printed ++ line ∷ [];
          written = write_line state.file line state.written;
        })
unfolding IsSilent write_line
write-IsSilent old before line state true h = h
write-IsSilent old before line state false h =
    (h.0, ap (λ f. write_line f line state.written) h.0 ∙ h.1)

run_call-IsSilent :
    (old : List ℕ) (before : LogState) (call : LogCall) (state : LogState)
    → IsSilent old before state
    → IsSilent old before (run_call call state)
unfolding IsSilent run_call set_level set_file write
run_call-IsSilent old before (sets_level level) state h = h
run_call-IsSilent old before (sets_file host []) state h = h
run_call-IsSilent old before (sets_file host (c ∷ path)) state h =
    set_file-IsSilent old before host (c ∷ path) state
      (host.create_directories (host.parent_path (c ∷ path))) h
run_call-IsSilent old before (writes now pid thread level msg) state h =
    write-IsSilent old before (log_line now pid thread level msg) state
      (ltb (rank level) (rank state.level)) h

run_calls-IsSilent :
    (old : List ℕ) (before : LogState) (calls : List LogCall) (state : LogState)
    → IsSilent old before state
    → IsSilent old before (run_calls calls state)
unfolding run_calls
run_calls-IsSilent old before [] state h = h
run_calls-IsSilent old before (call ∷ calls) state h =
    run_calls-IsSilent old before calls (run_call call state)
      (run_call-IsSilent old before call state h)

-- A second SetFile ends the log in files: when a file is open and SetFile returns for a path that is not
-- empty, then whatever is called afterwards, no line is written to any file.
pub second_set_file_silences :
    (host : LogHost) (old path : List ℕ) (state next : LogState) (calls : List LogCall)
    → state.file ≡ opened old
    → path ≢ []
    → set_file host path state ≡ ok next
    → (run_calls calls next).written ≡ state.written
unfolding IsSilent set_file open_file
second_set_file_silences host old [] state next calls e named set = absurd (named refl)
second_set_file_silences host old (c ∷ path) state next calls e named set =
    let (created, made, same) =
      >>=-eq-ok (host.create_directories (host.parent_path (c ∷ path))) _ set in
    let opened_twice = record state { file = open_file host (c ∷ path) state.file } in
    let silent : IsSilent old state opened_twice = (ap (open_file host (c ∷ path)) e, refl) in
    subst (λ s. (run_calls calls s).written ≡ state.written) (ok-injective same)
      (run_calls-IsSilent old state calls opened_twice silent).1
