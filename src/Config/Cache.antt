-- ===== src/Config/Cache.antt =====
-- `Load` of common/config/config.cpp, one call after the other.
use drachma_block_chain.Common.{
  ℕ, zero, suc, ◌≤◌, ◌<◌, ◌≡◌, refl, sym, ◌∙◌, arith, List, [], ◌∷◌, All, Option, none, some,
  Result, ok, err, get_elem?, ok-injective, >>=-eq-ok, not, ◌&&◌, if◌then◌else◌, All-get_elem,
}
use mathlib.Core.Path.{subst}
use drachma_block_chain.Common.Maps.{Map}
use drachma_block_chain.Config.{
  Host, NodeConfig, load, keep_config, read_config, default_data_dir, default_config,
  apply_settings, to_port, parse_file, is_empty,
}
use drachma_block_chain.Config.Ports.{to_port_bounds}

-- The answers of calls of `Load` that follow each other, each with what the host is like at the time.
unfoldable pub run_loads : List (Host × List ℕ) → Option NodeConfig → List (Result NodeConfig)
run_loads [] cached = []
run_loads ((host, path) ∷ calls) cached =
    let (answer, cached') = load host path cached in answer ∷ run_loads calls cached'

abbrev pub IsPort : ℕ → Type 0
IsPort port = (0 < port) × (port ≤ 65535)

abbrev pub HasPorts : NodeConfig → Type 0
HasPorts cfg = IsPort cfg.p2p_port × IsPort cfg.rpc_port

IsPort-setting_bounds :
    (o : Option (List ℕ)) (kept : ℕ)
    → IsPort kept
    → IsPort (elim o [ none ↦ kept | some v ↦ to_port v kept ])
IsPort-setting_bounds none kept h = h
IsPort-setting_bounds (some v) kept h = to_port_bounds v kept h.0 h.1

settings-HasPorts :
    (kv : Map (List ℕ) (List ℕ)) (dir : List ℕ) → HasPorts (apply_settings kv (default_config dir))
unfolding apply_settings default_config
settings-HasPorts kv dir = (
  IsPort-setting_bounds _ 11311 (omega arith, omega arith),
  IsPort-setting_bounds _ 8332 (omega arith, omega arith),
)

read_config-HasPorts :
    (host : Host) (path : List ℕ) (cfg : NodeConfig) → read_config host path ≡ ok cfg → HasPorts cfg
unfolding read_config
read_config-HasPorts host path cfg e =
    let (dir, e₀, e₁) = >>=-eq-ok (default_data_dir host) _ e in
    let (kv, e₂, e₃) =
      >>=-eq-ok (if not (is_empty path) && host.exists path then parse_file host path else ok []) _
        e₁ in
    let (created, e₄, e₅) =
      >>=-eq-ok (host.create_directories (apply_settings kv (default_config dir)).data_dir) _ e₃ in
    subst HasPorts (ok-injective e₅) (settings-HasPorts kv dir)

cached_answers :
    (calls : List (Host × List ℕ)) (cfg : NodeConfig)
    → All (λ answer. answer ≡ ok cfg) (run_loads calls (some cfg))
unfolding run_loads load
cached_answers [] cfg = tt
cached_answers ((host, path) ∷ calls) cfg = (refl, cached_answers calls cfg)

-- Calls of Load that follow each other, from an empty cache on and without an Override between them: all
-- that return answer the same configuration, whatever paths they are given and whatever becomes of the
-- files and the environment, and both its ports lie between 1 and 65535.
pub loads_agree :
    (calls : List (Host × List ℕ)) (i j : ℕ) (a b : NodeConfig)
    → get_elem? (run_loads calls none) i ≡ some (ok a)
    → get_elem? (run_loads calls none) j ≡ some (ok b)
    → (a ≡ b) × HasPorts a
unfolding run_loads load keep_config
loads_agree [] i j a b ea eb = absurd (cc)
loads_agree ((host, path) ∷ calls) i j a b ea eb =
    by_answer (loads_agree calls) (read_config host path) refl i j ea eb
  where
    by_answer :
        ((i j : ℕ) (a b : NodeConfig)
          → get_elem? (run_loads calls none) i ≡ some (ok a)
          → get_elem? (run_loads calls none) j ≡ some (ok b)
          → (a ≡ b) × HasPorts a)
        → (r : Result NodeConfig) → read_config host path ≡ r
        → (i j : ℕ) → get_elem? (r ∷ run_loads calls (keep_config r)) i ≡ some (ok a)
        → get_elem? (r ∷ run_loads calls (keep_config r)) j ≡ some (ok b)
        → (a ≡ b) × HasPorts a
    by_answer later (ok cfg) e i j ea eb =
        let item : (k : ℕ) (x : NodeConfig)
            → get_elem? (ok cfg ∷ run_loads calls (some cfg)) k ≡ some (ok x)
            → x ≡ cfg =
          λ k x found. ok-injective (
            All-get_elem (λ r. r ≡ ok cfg) (ok cfg ∷ run_loads calls (some cfg)) k
              (refl, cached_answers calls cfg) found) in
        (
          item i a ea ∙ sym (item j b eb),
          subst HasPorts (sym (item i a ea)) (read_config-HasPorts host path cfg e),
        )
    by_answer later (err thrown) e zero j ea eb = absurd (cc)
    by_answer later (err thrown) e (suc i) zero ea eb = absurd (cc)
    by_answer later (err thrown) e (suc i) (suc j) ea eb = later i j a b ea eb
