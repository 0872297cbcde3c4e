-- ===== src/Config.antt =====
-- common/config/config.cpp, in its POSIX build: the configuration file and the cached configuration. A
-- text or a path is the list of its bytes. What the functions ask of the host is a parameter: the
-- environment, the file system and the directory for temporary files.
pub mod Text
pub mod Lines
pub mod Ports
pub mod Cache
mod Tests
use drachma_block_chain.Common.{
  ℕ, zero, suc, ◌+◌, ◌-◌, ◌*◌, ◌^◌, List, [], ◌∷◌, ◌++◌, Bool, true, false, ltb, leb, ◌==◌, not,
  ◌&&◌, ◌||◌, if◌then◌else◌, Option, none, some, Result, ok, err, ◌>>=◌, codes, cannot_open_config,
  malformed_config_line,
}
use drachma_block_chain.Common.Int.{ℤ, pos, negsuc, sub_ℕ}
use drachma_block_chain.Common.Maps.{Map, find, assign, bytes_key}

-- What is asked of the host: `getenv`, `exists`, the bytes of a file (`none` where it cannot be opened),
-- and the two calls of the file system that throw on failure.
pub record Host : Type 0 where
  pub getenv : List ℕ → Option (List ℕ)
  pub exists : List ℕ → Bool
  pub read : List ℕ → Option (List ℕ)
  pub temp_directory_path : Result (List ℕ)
  pub create_directories : List ℕ → Result (Unit {0})

pub record NodeConfig : Type 0 where
  pub network : List ℕ
  pub data_dir : List ℕ
  pub log_file : List ℕ
  pub rpc_user : List ℕ
  pub rpc_password : List ℕ
  pub p2p_port : ℕ
  pub rpc_port : ℕ

unfoldable pub is_empty : List ℕ → Bool
is_empty [] = true
is_empty (c ∷ cs) = false

-- `std::isspace` in the default locale.
unfoldable pub is_space : ℕ → Bool
is_space c = c == 32 || (leb 9 c && leb c 13)

unfoldable pub drop_spaces : List ℕ → List ℕ
drop_spaces [] = []
drop_spaces (c ∷ cs) = if is_space c then drop_spaces cs else c ∷ cs

-- The text without the spaces at its end.
unfoldable pub cut_spaces : List ℕ → List ℕ
cut_spaces [] = []
cut_spaces (c ∷ cs) =
    let rest = cut_spaces cs in if is_space c && is_empty rest then [] else c ∷ rest

-- `Trim`
unfoldable pub trim : List ℕ → List ℕ
trim text = cut_spaces (drop_spaces text)

-- `std::getline`, again and again: the lines of a file. What follows the last newline is a line unless
-- it is empty.
unfoldable pub before_line : ℕ → List (List ℕ) → List (List ℕ)
before_line c [] = (c ∷ []) ∷ []
before_line c (line ∷ lines) = (c ∷ line) ∷ lines

unfoldable pub get_lines : List ℕ → List (List ℕ)
get_lines [] = []
get_lines (c ∷ cs) = let rest = get_lines cs in if c == 10 then [] ∷ rest else before_line c rest

-- `line.find('=')`, with the text before it and the text behind it.
unfoldable pub split_setting : List ℕ → Option (List ℕ × List ℕ)
split_setting [] = none
split_setting (c ∷ cs) =
    let rest = split_setting cs in
    if c == 61
    then some ([], cs)
    else elim rest [ none ↦ none | some (key, val) ↦ some (c ∷ key, val) ]

-- `line.empty() || line[0] == '#'`
unfoldable pub is_skipped : List ℕ → Bool
is_skipped [] = true
is_skipped (c ∷ cs) = c == 35

-- The body of the loop of `ParseFile`.
unfoldable pub parse_line : ℕ → List ℕ → Map (List ℕ) (List ℕ) → Result (Map (List ℕ) (List ℕ))
parse_line line_no line kv =
    if is_skipped (trim line) then ok kv else elim (split_setting (trim line)) [
      | none ↦ err (malformed_config_line line_no)
      | some (key, val) ↦ ok (assign bytes_key (trim key) (trim val) kv)
    ]

unfoldable pub parse_lines :
    ℕ → List (List ℕ) → Map (List ℕ) (List ℕ) → Result (Map (List ℕ) (List ℕ))
parse_lines line_no [] kv = ok kv
parse_lines line_no (line ∷ lines) kv = do
  kv' ← parse_line (line_no + 1) line kv
  parse_lines (line_no + 1) lines kv'

-- `ParseFile`
unfoldable pub parse_file : Host → List ℕ → Result (Map (List ℕ) (List ℕ))
parse_file host path = elim (host.read path) [
  | none ↦ err cannot_open_config
  | some bytes ↦ parse_lines 0 (get_lines bytes) []
]

unfoldable pub is_digit : ℕ → Bool
is_digit c = leb 48 c && leb c 57

-- `std::stoi`: the digits from the front on, behind spaces and a sign; `none` where it throws.
unfoldable pub scan_digits : ℕ → List ℕ → ℕ
scan_digits value [] = value
scan_digits value (c ∷ cs) =
    let rest = scan_digits (value * 10 + (c - 48)) cs in if is_digit c then rest else value

unfoldable pub scan_number : List ℕ → Option ℕ
scan_number [] = none
scan_number (c ∷ cs) = if is_digit c then some (scan_digits 0 (c ∷ cs)) else none

unfoldable pub signed : Bool → ℕ → Option ℤ
signed true v = if leb v (2 ^ 31) then some (sub_ℕ 0 v) else none
signed false v = if ltb v (2 ^ 31) then some (pos v) else none

unfoldable pub scan_sign : List ℕ → Option ℤ
scan_sign [] = none
scan_sign (c ∷ cs) =
    let unsigned = if c == 45 || c == 43 then cs else c ∷ cs in
    elim (scan_number unsigned) [ none ↦ none | some v ↦ signed (c == 45) v ]

unfoldable pub stoi : List ℕ → Option ℤ
stoi s = scan_sign (drop_spaces s)

-- `ToPort`
unfoldable pub port_of : Option ℤ → ℕ → ℕ
port_of none fallback = fallback
port_of (some (negsuc v)) fallback = fallback
port_of (some (pos v)) fallback = if v == 0 || ltb 65535 v then fallback else v

unfoldable pub to_port : List ℕ → ℕ → ℕ
to_port s fallback = port_of (stoi s) fallback

-- `path / name`, for a name that is not absolute.
unfoldable pub is_open_path : List ℕ → Bool
is_open_path [] = true
is_open_path (c ∷ []) = c == 47
is_open_path (c ∷ d ∷ cs) = is_open_path (d ∷ cs)

unfoldable pub join_path : List ℕ → List ℕ → List ℕ
join_path path name = if is_open_path path then path ++ name else path ++ 47 ∷ name

unfoldable pub home_data_dir : Host → Result (List ℕ)
home_data_dir host = elim (host.getenv (codes "HOME")) [
  | some home ↦ ok (join_path home (codes ".drachma"))
  | none ↦ host.temp_directory_path >>= λ temp. ok (join_path temp (codes "drachma"))
]

-- `DefaultDataDir`
unfoldable pub default_data_dir : Host → Result (List ℕ)
default_data_dir host = elim (host.getenv (codes "DRACHMA_DATA")) [
  | none ↦ home_data_dir host
  | some env ↦ if is_empty env then home_data_dir host else ok env
]

unfoldable pub default_config : List ℕ → NodeConfig
default_config dir = record {
  network = codes "main";
  data_dir = dir;
  log_file = join_path dir (codes "drachma.log");
  rpc_user = codes "drachma";
  rpc_password = codes "change-me";
  p2p_port = 11311;
  rpc_port = 8332;
}

-- `if (auto it = kv.find(key); it != kv.end()) field = it->second;`
abbrev pub setting : Map (List ℕ) (List ℕ) → List ℕ → List ℕ → List ℕ
setting kv key kept = elim (find bytes_key key kv) [ none ↦ kept | some v ↦ v ]

abbrev pub port_setting : Map (List ℕ) (List ℕ) → List ℕ → ℕ → ℕ
port_setting kv key kept = elim (find bytes_key key kv) [ none ↦ kept | some v ↦ to_port v kept ]

unfoldable pub apply_settings : Map (List ℕ) (List ℕ) → NodeConfig → NodeConfig
apply_settings kv cfg = record {
  network = setting kv (codes "network") cfg.network;
  data_dir = setting kv (codes "datadir") cfg.data_dir;
  log_file = setting kv (codes "logfile") cfg.log_file;
  rpc_user = setting kv (codes "rpcuser") cfg.rpc_user;
  rpc_password = setting kv (codes "rpcpassword") cfg.rpc_password;
  p2p_port = port_setting kv (codes "p2pport") cfg.p2p_port;
  rpc_port = port_setting kv (codes "rpcport") cfg.rpc_port;
}

-- `Load` below the test of the cache.
unfoldable pub read_config : Host → List ℕ → Result NodeConfig
read_config host path = do
  dir ← default_data_dir host
  kv ← if not (is_empty path) && host.exists path then parse_file host path else ok []
  let cfg = apply_settings kv (default_config dir)
  created ← host.create_directories cfg.data_dir
  ok cfg

-- What the cache holds after a configuration was read.
unfoldable pub keep_config : Result NodeConfig → Option NodeConfig
keep_config (ok cfg) = some cfg
keep_config (err thrown) = none

-- `Load`: the answer, and `g_cached` behind it.
unfoldable pub load : Host → List ℕ → Option NodeConfig → Result NodeConfig × Option NodeConfig
load host path (some cached) = (ok cached, some cached)
load host path none = let answer = read_config host path in (answer, keep_config answer)

-- `Override`
unfoldable pub override : NodeConfig → Option NodeConfig → Option NodeConfig
override updated cached = some updated
