-- ===== src/Config/Tests.antt =====
-- Runs of common/config/config.cpp and its theorems at a concrete file.
use drachma_block_chain.Common.{
  ℕ, ◌+◌, ◌≡◌, refl, List, [], ◌∷◌, ◌++◌, length, none, some, ok, err, true, bytes_eq, codes,
  malformed_config_line, if◌then◌else◌,
}
use drachma_block_chain.Common.Maps.{bytes_key, find, assign}
use drachma_block_chain.Common.Maps.Distinct.{assign_all}
use drachma_block_chain.Config.{
  Host, NodeConfig, is_space, drop_spaces, cut_spaces, trim, is_skipped, split_setting, parse_file,
  is_digit, scan_digits, scan_number, signed, scan_sign, stoi, port_of, to_port, is_empty,
  read_config, load, keep_config, default_data_dir, default_config, apply_settings, join_path,
  is_open_path, parse_lines, parse_line, get_lines, before_line,
}
use drachma_block_chain.Config.Lines.{
  ConfigLine, blank, comment, assignment, print_line, print_lines, settings_of,
  parse_file-print_lines, parse_file_malformed,
}
use drachma_block_chain.Config.Cache.{run_loads}

abbrev sample_lines : List ConfigLine
sample_lines =
    comment (32 ∷ []) (codes " a node")
    ∷ blank []
    ∷ assignment [] (codes "p2pport") (32 ∷ []) (32 ∷ []) (codes "18444") (13 ∷ [])
    ∷ assignment (9 ∷ []) (codes "rpcuser") [] [] (codes "a b") []
    ∷ assignment [] (codes "p2pport") [] [] (codes "70000") []
    ∷ []

abbrev host_with : List ℕ → Host
host_with text = record {
  getenv = λ name. if bytes_eq name (codes "DRACHMA_DATA") then some (codes "/data") else none;
  exists = λ path. true;
  read = λ path. some text;
  temp_directory_path = ok (codes "/tmp");
  create_directories = λ path. ok tt;
}

parse_file-print_lines_example :
    parse_file (host_with (print_lines sample_lines)) (codes "node.conf")
    ≡ ok (assign_all bytes_key (settings_of sample_lines) [])
unfolding is_space is_skipped cut_spaces is_empty print_line print_lines
parse_file-print_lines_example =
    parse_file-print_lines (host_with (print_lines sample_lines)) (codes "node.conf") sample_lines
      (search tt) refl

to_port_signed : to_port (codes " -5") 7 ≡ 7
unfolding to_port stoi drop_spaces is_space scan_sign scan_number is_digit scan_digits signed
    port_of
to_port_signed = refl

to_port_plus : to_port (codes "+65535") 7 ≡ 65535
unfolding to_port stoi drop_spaces is_space scan_sign scan_number is_digit scan_digits signed
    port_of
to_port_plus = refl

abbrev bad_host : Host
bad_host = host_with (codes "port 3")

abbrev sample_calls : List (Host × List ℕ)
sample_calls =
    (bad_host, codes "node.conf")
    ∷ (host_with (print_lines sample_lines), codes "node.conf")
    ∷ (bad_host, codes "other.conf")
    ∷ []

abbrev sample_config : NodeConfig
sample_config = record (default_config (codes "/data")) { rpc_user = codes "a b" }

sample_answers :
    run_loads sample_calls none
    ≡ err (malformed_config_line 1) ∷ ok sample_config ∷ ok sample_config ∷ []
unfolding run_loads load keep_config read_config default_data_dir default_config apply_settings
    join_path is_open_path parse_file parse_lines parse_line get_lines before_line print_lines
    print_line trim drop_spaces cut_spaces is_space is_skipped split_setting is_empty to_port stoi
    scan_sign scan_number is_digit scan_digits signed port_of bytes_eq find assign
sample_answers = refl

parse_file_malformed_example :
    parse_file
      (host_with (print_lines sample_lines ++ (codes "port 3" ++ 10 ∷ codes "x=1")))
      (codes "node.conf")
    ≡ err (malformed_config_line (length sample_lines + 1))
unfolding is_space is_skipped cut_spaces is_empty print_line print_lines split_setting trim
    drop_spaces
parse_file_malformed_example =
    parse_file_malformed
      (host_with (print_lines sample_lines ++ (codes "port 3" ++ 10 ∷ codes "x=1")))
      (codes "node.conf") sample_lines (codes "port 3") (codes "x=1") (search tt) (search tt) refl
      refl refl
