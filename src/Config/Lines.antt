-- ===== src/Config/Lines.antt =====
-- `ParseFile` of common/config/config.cpp on a file that was printed from its lines.
use drachma_block_chain.Common.{
  ℕ, suc, ◌+◌, ◌≡◌, refl, sym, ap, ◌∙◌, List, [], ◌∷◌, ◌++◌, append_assoc, All, true, false, ◌==◌,
  none, some, ok, err, malformed_config_line, arith, All-append, append-nil, length,
}
use drachma_block_chain.Common.Maps.{Map, assign, bytes_key}
use drachma_block_chain.Common.Maps.Distinct.{assign_all}
use drachma_block_chain.Config.{
  is_space, cut_spaces, trim, get_lines, split_setting, is_skipped, parse_line, parse_lines, Host,
  parse_file,
}
use drachma_block_chain.Config.Text.{
  IsSpaces, HasCleanFront, HasCleanEnd, drop_spaces_front, drop_spaces_clean, cut_spaces_before,
  trim_padded, trim-cut_spaces, get_lines_cons,
}

-- A line of a file: spaces, a comment behind spaces, or a setting with spaces at the four places.
pub data ConfigLine : Type 0 where
  blank : List ℕ → ConfigLine
  comment : List ℕ → List ℕ → ConfigLine
  assignment : List ℕ → List ℕ → List ℕ → List ℕ → List ℕ → List ℕ → ConfigLine

unfoldable pub print_line : ConfigLine → List ℕ
print_line (blank pad) = pad
print_line (comment pad text) = pad ++ 35 ∷ text
print_line (assignment a key b c val d) = a ++ (key ++ (b ++ 61 ∷ (c ++ (val ++ d))))

unfoldable pub print_lines : List ConfigLine → List ℕ
print_lines [] = []
print_lines (line ∷ lines) = print_line line ++ 10 ∷ print_lines lines

unfoldable pub settings_of : List ConfigLine → Map (List ℕ) (List ℕ)
settings_of [] = []
settings_of (blank pad ∷ lines) = settings_of lines
settings_of (comment pad text ∷ lines) = settings_of lines
settings_of (assignment a key b c val d ∷ lines) = (key, val) ∷ settings_of lines

abbrev HasNo : ℕ → List ℕ → Type 0
HasNo x s = All (λ c. (c == x) ≡ false) s

-- A key is a text that is not empty, starts with neither a space nor `#`, ends with no space and holds
-- no `=`; a value may be empty.
abbrev IsKey : List ℕ → Type 0
IsKey key = (is_skipped key ≡ false) × HasCleanFront key × HasCleanEnd key × HasNo 61 key

abbrev IsShaped : ConfigLine → Type 0
IsShaped (blank pad) = IsSpaces pad
IsShaped (comment pad text) = IsSpaces pad
IsShaped (assignment a key b c val d) =
    IsSpaces a
    × IsKey key
    × IsSpaces b
    × IsSpaces c
    × HasCleanFront val
    × HasCleanEnd val
    × IsSpaces d

-- A line that can stand in a file: it has its shape and no newline.
abbrev pub IsWellFormed : ConfigLine → Type 0
IsWellFormed line = IsShaped line × HasNo 10 (print_line line)

split_at : (key rest : List ℕ) → HasNo 61 key → split_setting (key ++ 61 ∷ rest) ≡ some (key, rest)
unfolding split_setting
split_at [] rest h = refl
split_at (c ∷ key) rest h = rw (h.0, split_at key rest h.1)

spaces_have_no_equals : (pad : List ℕ) → IsSpaces pad → HasNo 61 pad
spaces_have_no_equals [] h = tt
spaces_have_no_equals (c ∷ pad) h = (no_equals c h.0, spaces_have_no_equals pad h.1)
  where
    no_equals : (c : ℕ) → is_space c ≡ true → (c == 61) ≡ false
    no_equals c h = unfold is_space in ground arith

trim_setting :
    (a s rest : List ℕ)
    → IsSpaces a
    → HasCleanFront s
    → trim (a ++ (s ++ 61 ∷ rest)) ≡ s ++ 61 ∷ cut_spaces rest
unfolding trim
trim_setting a s rest h front =
    ap cut_spaces
      (drop_spaces_front a (s ++ 61 ∷ rest) h ∙ drop_spaces_clean (s ++ 61 ∷ rest) (still s front))
    ∙ cut_spaces_before s 61 rest no_space
  where
    no_space : is_space 61 ≡ false
    no_space = unfold is_space in refl

    still : (s : List ℕ) → HasCleanFront s → HasCleanFront (s ++ 61 ∷ rest)
    still [] front = no_space
    still (c ∷ cs) front = front

front_append :
    (key b : List ℕ) → is_skipped key ≡ false → HasCleanFront key → HasCleanFront (key ++ b)
unfolding is_skipped
front_append [] b h front = absurd (cc)
front_append (c ∷ cs) b h front = front

skipped_append : (key b : List ℕ) → is_skipped key ≡ false → is_skipped (key ++ b) ≡ false
unfolding is_skipped
skipped_append [] b h = absurd (cc)
skipped_append (c ∷ cs) b h = h

parse_assignment :
    (n : ℕ) (a key b c val d : List ℕ) (kv : Map (List ℕ) (List ℕ))
    → IsShaped (assignment a key b c val d)
    → parse_line n (print_line (assignment a key b c val d)) kv ≡ ok (assign bytes_key key val kv)
unfolding parse_line print_line
parse_assignment n a key b c val d kv (sa, (named, front, end, plain), sb, sc, vfront, vend, sd) =
    let w = c ++ (val ++ d) in
    let trimmed : trim (a ++ (key ++ (b ++ 61 ∷ w))) ≡ (key ++ b) ++ 61 ∷ cut_spaces w =
      ap (λ t. trim (a ++ t)) (sym (append_assoc key b (61 ∷ w)))
      ∙ trim_setting a (key ++ b) w sa (front_append key b named front) in
    let shown : is_skipped ((key ++ b) ++ 61 ∷ cut_spaces w) ≡ false =
      skipped_append (key ++ b) (61 ∷ cut_spaces w) (skipped_append key b named) in
    let parts =
      split_at (key ++ b) (cut_spaces w)
        (All-append (λ c. (c == 61) ≡ false) key b plain (spaces_have_no_equals b sb)) in
    rw (trimmed, shown, parts)
      (rw (
        trim_padded [] key b tt sb front end,
        trim-cut_spaces w,
        trim_padded c val d sc sd vfront vend,
      ))

parse_skipped :
    (n : ℕ) (line : List ℕ) (kv : Map (List ℕ) (List ℕ))
    → is_skipped (trim line) ≡ true
    → parse_line n line kv ≡ ok kv
unfolding parse_line
parse_skipped n line kv h = rw h

trim_blank : (pad : List ℕ) → IsSpaces pad → trim pad ≡ []
trim_blank pad h = trim_padded [] [] pad tt h tt (unfold cut_spaces in refl)

trim_comment : (pad text : List ℕ) → IsSpaces pad → trim (pad ++ 35 ∷ text) ≡ 35 ∷ cut_spaces text
unfolding trim
trim_comment pad text h =
    ap cut_spaces (drop_spaces_front pad (35 ∷ text) h ∙ drop_spaces_clean (35 ∷ text) no_space)
    ∙ cut_spaces_before [] 35 text no_space
  where
    no_space : is_space 35 ≡ false
    no_space = unfold is_space in refl

-- What a line does to the settings that were read before it.
abbrev after_line : ConfigLine → Map (List ℕ) (List ℕ) → Map (List ℕ) (List ℕ)
after_line line kv = assign_all bytes_key (settings_of (line ∷ [])) kv

parse_line-print_line :
    (n : ℕ) (line : ConfigLine) (kv : Map (List ℕ) (List ℕ))
    → IsShaped line
    → parse_line n (print_line line) kv ≡ ok (after_line line kv)
unfolding settings_of assign_all print_line is_skipped
parse_line-print_line n (blank pad) kv h = parse_skipped n pad kv (rw (trim_blank pad h))
parse_line-print_line n (comment pad text) kv h =
    parse_skipped n (pad ++ 35 ∷ text) kv (rw (trim_comment pad text h))
parse_line-print_line n (assignment a key b c val d) kv h = parse_assignment n a key b c val d kv h

settings_of_cons :
    (line : ConfigLine) (lines : List ConfigLine) (kv : Map (List ℕ) (List ℕ))
    → assign_all bytes_key (settings_of (line ∷ lines)) kv
      ≡ assign_all bytes_key (settings_of lines) (after_line line kv)
unfolding settings_of assign_all
settings_of_cons (blank pad) lines kv = refl
settings_of_cons (comment pad text) lines kv = refl
settings_of_cons (assignment a key b c val d) lines kv = refl

shape :
    (line : ConfigLine) (lines : List ConfigLine) (rest : List ℕ)
    → print_lines (line ∷ lines) ++ rest ≡ print_line line ++ 10 ∷ (print_lines lines ++ rest)
unfolding print_lines
shape line lines rest = append_assoc (print_line line) (10 ∷ print_lines lines) rest

parse_lines_cons :
    (n : ℕ) (line : List ℕ) (lines : List (List ℕ)) (kv kv' : Map (List ℕ) (List ℕ))
    → parse_line (n + 1) line kv ≡ ok kv'
    → parse_lines n (line ∷ lines) kv ≡ parse_lines (n + 1) lines kv'
unfolding parse_lines
parse_lines_cons n line lines kv kv' e = rw e

-- Good lines in front of a file.
parse_front :
    (n : ℕ) (lines : List ConfigLine) (rest : List ℕ) (kv : Map (List ℕ) (List ℕ))
    → All IsWellFormed lines
    → parse_lines n (get_lines (print_lines lines ++ rest)) kv
      ≡ parse_lines
          (n + length lines)
          (get_lines rest)
          (assign_all bytes_key (settings_of lines) kv)
parse_front n [] rest kv h =
    unfold print_lines settings_of assign_all in
    ap (λ (k : ℕ). parse_lines k (get_lines rest) kv) (omega arith)
parse_front n (line ∷ lines) rest kv h =
    ap (λ t. parse_lines n (get_lines t) kv) (shape line lines rest)
    ∙ ap (λ t. parse_lines n t kv)
        (get_lines_cons (print_line line) (print_lines lines ++ rest) h.0.1)
    ∙ parse_lines_cons n (print_line line) (get_lines (print_lines lines ++ rest)) kv
        (after_line line kv) (parse_line-print_line (n + 1) line kv h.0.0)
    ∙ parse_front (n + 1) lines rest (after_line line kv) h.1
    ∙ ap
        (λ (k : ℕ).
          parse_lines k (get_lines rest)
            (assign_all bytes_key (settings_of lines) (after_line line kv)))
        (omega arith)
    ∙ ap (λ t. parse_lines (n + suc (length lines)) (get_lines rest) t)
        (sym (settings_of_cons line lines kv))

parse_read :
    (host : Host) (path bytes : List ℕ)
    → host.read path ≡ some bytes
    → parse_file host path ≡ parse_lines 0 (get_lines bytes) []
unfolding parse_file
parse_read host path bytes e = rw (parse_file, e)

refused :
    (n : ℕ) (bad : List ℕ) (lines : List (List ℕ)) (kv : Map (List ℕ) (List ℕ))
    → is_skipped (trim bad) ≡ false
    → split_setting (trim bad) ≡ none
    → parse_lines n (bad ∷ lines) kv ≡ err (malformed_config_line (n + 1))
unfolding parse_lines parse_line
refused n bad lines kv shown whole = rw (shown, whole)

-- ParseFile reads back a file that was printed line by line: comments and blank lines are skipped,
-- spaces around keys and values are dropped, and each key has the value that was given last. Its lines
-- are well formed: a key is not empty, starts with neither a space nor a `#`, ends with no space and holds
-- no `=`, and no line holds a newline.
pub parse_file-print_lines :
    (host : Host) (path : List ℕ) (lines : List ConfigLine)
    → All IsWellFormed lines
    → host.read path ≡ some (print_lines lines)
    → parse_file host path ≡ ok (assign_all bytes_key (settings_of lines) [])
parse_file-print_lines host path lines h e =
    parse_read host path (print_lines lines) e
    ∙ ap (λ t. parse_lines 0 (get_lines t) []) (sym (append-nil (print_lines lines)))
    ∙ parse_front 0 lines [] [] h
    ∙ ended (0 + length lines) (assign_all bytes_key (settings_of lines) [])
  where
    ended : (n : ℕ) (kv : Map (List ℕ) (List ℕ)) → parse_lines n (get_lines []) kv ≡ ok kv
    ended n kv = unfold parse_lines get_lines in refl

-- A line that is neither blank nor a comment, holds no `=` and ends in a newline makes ParseFile throw,
-- with the number of the line, whatever follows it: the lines before it are well formed.
pub parse_file_malformed :
    (host : Host) (path : List ℕ) (lines : List ConfigLine) (bad rest : List ℕ)
    → All IsWellFormed lines
    → HasNo 10 bad
    → is_skipped (trim bad) ≡ false
    → split_setting (trim bad) ≡ none
    → host.read path ≡ some (print_lines lines ++ (bad ++ 10 ∷ rest))
    → parse_file host path ≡ err (malformed_config_line (length lines + 1))
parse_file_malformed host path lines bad rest h plain shown whole e =
    parse_read host path (print_lines lines ++ (bad ++ 10 ∷ rest)) e
    ∙ parse_front 0 lines (bad ++ 10 ∷ rest) [] h
    ∙ ap (λ t. parse_lines (0 + length lines) t (assign_all bytes_key (settings_of lines) []))
        (get_lines_cons bad rest plain)
    ∙ refused (0 + length lines) bad (get_lines rest) (assign_all bytes_key (settings_of lines) [])
        shown whole
    ∙ ap (λ (n : ℕ). err (malformed_config_line n)) (omega arith)
