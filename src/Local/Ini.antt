-- ===== src/Local/Ini.antt =====
-- The rewriting of exported desktop and service files (crates/linyaps-repository/src/local.rs). A text
-- here is the list of its characters, by their code points.
use linyaps_rust.Common.{
  ℕ, ◌==◌, leb, Text, codes, text_eq, is_empty, starts_with, ends_with_byte, pop, split, split_once,
  join, drop, Option, none, some, List, [], ◌∷◌, ◌++◌, Bool, true, false, not, ◌&&◌, ◌||◌, any,
  length, if◌then◌else◌, map,
}

-- The property `White_Space`.
abbrev pub is_white : ℕ → Bool
is_white c =
    (leb 9 c && leb c 13)
    || c == 32
    || c == 133
    || c == 160
    || c == 5760
    || (leb 8192 c && leb c 8202)
    || c == 8232
    || c == 8233
    || c == 8239
    || c == 8287
    || c == 12288

unfoldable pub trim_start : Text → Text
trim_start [] = []
trim_start (c ∷ s) = let rest = trim_start s in if is_white c then rest else c ∷ s

-- A text that is all white is trimmed away from its end on.
abbrev pub cons_kept : ℕ → Text → Text
cons_kept c [] = if is_white c then [] else c ∷ []
cons_kept c (d ∷ s) = c ∷ d ∷ s

unfoldable pub trim_end : Text → Text
trim_end [] = []
trim_end (c ∷ s) = cons_kept c (trim_end s)

unfoldable pub trim : Text → Text
unfolding trim_start trim_end
trim s = trim_end (trim_start s)

-- `str::lines`: a line ends before `\n` or `\r\n`, and nothing stands behind the last end of a line.
unfoldable pub strip_return : Text → Text
unfolding ends_with_byte pop
strip_return s = if ends_with_byte s 13 then pop s else s

unfoldable pub lines_of : List Text → List Text
unfolding strip_return
lines_of [] = []
lines_of (p ∷ []) = if is_empty p then [] else p ∷ []
lines_of (p ∷ q ∷ ps) = strip_return p ∷ lines_of (q ∷ ps)

unfoldable pub lines : Text → List Text
unfolding lines_of split
lines s = lines_of (split 10 s)

pub record IniGroup : Type 0 where
  pub header : Text
  pub name : Text
  pub lines : List Text

unfoldable pub is_header : Text → Bool
unfolding ends_with_byte starts_with
is_header s = starts_with s (codes "[") && ends_with_byte s b']' && leb 2 (length s)

-- The lines behind a header up to the next one, and the groups behind them. The source reads the lines
-- forwards and adds each to the last group.
pub record Parsed : Type 0 where
  pub preamble : List Text
  pub groups : List IniGroup

unfoldable pub parse_line : Text → Parsed → Parsed
unfolding trim is_header pop
parse_line line rest =
    if is_header (trim line)
    then record {
      preamble = [];
      groups =
          record { header = line; name = pop (drop 1 (trim line)); lines = rest.preamble }
          ∷ rest.groups;
    }
    else record rest { preamble = line ∷ rest.preamble }

unfoldable pub parse_lines : List Text → Parsed
unfolding parse_line
parse_lines [] = record { preamble = []; groups = [] }
parse_lines (line ∷ ls) = parse_line line (parse_lines ls)

unfoldable pub parse_ini : Text → Parsed
unfolding lines parse_lines
parse_ini content = parse_lines (lines content)

unfoldable pub group_lines : List IniGroup → List Text
group_lines [] = []
group_lines (g ∷ gs) = g.header ∷ (g.lines ++ group_lines gs)

unfoldable pub serialize_ini : List Text → List IniGroup → Text
unfolding group_lines join
serialize_ini preamble groups = join (10 ∷ []) (preamble ++ group_lines groups) ++ 10 ∷ []

unfoldable pub first_part : Option (Text × Text) → Option Text
unfolding trim
first_part none = none
first_part (some (key, value)) = some (trim key)

unfoldable pub ini_key : Text → Option Text
unfolding trim_start split_once starts_with first_part
ini_key line =
    let t = trim_start line in
    if starts_with t (codes "#") || starts_with t (codes ";")
    then none
    else first_part (split_once b'=' t)

-- `ini_value(line).unwrap_or_default()`.
abbrev pub second_part : Option (Text × Text) → Text
second_part none = []
second_part (some (key, value)) = value

unfoldable pub ini_value : Text → Text
unfolding trim_start split_once
ini_value line = second_part (split_once b'=' (trim_start line))

-- `ini_key(line) == Some(key)`.
unfoldable pub is_key : Option Text → Text → Bool
unfolding text_eq
is_key none key = false
is_key (some k) key = text_eq k key

abbrev pub assign : Text → Text → Text
assign key value = key ++ b'=' ∷ value

unfoldable pub set_ini_key : List Text → Text → Text → List Text
unfolding ini_key is_key
set_ini_key [] key value = assign key value ∷ []
set_ini_key (line ∷ ls) key value =
    let rest = set_ini_key ls key value in
    if is_key (ini_key line) key then assign key value ∷ ls else line ∷ rest

-- `split_once` at a text, and `contains`.
abbrev pub longer_first : ℕ → Option (Text × Text) → Option (Text × Text)
longer_first c none = none
longer_first c (some (a, b)) = some (c ∷ a, b)

unfoldable pub split_once_at : Text → Text → Option (Text × Text)
unfolding starts_with
split_once_at pattern [] = none
split_once_at pattern (c ∷ s) =
    let later = longer_first c (split_once_at pattern s) in
    if starts_with (c ∷ s) pattern then some ([], drop (length pattern) (c ∷ s)) else later

abbrev pub is_split : Option (Text × Text) → Bool
is_split none = false
is_split (some p) = true

abbrev pub behind : Option (Text × Text) → Text
behind none = []
behind (some (a, b)) = b

unfoldable pub origin_of : Text → Option (Text × Text) → Text
unfolding split_once_at
origin_of command none = behind (split_once_at (codes "-- ") command)
origin_of command (some (a, origin)) = origin

unfoldable pub generated_origin : Text → Text
unfolding split_once_at origin_of
generated_origin command =
    if not (is_split (split_once_at (codes "ll-cli") command))
    then command
    else origin_of command (split_once_at (codes "--exec ") command)

abbrev pub is_field_code : ℕ → Bool
is_field_code c = c == b'f' || c == b'F' || c == b'u' || c == b'U'

abbrev pub later_code : Text → Option (Text × (ℕ × Text)) → Option (Text × (ℕ × Text))
later_code before none = none
later_code before (some (a, r)) = some (before ++ a, r)

-- The first field code that is not escaped: what stands before its `%`, the code and what stands behind.
unfoldable pub field_code : Text → Option (Text × (ℕ × Text))
field_code [] = none
field_code (c ∷ []) = none
field_code (c ∷ d ∷ s) =
    let later = later_code (c ∷ []) (field_code (d ∷ s)) in
    let escaped = later_code (c ∷ d ∷ []) (field_code s) in
    if not (c == b'%')
    then later
    else (if d == b'%' then escaped else (if is_field_code d then some ([], (d, s)) else none))

abbrev pub run_command : Text → Text
run_command app_id = codes "/usr/bin/ll-cli run " ++ app_id

abbrev pub with_field_code : Text → Text → Option (Text × (ℕ × Text)) → Text
with_field_code origin app_id none = run_command app_id ++ (codes " -- " ++ origin)
with_field_code origin app_id (some (before, (code, after))) =
    run_command app_id
    ++ ((if code == b'f' || code == b'F' then codes " --file %" else codes " --url %")
        ++ (code ∷ (codes " -- -- " ++ (before ++ (b'%' ∷ b'%' ∷ code ∷ after)))))

unfoldable pub desktop_exec : Text → Text → Text
unfolding field_code
desktop_exec [] app_id = run_command app_id ++ codes " "
desktop_exec (c ∷ origin) app_id = with_field_code (c ∷ origin) app_id (field_code (c ∷ origin))

pub data RewriteKind : Type 0 where
  desktop : RewriteKind
  dbus_service : RewriteKind
  systemd_service : RewriteKind
  context_menu : RewriteKind

unfoldable pub rewrite_exec : Text → Text → Text
unfolding ini_key is_key ini_value generated_origin desktop_exec
rewrite_exec app_id line =
    if is_key (ini_key line) (codes "Exec")
    then assign (codes "Exec") (desktop_exec (generated_origin (ini_value line)) app_id)
    else line

unfoldable pub is_exec : Text → Bool
unfolding ini_key is_key
is_exec line = is_key (ini_key line) (codes "Exec")

unfoldable pub rewrite_desktop : Text → IniGroup → IniGroup
unfolding rewrite_exec is_exec set_ini_key text_eq
rewrite_desktop app_id g =
    let rewritten = map (rewrite_exec app_id) g.lines in
    let ls =
      if any is_exec g.lines
      then rewritten
      else rewritten ++ assign (codes "Exec") (run_command app_id) ∷ [] in
    record g {
      lines =
          if text_eq g.name (codes "Desktop Entry")
          then set_ini_key (set_ini_key ls (codes "TryExec") (codes "/usr/bin/ll-cli"))
              (codes "X-linglong") app_id
          else ls;
    }

-- The key of a line that stands among the keys.
unfoldable pub command_line : Text → Text → Text → Text
unfolding ini_value generated_origin
command_line app_id key line =
    assign key (run_command app_id ++ (codes " -- " ++ generated_origin (ini_value line)))

unfoldable pub rewrite_keyed : Text → List Text → Text → Option Text → Text
unfolding text_eq command_line
rewrite_keyed app_id keys line none = line
rewrite_keyed app_id keys line (some key) =
    if any (λ k. text_eq k key) keys then command_line app_id key line else line

unfoldable pub rewrite_group_execs : Text → List Text → Text → List IniGroup → List IniGroup
unfolding text_eq rewrite_keyed ini_key
rewrite_group_execs name keys app_id [] = []
rewrite_group_execs name keys app_id (g ∷ gs) =
    (if text_eq g.name name
      then record g { lines = map (λ line. rewrite_keyed app_id keys line (ini_key line)) g.lines }
      else g)
    ∷ rewrite_group_execs name keys app_id gs

abbrev pub service_keys : List Text
service_keys =
    codes "ExecStart"
    ∷ codes "ExecStartPost"
    ∷ codes "ExecCondition"
    ∷ codes "ExecStop"
    ∷ codes "ExecStopPost"
    ∷ codes "ExecReload"
    ∷ []

unfoldable pub rewrite_menu : Text → IniGroup → IniGroup
unfolding rewrite_exec
rewrite_menu app_id g = record g { lines = map (rewrite_exec app_id) g.lines }

unfoldable pub rewrite_groups : RewriteKind → Text → List IniGroup → List IniGroup
unfolding rewrite_desktop rewrite_group_execs rewrite_menu
rewrite_groups desktop app_id groups = map (rewrite_desktop app_id) groups
rewrite_groups dbus_service app_id groups =
    rewrite_group_execs (codes "D-BUS Service") (codes "Exec" ∷ []) app_id groups
rewrite_groups systemd_service app_id groups =
    rewrite_group_execs (codes "Service") service_keys app_id groups
rewrite_groups context_menu app_id groups = map (rewrite_menu app_id) groups

unfoldable pub rewrite_ini : Text → RewriteKind → Text → Text
unfolding parse_ini rewrite_groups serialize_ini
rewrite_ini content kind app_id =
    let parsed = parse_ini content in
    serialize_ini parsed.preamble (rewrite_groups kind app_id parsed.groups)
