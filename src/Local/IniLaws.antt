-- ===== src/Local/IniLaws.antt =====
-- What the rewriting of a desktop file keeps and what it makes of the commands.
use linyaps_rust.Common.{
  ◌≡◌, refl, ap, Text, codes, starts_with, join, List, [], ◌∷◌, ◌++◌, true, any, if◌then◌else◌, map,
  Every, inl, inr, Bool-cases,
}
use linyaps_rust.Local.Ini.{
  trim, lines, IniGroup, is_header, parse_line, parse_lines, parse_ini, group_lines, serialize_ini,
  assign, run_command, rewrite_exec, is_exec,
}

lines_kept :
    (ls : List Text) → (parse_lines ls).preamble ++ group_lines (parse_lines ls).groups ≡ ls
unfolding parse_lines group_lines parse_line
lines_kept [] = refl
lines_kept (line ∷ ls) = elim (Bool-cases (is_header (trim line))) [
  | inl header ↦ rw header (ap (λ l. line ∷ l) (lines_kept ls))
  | inr other ↦ rw other (ap (λ l. line ∷ l) (lines_kept ls))
]

-- Parsing and writing a file loses no line, and keeps the order: it only makes every end of a line
-- `\n`, the last one included.
pub serialize-parse :
    (content : Text)
    → serialize_ini (parse_ini content).preamble (parse_ini content).groups
      ≡ join (10 ∷ []) (lines content) ++ 10 ∷ []
unfolding serialize_ini parse_ini
serialize-parse content = ap (λ ls. join (10 ∷ []) ls ++ 10 ∷ []) (lines_kept (lines content))

abbrev pub launcher : Text → Text
launcher app_id = assign (codes "Exec") (run_command app_id)

abbrev pub IsLaunched : Text → Text → Type 0
IsLaunched app_id line = is_exec line ≡ true → starts_with line (launcher app_id) ≡ true

-- The lines of a group behind the first step, which adds a command where there is none.
abbrev with_exec : Text → List Text → List Text
with_exec app_id ls =
    if any is_exec ls
    then map (rewrite_exec app_id) ls
    else map (rewrite_exec app_id) ls ++ launcher app_id ∷ []

-- The rewritten group has a command, and each of its commands starts the application.
pub record Launches (app_id : Text) (g : IniGroup) : Type 0 where
  pub has_command : any is_exec g.lines ≡ true
  pub starts_it : Every (IsLaunched app_id) g.lines
