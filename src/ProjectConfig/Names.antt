-- ===== src/ProjectConfig/Names.antt =====
-- Which names and values an environment variable may have: validateProjectEnvName and
-- validateProjectEnvValue of cmd/brain/project_config.go.
use Prim.Native.String.{[] as empty, ◌∷◌ as ◌◂◌}
use ovek.Common.{
  ℕ, ◌+◌, String, code, Bool, true, false, not, ◌&&◌, ◌||◌, ◌==◌, none, some, ltb, leb, nat_eq,
  trim_space, strip, if◌then◌else◌,
}
use ovek.Store.{
  env_name_required, env_name_too_long, env_name_pattern, env_name_reserved, env_value_too_long,
}
use ovek.Store.Sql.{Result, ok, err}

-- len: the bytes of a text in UTF-8.
unfoldable pub byte_length : String → ℕ
byte_length empty = 0
byte_length (c ◂ s) =
    (if ltb (code c) 0x80
      then 1
      else if ltb (code c) 0x800
      then 2
      else if ltb (code c) 0x10000
      then 3
      else 4)
    + byte_length s

abbrev pub max_project_env_name_length : ℕ
max_project_env_name_length = 255

abbrev pub max_project_env_value_length : ℕ
max_project_env_value_length = 8192

-- [A-Z_]
abbrev pub is_first_char : ℕ → Bool
is_first_char c = (leb b'A' c && leb c b'Z') || nat_eq c b'_'

-- [A-Z0-9_]
abbrev pub is_next_char : ℕ → Bool
is_next_char c = is_first_char c || (leb b'0' c && leb c b'9')

unfoldable pub matches_rest : String → Bool
matches_rest empty = true
matches_rest (c ◂ s) = is_next_char (code c) && matches_rest s

-- ^[A-Z_][A-Z0-9_]*$
unfoldable pub matches_name_pattern : String → Bool
matches_name_pattern empty = false
matches_name_pattern (c ◂ s) = is_first_char (code c) && matches_rest s

-- strings.HasPrefix
abbrev pub has_text_prefix : String → String → Bool
has_text_prefix s prefix = elim (strip s prefix) [ none ↦ false | some _ ↦ true ]

unfoldable pub is_reserved : String → Bool
is_reserved name = name == "PORT" || name == "POCKETBASE_URL" || has_text_prefix name "OVEK_"

unfoldable pub validate_project_env_name : String → Result (Unit {0})
validate_project_env_name name =
    if not (trim_space name == name) || name == ""
    then err env_name_required
    else if ltb max_project_env_name_length (byte_length name)
    then err env_name_too_long
    else if not (matches_name_pattern name)
    then err env_name_pattern
    else if is_reserved name
    then err env_name_reserved
    else ok tt

unfoldable pub validate_project_env_value : String → Result (Unit {0})
validate_project_env_value value =
    if ltb max_project_env_value_length (byte_length value) then err env_value_too_long else ok tt
