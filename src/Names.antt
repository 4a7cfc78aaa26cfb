-- ===== src/Names.antt =====
-- Names that come from other people: `sanitize_name` and `normalize_code` of core/src/mesh.rs, and
-- `safe_file_name` of core/src/files.rs.
pub mod Clean
pub mod FileNames
mod Runs
use mesh_chat.Prelude.{
  ℕ, zero, suc, ◌≤◌, ◌≡◌, Text, text, List, [], ◌∷◌, map, keep, take, any, ◌==◌, ◌||◌, ◌&&◌, not,
  Bool, true, false, if◌then◌else◌,
}
use mesh_chat.Text.{is_control, is_ascii_alphanumeric, to_ascii_uppercase, is_empty}
use mesh_chat.Text.Trim.{trim, trim_dots}

abbrev or_default_name : Text → Text → Text
or_default_name name [] = name
or_default_name name (c ∷ s) = c ∷ s

-- Short, on one line and printable.
unfoldable pub sanitize_name : Text → Text
sanitize_name name =
    or_default_name (text "Anonymous") (trim (take 32 (keep (λ c. not (is_control c)) name)))

unfoldable pub normalize_code : Text → Text
normalize_code code = map to_ascii_uppercase (keep is_ascii_alphanumeric code)

abbrev pub is_separator : ℕ → Bool
is_separator c = c == b'/' || c == b'\\'

-- `rsplit(..).next()`: what follows the last separator, or the whole.
unfoldable pub base_name : Text → Text
base_name [] = []
base_name (c ∷ s) = if is_separator c || any is_separator s then base_name s else c ∷ s

-- The characters that Windows does not allow in a name.
abbrev pub is_forbidden : ℕ → Bool
is_forbidden c =
    c == b':' || c == b'*' || c == b'?' || c == 34 || c == b'<' || c == b'>' || c == b'|'

-- Without the directories that a remote peer might have put in a file name.
unfoldable pub safe_file_name : Text → Text
safe_file_name name = or_default_name (text "received.bin") (
    trim_dots
      (trim (take 120 (keep (λ c. not (is_control c) && not (is_forbidden c)) (base_name name)))))
