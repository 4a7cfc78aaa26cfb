-- ===== src/Names/Runs.antt =====
-- Names as peers send them.
use mesh_chat.Prelude.{◌≡◌, refl, [], ◌∷◌, Text}
use mesh_chat.Text.{is_control, is_whitespace}
use mesh_chat.Text.Trim.{trim, trim_by, trim_start_by}
use mesh_chat.Names.{sanitize_name, safe_file_name}
use mesh_chat.Names.FileNames.{IsFileName, safe_file_name-IsFileName}
use mesh_chat.Names.Clean.{IsDisplayName, sanitize_name-IsDisplayName, sanitize_name_fixed}

-- A blank, `A`, a line feed, `b`.
abbrev sent : Text
sent = 32 ∷ 65 ∷ 10 ∷ 98 ∷ []

sanitize_name-IsDisplayName_example : IsDisplayName (sanitize_name sent)
sanitize_name-IsDisplayName_example = sanitize_name-IsDisplayName sent

shown : sanitize_name sent ≡ 65 ∷ 98 ∷ []
unfolding sanitize_name is_control trim trim_by trim_start_by is_whitespace
shown = refl

sanitized_twice : sanitize_name (sanitize_name sent) ≡ sanitize_name sent
sanitized_twice = sanitize_name_fixed (sanitize_name sent) (sanitize_name-IsDisplayName sent)

-- `../a:b.`
safe_file_name-IsFileName_example :
    IsFileName (safe_file_name (46 ∷ 46 ∷ 47 ∷ 97 ∷ 58 ∷ 98 ∷ 46 ∷ []))
safe_file_name-IsFileName_example =
    safe_file_name-IsFileName (46 ∷ 46 ∷ 47 ∷ 97 ∷ 58 ∷ 98 ∷ 46 ∷ [])
