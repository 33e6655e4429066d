-- ===== src/Utils/Files.antt =====
-- The files of UDP01/OldCode/Utils/Utils.cpp: loading one, and making the directories of a path.
pub mod Directories
use socket_cplus_plus.Prelude.{
  ℕ, zero, suc, ◌+◌, ◌≡◌, refl, sym, ap, ◌∙◌, Bool, true, false, Option, none, some, List, [], ◌∷◌,
  ◌++◌, length, All, replicate, ◌==◌, if◌then◌else◌, Bool-cases, inl, inr, arith,
}
use socket_cplus_plus.Serialize.{c_string}
use socket_cplus_plus.Utils.{Text}

-- The file's bytes, where it opens. The string is built from the buffer, up to the first zero.
pub open_and_load_file : Option (List ℕ) → List ℕ
open_and_load_file none = []
open_and_load_file (some bytes) = c_string (bytes ++ (0 ∷ []))

-- What stat answers of a file: the time of its last change, or `none` for an error.
pub does_file_exist : Option ℕ → Bool
does_file_exist none = false
does_file_exist (some st_mtime) = true

pub get_file_modification_time : Option ℕ → ℕ
get_file_modification_time none = 0
get_file_modification_time (some st_mtime) = st_mtime

-- What mkdir of a path answers.
pub data Made : Type 0 where
  made : Made
  exists : Made
  failed : Made

-- The loop over the slashes from a place on, `at_start` at the first one. mkdir's answers are in the
-- order of its calls. The result is what the function returns, and the paths of the calls; `none` is a
-- want of answers.
pub make_each : Text → Text → Bool → List Made → Option (Bool × List Text)
make_each dir_path [] at_start answers = some (false, [])
make_each dir_path (c ∷ rest) at_start [] =
    let on = make_each dir_path rest false [] in
    if c == 47 then (if at_start then on else none) else on
make_each dir_path (c ∷ rest) at_start (answer ∷ answers) =
    let skipped = make_each dir_path rest false (answer ∷ answers) in
    let called : Option (Bool × List Text) = elim (make_each dir_path rest false answers) [
      | none ↦ none
      | some (result, paths) ↦ some (result, dir_path ∷ paths)
    ] in
    let stopped : Option (Bool × List Text) = elim answer [
      | made ↦ called
      | exists ↦ called
      | failed ↦ some (true, dir_path ∷ [])
    ] in
    if c == 47 then (if at_start then skipped else stopped) else skipped

unfoldable pub ends_in_slash : Text → Bool
ends_in_slash [] = false
ends_in_slash (c ∷ []) = c == 47
ends_in_slash (c ∷ d ∷ rest) = ends_in_slash (d ∷ rest)

unfoldable pub with_slash : Text → Text
with_slash dir_path = if ends_in_slash dir_path then dir_path else dir_path ++ (47 ∷ [])

-- The last character of an empty path is outside it.
pub create_sub_directory : Text → List Made → Option (Bool × List Text)
create_sub_directory [] answers = none
create_sub_directory (c ∷ rest) answers =
    make_each (with_slash (c ∷ rest)) (with_slash (c ∷ rest)) true answers
