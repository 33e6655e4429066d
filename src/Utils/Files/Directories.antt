-- ===== src/Utils/Files/Directories.antt =====
-- What CreateSubDirectory asks of mkdir.
use socket_cplus_plus.Prelude.{
  ℕ, zero, suc, ◌≡◌, refl, ◌∙◌, Bool, true, false, Option, none, some, List, [], ◌∷◌, replicate,
  drop, ◌==◌, if◌then◌else◌, Bool-cases, inl, inr,
}
use socket_cplus_plus.Utils.{Text}
use socket_cplus_plus.Utils.Files.{
  Made, made, exists, failed, make_each, with_slash, create_sub_directory,
}

abbrev pub slashes : Text → ℕ
slashes [] = 0
slashes (c ∷ rest) = if c == 47 then suc (slashes rest) else slashes rest

abbrev one_more : Option (Bool × ℕ) → Option (Bool × ℕ)
one_more none = none
one_more (some (result, calls)) = some (result, suc calls)

-- Up to so many calls, until one fails: whether one did, and how many there were.
abbrev pub tries : ℕ → List Made → Option (Bool × ℕ)
tries zero answers = some (false, 0)
tries (suc n) [] = none
tries (suc n) (made ∷ answers) = one_more (tries n answers)
tries (suc n) (exists ∷ answers) = one_more (tries n answers)
tries (suc n) (failed ∷ answers) = some (true, 1)

-- Calls that are all for one path.
abbrev pub all_for : Text → Option (Bool × ℕ) → Option (Bool × List Text)
all_for path none = none
all_for path (some (result, calls)) = some (result, replicate calls path)

abbrev called : Text → Option (Bool × List Text) → Option (Bool × List Text)
called path r = elim r [ none ↦ none | some (result, paths) ↦ some (result, path ∷ paths) ]

called-all_for :
    (path : Text) (r : Option (Bool × ℕ)) → called path (all_for path r) ≡ all_for path (one_more r)
called-all_for path none = refl
called-all_for path (some (result, calls)) = refl

make_each_lem :
    (path rest : Text) (answers : List Made)
    → make_each path rest false answers ≡ all_for path (tries (slashes rest) answers)
unfolding make_each
make_each_lem path [] answers = refl
make_each_lem path (c ∷ rest) [] = elim (Bool-cases (c == 47)) [
  | inl slash ↦ rw slash
  | inr other ↦ rw other (make_each_lem path rest [])
]
make_each_lem path (c ∷ rest) (made ∷ answers) = elim (Bool-cases (c == 47)) [
  | inl slash ↦
      rw (slash, make_each_lem path rest answers)
        (called-all_for path (tries (slashes rest) answers))
  | inr other ↦ rw other (make_each_lem path rest (made ∷ answers))
]
make_each_lem path (c ∷ rest) (exists ∷ answers) = elim (Bool-cases (c == 47)) [
  | inl slash ↦
      rw (slash, make_each_lem path rest answers)
        (called-all_for path (tries (slashes rest) answers))
  | inr other ↦ rw other (make_each_lem path rest (exists ∷ answers))
]
make_each_lem path (c ∷ rest) (failed ∷ answers) = elim (Bool-cases (c == 47)) [
  | inl slash ↦ rw slash
  | inr other ↦ rw other (make_each_lem path rest (failed ∷ answers))
]

make_each_start :
    (path text : Text) (answers : List Made)
    → make_each path text true answers ≡ make_each path (drop 1 text) false answers
unfolding make_each
make_each_start path [] answers = refl
make_each_start path (c ∷ rest) [] = elim (Bool-cases (c == 47)) [
  | inl slash ↦ rw slash
  | inr other ↦ rw other
]
make_each_start path (c ∷ rest) (answer ∷ answers) = elim (Bool-cases (c == 47)) [
  | inl slash ↦ rw slash
  | inr other ↦ rw other
]

-- CreateSubDirectory of a path asks for the whole path, with a slash at its end, in every call of
-- mkdir: as often as that has slashes behind its first character, or until a call fails for another
-- reason than that the directory exists. It answers whether one did. No directory on the way is made.
pub create_sub_directory_lem :
    (c : ℕ) (rest : Text) (answers : List Made)
    → create_sub_directory (c ∷ rest) answers
      ≡ all_for (with_slash (c ∷ rest)) (tries (slashes (drop 1 (with_slash (c ∷ rest)))) answers)
unfolding create_sub_directory
create_sub_directory_lem c rest answers =
    let path = with_slash (c ∷ rest) in
    make_each_start path path answers ∙ make_each_lem path (drop 1 path) answers
