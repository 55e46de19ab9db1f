-- ===== src/Text/FilePath.antt =====
-- `std::path::Path` on Unix: components, comparison, `file_name`, `parent`, `join`. A path is its
-- bytes; two paths are equal when their components are.
pub mod Laws
use nyanpasu_utils.Prelude.{
  ℕ, ◌+◌, ◌≡◌, refl, Bool, true, false, not, ◌&&◌, ◌||◌, Option, none, some, List, [], ◌∷◌, ◌++◌,
  Bytes, codes, bytes_eq, ◌==◌, if◌then◌else◌,
}
use nyanpasu_utils.Text.Lines.{split, join}

abbrev pub slash : ℕ
slash = b'/'

pub data Component : Type 0 where
  root_dir cur_dir parent_dir : Component
  normal : Bytes → Component

-- A part between slashes: an empty one and `.` are left out.
abbrev pub part_components : Bytes → List Component → List Component
part_components [] rest = rest
part_components (c ∷ s) rest =
    if bytes_eq (c ∷ s) (codes ".")
    then rest
    else (if bytes_eq (c ∷ s) (codes "..") then parent_dir else normal (c ∷ s)) ∷ rest

pub parts_components : List Bytes → List Component
parts_components [] = []
parts_components (p ∷ ps) = part_components p (parts_components ps)

-- The first part decides: empty before a slash is the root, and a leading `.` is kept.
abbrev pub first_components : List Bytes → List Component
first_components [] = []
first_components ([] ∷ []) = []
first_components ([] ∷ p ∷ ps) = root_dir ∷ parts_components (p ∷ ps)
first_components ((c ∷ s) ∷ ps) =
    if bytes_eq (c ∷ s) (codes ".")
    then cur_dir ∷ parts_components ps
    else parts_components ((c ∷ s) ∷ ps)

-- `path.components()`
unfoldable pub components : Bytes → List Component
unfolding split parts_components bytes_eq
components p = first_components (split slash p)

abbrev pub component_eq : Component → Component → Bool
component_eq root_dir root_dir = true
component_eq cur_dir cur_dir = true
component_eq parent_dir parent_dir = true
component_eq (normal a) (normal b) = bytes_eq a b
component_eq _ _ = false

abbrev pub components_eq : List Component → List Component → Bool
components_eq [] [] = true
components_eq (a ∷ as') (b ∷ bs) = component_eq a b && components_eq as' bs
components_eq _ _ = false

-- `left == right` on paths.
unfoldable pub path_eq : Bytes → Bytes → Bool
unfolding components
path_eq a b = components_eq (components a) (components b)

abbrev pub last_name : List Component → Option Bytes
last_name [] = none
last_name (normal n ∷ []) = some n
last_name (_ ∷ []) = none
last_name (_ ∷ c ∷ cs) = last_name (c ∷ cs)

-- `path.file_name()`
unfoldable pub file_name : Bytes → Option Bytes
unfolding components
file_name p = last_name (components p)

abbrev pub drop_last : List Component → List Component
drop_last [] = []
drop_last (c ∷ []) = []
drop_last (c ∷ d ∷ cs) = c ∷ drop_last (d ∷ cs)

abbrev pub parent_of : List Component → Option (List Component)
parent_of [] = none
parent_of (root_dir ∷ []) = none
parent_of (c ∷ cs) = some (drop_last (c ∷ cs))

-- `path.parent()`, by its components: none for the root and the empty path.
unfoldable pub parent : Bytes → Option (List Component)
unfolding components
parent p = parent_of (components p)

abbrev pub ends_with_slash : Bytes → Bool
ends_with_slash [] = true
ends_with_slash (c ∷ []) = c == slash
ends_with_slash (c ∷ d ∷ s) = ends_with_slash (d ∷ s)

-- `dir.join(name)`, where `name` is relative.
unfoldable pub join_path : Bytes → Bytes → Bytes
join_path dir name = if ends_with_slash dir then dir ++ name else dir ++ slash ∷ name

file_name_runs : file_name (codes "/run/./core-7.pid/") ≡ some (codes "core-7.pid")
unfolding file_name
file_name_runs = refl

file_name_of_parent : file_name (codes "/run/..") ≡ none
unfolding file_name
file_name_of_parent = refl

same_path : path_eq (codes "/run//a/.") (codes "/run/a") ≡ true
unfolding path_eq
same_path = refl

-- A part that no component stands for, behind the first one.
abbrev insignificant : Bytes → Bool
insignificant p = bytes_eq p [] || bytes_eq p (codes ".")

pub trim_end : List Bytes → List Bytes
trim_end [] = []
trim_end (p ∷ ps) = elim (trim_end ps) [
  | [] ↦ if insignificant p then [] else p ∷ []
  | q ∷ qs ↦ p ∷ q ∷ qs
]

abbrev pub drop_end : List Bytes → List Bytes
drop_end [] = []
drop_end (p ∷ []) = []
drop_end (p ∷ q ∷ ps) = p ∷ drop_end (q ∷ ps)

-- The parent's text, from the first part and the rest without its insignificant end.
abbrev pub parent_parts : Bytes → List Bytes → Option Bytes
parent_parts [] [] = none
parent_parts (c ∷ s) [] = some []
parent_parts [] (p ∷ ps) = some (slash ∷ join slash (trim_end (drop_end (p ∷ ps))))
parent_parts (c ∷ s) (p ∷ ps) = some (join slash ((c ∷ s) ∷ trim_end (drop_end (p ∷ ps))))

abbrev pub parent_of_parts : List Bytes → Option Bytes
parent_of_parts [] = none
parent_of_parts (p ∷ ps) = parent_parts p (trim_end ps)

-- `path.parent()`, as a text.
unfoldable pub parent_text : Bytes → Option Bytes
unfolding split join trim_end bytes_eq
parent_text p = parent_of_parts (split slash p)

parent_text_runs : parent_text (codes "/run//a/./b.yaml/") ≡ some (codes "/run//a")
unfolding parent_text
parent_text_runs = refl

parent_text_of_name : parent_text (codes "b.yaml") ≡ some []
unfolding parent_text
parent_text_of_name = refl

parent_text_of_root : parent_text (codes "/") ≡ none
unfolding parent_text
parent_text_of_root = refl
