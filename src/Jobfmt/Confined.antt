-- ===== src/Jobfmt/Confined.antt =====
-- crates/jobfmt/src/lib.rs: `confined_name`, and the parts of a Unix path as `Path::components` gives
-- them: the pieces between slashes, without the empty ones and without dots behind the first.
pub mod Plain
use provework.Prelude.{
  ℕ, Bytes, List, [], ◌∷◌, ◌++◌, Bool, true, false, not, ◌&&◌, if◌then◌else◌, ◌==◌, any, bytes_eq,
  text,
}

abbrev pub slash : ℕ
slash = 47

abbrev pub backslash : ℕ
backslash = 92

pub data Component : Type 0 where
  cur_dir : Component
  parent_dir : Component
  normal : Bytes → Component

-- The pieces between slashes, the one before the first slash held back to the end of the call.
unfoldable pub pieces : Bytes → Bytes → List Bytes
pieces piece [] = piece ∷ []
pieces piece (c ∷ cs) =
    let next = piece ∷ pieces [] cs in
    let more = pieces (piece ++ c ∷ []) cs in if c == slash then next else more

-- The components behind the first piece.
unfoldable pub later_components : List Bytes → List Component
later_components [] = []
later_components (p ∷ ps) =
    let rest = later_components ps in
    if bytes_eq p []
    then rest
    else if bytes_eq p (text ".")
    then rest
    else if bytes_eq p (text "..")
    then parent_dir ∷ rest
    else normal p ∷ rest

-- The components of a relative path.
unfoldable pub components : List Bytes → List Component
unfolding later_components
components [] = []
components (p ∷ ps) =
    if bytes_eq p (text ".") then cur_dir ∷ later_components ps else later_components (p ∷ ps)

unfoldable pub is_relative : Bytes → Bool
is_relative [] = true
is_relative (c ∷ cs) = not (c == slash)

abbrev pub one_normal : List Component → Bool
one_normal (normal _ ∷ []) = true
one_normal _ = false

unfoldable pub confined_name : Bytes → Bool
unfolding pieces components is_relative
confined_name name =
    if any (λ c. c == backslash) name
    then false
    else is_relative name && one_normal (components (pieces [] name))
