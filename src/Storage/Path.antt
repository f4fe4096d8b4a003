-- ===== src/Storage/Path.antt =====
-- storage/yanrong.go: paths. package path's Clean of a rooted path and package filepath's Rel between
-- two cleaned rooted paths, on their components, and the functions that use them.
pub mod Parts
pub mod Render
pub mod Prefix
use storage_bot.Base.{
  ℕ, Bool, true, false, not, ◌&&◌, ◌||◌, List, [], ◌∷◌, ◌++◌, reverse, Text, lit, text_eq,
  if◌then◌else◌, has_prefix, split_at, join, trim_space,
}

-- The last component goes; at the root there is none.
pop : List Text → List Text
pop [] = []
pop (p ∷ ps) = ps

-- A component of a rooted path, with those kept before it, the last one first.
step : List Text → Text → List Text
unfolding pop
step stack part =
    if text_eq part [] || text_eq part (b'.' ∷ [])
    then stack
    else if text_eq part (b'.' ∷ b'.' ∷ [])
    then pop stack
    else part ∷ stack

resolve : List Text → List Text → List Text
resolve stack [] = reverse stack
resolve stack (p ∷ ps) = resolve (step stack p) ps

-- The components that Clean leaves of a path that is read from the root.
unfoldable pub parts : Text → List Text
unfolding step resolve
parts p = resolve [] (split_at b'/' [] p)

unfoldable pub render : List Text → Text
render cs = b'/' ∷ join cs (b'/' ∷ [])

-- path.Clean of a path with a leading slash.
unfoldable pub clean : Text → Text
unfolding parts render
clean p = render (parts p)

unfoldable pub normalize_quota_path : Text → Text
unfolding clean
normalize_quota_path p = elim (trim_space p) [
  | [] ↦ b'/' ∷ []
  | c ∷ s ↦
      let rooted : Text = if has_prefix (c ∷ s) (b'/' ∷ []) then c ∷ s else b'/' ∷ c ∷ s in
      let cleaned = clean rooted in if text_eq cleaned (b'.' ∷ []) then b'/' ∷ [] else cleaned
]

-- A step up for each component.
ups : List Text → List Text
ups [] = []
ups (b ∷ bs) = (b'.' ∷ b'.' ∷ []) ∷ ups bs

-- What filepath.Rel leaves from a base to a target: a step up for each component of the base behind
-- the common ones, then the target's.
rel_parts : List Text → List Text → List Text
unfolding ups
rel_parts [] ts = ts
rel_parts (b ∷ bs) [] = ups (b ∷ bs)
rel_parts (b ∷ bs) (t ∷ ts) =
    let further = rel_parts bs ts in if text_eq b t then further else ups (b ∷ bs) ++ t ∷ ts

rel_text : List Text → Text
rel_text [] = b'.' ∷ []
rel_text (c ∷ cs) = join (c ∷ cs) (b'/' ∷ [])

unfoldable pub rel : Text → Text → Text
unfolding parts rel_parts rel_text
rel base target = rel_text (rel_parts (parts base) (parts target))

unfoldable pub path_has_prefix : Text → Text → Bool
unfolding rel
path_has_prefix p prefix =
    let r = rel (normalize_quota_path prefix) (normalize_quota_path p) in
    not (text_eq r (b'.' ∷ b'.' ∷ [])) && not (has_prefix r (b'.' ∷ b'.' ∷ b'/' ∷ []))

unfoldable pub path_strictly_under : Text → Text → Bool
path_strictly_under p prefix =
    if not (path_has_prefix p prefix)
    then false
    else not (text_eq (normalize_quota_path p) (normalize_quota_path prefix))
