-- ===== src/Contract/Tags.antt =====
-- The names that default: a route tag, a workspace and a git source are trimmed and never blank.
use windforce_lite.Prelude.{
  ◌≡◌, refl, false, not, Option, none, some, if◌then◌else◌, is_nil, Bool-cases, inl, inr,
}
use windforce_lite.Str.{Str, trim_space, trim_space-trim_space}
use windforce_lite.Contract.{
  effective_route_tag, trimmed_tag, normalize_workspace, normalize_git_source_id, default_route_tag,
  default_git_source_id,
}

-- A name that is trimmed and not blank.
abbrev pub IsName : Str → Type 0
IsName s = (trim_space s ≡ s) × (is_nil s ≡ false)

trim_space-IsName : (s : Str) → is_nil (trim_space s) ≡ false → IsName (trim_space s)
trim_space-IsName s h = (trim_space-trim_space s, h)

-- A value counts if it is not blank.
first-IsName :
    (value other : Str)
    → IsName other
    → IsName (if not (is_nil (trim_space value)) then trim_space value else other)
first-IsName value other h = elim (Bool-cases (is_nil (trim_space value))) [
  | inl x ↦ rw x h
  | inr x ↦ rw x (trim_space-IsName value x)
]

first_tag-IsName :
    (tag : Option Str) (other : Str)
    → IsName other
    → IsName (if not (is_nil (trimmed_tag tag)) then trimmed_tag tag else other)
unfolding trimmed_tag
first_tag-IsName none other h = h
first_tag-IsName (some tag) other h = first-IsName tag other h

default_route_tag-IsName : IsName default_route_tag
unfolding trim_space
default_route_tag-IsName = (refl, refl)

default_git_source_id-IsName : IsName default_git_source_id
unfolding trim_space
default_git_source_id-IsName = (refl, refl)

-- A route tag is trimmed and never blank, so a job always has one.
pub effective_route_tag-IsName :
    (tag : Str) (tag_override action_tag action_tag_override : Option Str)
    → IsName (effective_route_tag tag tag_override action_tag action_tag_override)
unfolding effective_route_tag
effective_route_tag-IsName tag o p q = first_tag-IsName q _ (
    first_tag-IsName p _
      (first_tag-IsName o _ (first-IsName tag default_route_tag default_route_tag-IsName)))

pub normalize_workspace-IsName : (value : Str) → IsName (normalize_workspace value)
unfolding normalize_workspace trim_space
normalize_workspace-IsName value = elim (Bool-cases (is_nil (trim_space value))) [
  | inl x ↦ rw x (refl, refl)
  | inr x ↦ rw x (trim_space-IsName value x)
]

pub normalize_git_source_id-IsName : (value app : Str) → IsName (normalize_git_source_id value app)
unfolding normalize_git_source_id
normalize_git_source_id-IsName value app =
    first-IsName value _ (first-IsName app default_git_source_id default_git_source_id-IsName)

-- To normalize a name changes nothing.
pub normalize_workspace-name : (s : Str) → IsName s → normalize_workspace s ≡ s
unfolding normalize_workspace
normalize_workspace-name s h = rw (h.0, h.1) refl

pub normalize_git_source_id-name : (s app : Str) → IsName s → normalize_git_source_id s app ≡ s
unfolding normalize_git_source_id
normalize_git_source_id-name s app h = rw (h.0, h.1) refl

pub normalize_workspace-normalize_workspace :
    (w : Str) → normalize_workspace (normalize_workspace w) ≡ normalize_workspace w
unfolding normalize_workspace trim_space
normalize_workspace-normalize_workspace w = elim (Bool-cases (is_nil (trim_space w))) [
  | inl e ↦ rw e
  | inr e ↦ rw (e, trim_space-trim_space w, e)
]
