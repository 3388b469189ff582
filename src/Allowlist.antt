-- ===== src/Allowlist.antt =====
-- internal/repoallowlist/repoallowlist.go: the shared format of the repository allowlist. The set
-- `normalized` is a list without duplicates; Go leaves its iteration order open, and the sort behind
-- it does not see that order (`Prelude.Sorting`).
pub mod Canonical
pub mod Policy
pub mod RoundTrip
mod Examples
use orkano.Prelude.{
  ℕ, ◌+◌, Text, lit, is_empty, join, List, [], ◌∷◌, ◌++◌, Bool, true, false, not, ◌&&◌, ◌||◌, ◌==◌,
  ltb, leb, if◌then◌else◌, length, all_of, Result, ok, err, ◌>>=◌,
}
use orkano.Prelude.Counts.{count}
use orkano.Prelude.Splitting.{split_on}
use orkano.Prelude.Trimming.{trim_space, to_lower}
use orkano.Prelude.Sorting.{sort_texts}

pub data AllowlistError : Type 0 where
  too_many : AllowlistError
  too_long invalid : Text → AllowlistError

abbrev pub max_repository_length : ℕ
max_repository_length = 140

abbrev pub max_repositories : ℕ
max_repositories = 400

-- `[A-Za-z0-9._-]`
unfoldable pub name_byte : ℕ → Bool
name_byte c =
    (leb b'A' c && leb c b'Z')
    || (leb b'a' c && leb c b'z')
    || (leb b'0' c && leb c b'9')
    || c == b'.'
    || c == b'_'
    || c == b'-'

-- `[A-Za-z0-9._-]+$`
abbrev pub repository_part : Text → Bool
repository_part s = not (is_empty s) && all_of name_byte s

-- The pattern from a place in its first part; `begun` says that the part has a byte.
unfoldable pub owner_part : Bool → Text → Bool
owner_part begun [] = false
owner_part begun (c ∷ s) =
    let rest = owner_part true s in
    if c == b'/' then begun && repository_part s else name_byte c && rest

-- `repositoryPattern.MatchString`
unfoldable pub matches : Text → Bool
unfolding owner_part
matches s = owner_part false s

-- `normalized[repository] = struct{}{}`
unfoldable pub add : Text → List Text → List Text
add x set = if ltb 0 (count x set) then set else set ++ x ∷ []

module _ (unicode_lower : Text → Text) where
  -- The loop of `Normalize`, on a trimmed entry; `next` is the rest of the loop.
  unfoldable pub take_entry :
      Text
      → List Text
      → ℕ
      → (List Text → ℕ → Result AllowlistError (List Text))
      → Result AllowlistError (List Text)
  unfolding add
  take_entry repository set non_empty next =
      if is_empty repository
      then next set non_empty
      else if ltb max_repositories (non_empty + 1)
      then err too_many
      else if ltb max_repository_length (length repository)
      then err (too_long repository)
      else if not (matches repository)
      then err (invalid repository)
      else next (add (to_lower unicode_lower repository) set) (non_empty + 1)

  unfoldable pub collect : List Text → List Text → ℕ → Result AllowlistError (List Text)
  unfolding take_entry
  collect [] set non_empty = ok set
  collect (r ∷ rs) set non_empty = take_entry (trim_space r) set non_empty (collect rs)

  unfoldable pub normalize : List Text → Result AllowlistError (List Text)
  unfolding collect
  normalize repositories = do set ← collect repositories [] 0; ok (sort_texts set)

  unfoldable pub parse : Text → Result AllowlistError (List Text)
  unfolding normalize
  parse raw = normalize (split_on b'\n' raw)

  abbrev pub lines : List Text → Text
  lines [] = []
  lines (p ∷ ps) = join (b'\n' ∷ []) (p ∷ ps) ++ b'\n' ∷ []

  unfoldable pub format : List Text → Result AllowlistError Text
  unfolding normalize
  format repositories = do normalized ← normalize repositories; ok (lines normalized)
