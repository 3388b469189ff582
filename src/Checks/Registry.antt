-- ===== src/Checks/Registry.antt =====
-- internal/checks/registry.go: the set of checks that are registered.
pub mod Soundness
use orkano.Prelude.{
  ℕ, Text, text_eq, text_eq_iff, is_empty, ◌≡◌, List, [], ◌∷◌, ◌++◌, Option, none, some, Bool, true,
  false, not, ltb, if◌then◌else◌, is_some, length, any_of, Result, ok, ◌>>◌, guard, arith,
}
use orkano.Prelude.Maps.{lookup, insert}
use orkano.Checks.{Check, Severity, critical, warning, info}

pub data RegisterError : Type 0 where
  empty_id : RegisterError
  no_probe invalid_severity duplicate_id : Text → RegisterError

pub record Registry (W : Type 0) : Type 0 where
  pub by_id : List (Text × Check W)
  pub order : List Text

abbrev pub new : {W : Type 0} → Registry W
new = record { by_id = []; order = [] }

abbrev contains : Text → List Text → Bool
contains x = any_of (text_eq x)

dedupe_from : List Text → List Text → List Text
dedupe_from seen [] = []
dedupe_from seen (id ∷ ids) =
    let skip = dedupe_from seen ids in
    let keep = id ∷ dedupe_from (id ∷ seen) ids in if contains id seen then skip else keep

unfoldable pub dedupe : List Text → List Text
unfolding dedupe_from
dedupe ids = if ltb (length ids) 2 then ids else dedupe_from [] ids

abbrev pub known_severity : Severity → Bool
known_severity critical = true
known_severity warning = true
known_severity info = true
known_severity _ = false

module _ {W : Type 0} where
  abbrev pub get : Registry W → Text → Option (Check W)
  get r id = lookup id r.by_id

  abbrev pub len : Registry W → ℕ
  len r = length r.order

  unfoldable pub register : Registry W → Check W → Result RegisterError (Registry W)
  register r c = do
    guard (not (is_empty c.id)) empty_id
    guard (is_some c.probe) (no_probe c.id)
    guard (known_severity c.severity) (invalid_severity c.id)
    guard (not (is_some (get r c.id))) (duplicate_id c.id)
    let kept = record c { requires = dedupe c.requires }
    ok (record r { by_id = insert c.id kept r.by_id; order = r.order ++ c.id ∷ [] })
