-- ===== src/Wnet/Exclude/Spec.antt =====
-- What the rules of internal/wnet/exclude.go promise, stated without the code's loops and flags.
use wfm.Prelude.{List, [], ◌∷◌, ◌++◌, ◌≡◌, ◌≢◌, ◌⊎◌, Text, to_lower, trim_space, Any}
use wfm.Wnet.Types.{Interface}
use wfm.Wnet.Backend.{ok}
use wfm.Wnet.Exclude.{ExcludeRule, normalize_mac, validate}

-- The configured address names the device: it is equal up to case, or equal to what follows a
-- colon in the device's address.
abbrev pub SamePci : Text → Text → Type 0
SamePci rule actual =
    let rule' = to_lower (trim_space rule) in
    (actual ≢ [])
    × ((rule' ≡ to_lower actual) ⊎ ((domain : Text) × (to_lower actual ≡ domain ++ b':' ∷ rule')))

-- An interface satisfies every field that the rule sets, and the rule sets one.
pub record Matches (r : ExcludeRule) (name mac pci : Text) : Type 0 where
  pub pins : (r.name ≢ []) ⊎ (r.mac ≢ []) ⊎ (r.pci ≢ [])
  pub same_name : r.name ≢ [] → r.name ≡ name
  pub same_mac : r.mac ≢ [] → normalize_mac r.mac ≡ normalize_mac mac
  pub same_pci : r.pci ≢ [] → SamePci r.pci pci

abbrev pub Hidden : List ExcludeRule → Interface → Type 0
Hidden rules it = Any (λ r. Matches r it.name it.mac it.pci) rules

-- The rules that hide an interface by its name alone.
abbrev pub HiddenByName : List ExcludeRule → Text → Type 0
HiddenByName rules name =
    Any (λ r. (r.name ≡ name) × (r.name ≢ []) × (r.mac ≡ []) × (r.pci ≡ [])) rules

abbrev pub IsValidRule : ExcludeRule → Type 0
IsValidRule r = validate r ≡ ok tt

-- The entries of the first list for which `P` fails, in order.
pub data Without {A : Type 0} (P : A → Type 0) : List A → List A → Type 0 where
  nil : Without P [] []
  drop : {x : A} {xs ys : List A} → P x → Without P xs ys → Without P (x ∷ xs) ys
  take : {x : A} {xs ys : List A} → ¬ P x → Without P xs ys → Without P (x ∷ xs) (x ∷ ys)
