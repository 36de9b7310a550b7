-- ===== src/Wnet/Backend.antt =====
-- internal/wnet/backend.go: the interface `Backend`. `W` is the world that its methods read and
-- change: the wifi daemon, the kernel and the network. The context argument is left out.
use wfm.Prelude.{Bool, List, Text, ◌≡◌, refl, arith}
use wfm.Wnet.Types.{Error, Interface, Ap, Profile, ProfileSpec, ProfilePatch, Active, Status}

pub data Result {ℓ} (A : Type ℓ) : Type ℓ where
  ok : A → Result A
  err : Error → Result A

-- A call that may fail and may change the world.
abbrev pub Action : Type 0 → Type 0 → Type 0
Action W A = W → Result A × W

abbrev pub after : {W A B : Type 0} → (A → Action W B) → Result A × W → Result B × W
after f (ok a, w) = f a w
after f (err e, w) = (err e, w)

infixl 5 ◌>>=◌
abbrev pub ◌>>=◌ : {W A B : Type 0} → Action W A → (A → Action W B) → Action W B
◌>>=◌ m f w = after f (m w)

abbrev pub return : {W A : Type 0} → A → Action W A
return a w = (ok a, w)

abbrev pub fail : {W A : Type 0} → Error → Action W A
fail e w = (err e, w)

-- A chain that succeeds passes through a first call that succeeds.
pub after-ok :
    {W A B : Type 0} (f : A → Action W B) (r : Result A × W) (b : B) (w2 : W)
    → after f r ≡ (ok b, w2)
    → (a : A) × (w1 : W) × (r ≡ (ok a, w1)) × (f a w1 ≡ (ok b, w2))
after-ok f (ok a, w1) b w2 e = (a, w1, refl, e)
after-ok f (err x, w1) b w2 e = absurd (ground (arith, e))

-- What `Watch` returns is the statuses sent on its channel until it is closed.
pub record Backend (W : Type 0) : Type 0 where
  pub interfaces : Action W (List Interface)
  pub interface : Text → Action W Interface
  pub set_power : Text → Bool → Action W Interface
  pub scan : Text → Action W (List Ap)
  pub profiles : Action W (List Profile)
  pub profile : Text → Action W Profile
  pub add_profile : ProfileSpec → Action W Profile
  pub patch_profile : Text → ProfilePatch → Action W Profile
  pub delete_profile : Text → Action W (Unit {0})
  pub activate : Text → Text → Text → Action W Active
  pub deactivate : Text → Action W (Unit {0})
  pub connections : Action W (List Active)
  pub connection : Text → Action W Active
  pub status : Text → Action W Status
  pub watch : Text → Action W (List Status)
  pub close : Action W (Unit {0})
