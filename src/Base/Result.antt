-- ===== src/Base/Result.antt =====
-- Errors of the API server as values: the classes that the program tells apart, and any other with
-- its text.
use Prim.Native.String.{String}
use mathlib.Core.Bool.{Bool, true, false}

pub data ApiError : Type 0 where
  not_found already_exists conflict no_match : ApiError
  bad_request other : String → ApiError

pub data Result {ℓ} (A : Type ℓ) : Type ℓ where
  ok : A → Result A
  err : ApiError → Result A

-- apierrors.IsNotFound, IsAlreadyExists, IsConflict, IsBadRequest; metameta.IsNoMatchError
abbrev pub is_not_found : ApiError → Bool
is_not_found not_found = true
is_not_found _ = false

abbrev pub is_already_exists : ApiError → Bool
is_already_exists already_exists = true
is_already_exists _ = false

abbrev pub is_conflict : ApiError → Bool
is_conflict conflict = true
is_conflict _ = false

abbrev pub ◌>>=◌ {ℓ κ} : {X : Type ℓ} {Y : Type κ} → Result X → (X → Result Y) → Result Y
err failure >>= then_do = err failure
ok value >>= then_do = then_do value

abbrev pub ◌>>◌ {ℓ κ} : {X : Type ℓ} {Y : Type κ} → Result X → Result Y → Result Y
first >> second = first >>= λ _. second

infixl 5 ◌>>=◌ ◌>>◌
