-- ===== src/Kube/Client.antt =====
-- The client of the API server (controller-runtime's `client.Client`) as an interface, and the
-- error values that come back. `S` is all that stands outside the process.
use seam_core.Prelude.{String, Bool, true, false}

pub data ApiError : Type 0 where
  not_found already_exists : ApiError
  failure : String → ApiError

-- `wrap p e` is `fmt.Errorf(p + ": %w", e)`; `message` is `fmt.Errorf` of a text.
pub data Error : Type 0 where
  api : ApiError → Error
  wrap : String → Error → Error
  message : String → Error

pub data Result {ℓ} (A : Type ℓ) : Type ℓ where
  ok : A → Result A
  err : Error → Result A

-- apierrors.IsNotFound
abbrev pub is_not_found : Error → Bool
is_not_found (api not_found) = true
is_not_found (api _) = false
is_not_found (wrap p e) = is_not_found e
is_not_found (message m) = false

-- apierrors.IsAlreadyExists
abbrev pub is_already_exists : Error → Bool
is_already_exists (api already_exists) = true
is_already_exists (api _) = false
is_already_exists (wrap p e) = is_already_exists e
is_already_exists (message m) = false

abbrev pub Api : Type 0 → Type 0 → Type 0
Api S A = S → Result A × S

module _ {S : Type 0} where
  abbrev pub pure : {A : Type 0} → A → Api S A
  pure a s = (ok a, s)

  abbrev pub raise : {A : Type 0} → Error → Api S A
  raise e s = (err e, s)

  -- `if a, err := m; err == nil { f(a) } else { g(err) }`
  abbrev pub on_result :
      {A B : Type 0} → (A → Api S B) → (Error → Api S B) → Result A × S → Result B × S
  on_result f g (ok a, s) = f a s
  on_result f g (err e, s) = g e s

  abbrev pub try_or : {A B : Type 0} → Api S A → (A → Api S B) → (Error → Api S B) → Api S B
  try_or m f g s = on_result f g (m s)

  infixl 5 ◌>>=◌ ◌>>◌
  abbrev pub ◌>>=◌ : {A B : Type 0} → Api S A → (A → Api S B) → Api S B
  ◌>>=◌ m f = try_or m f raise

  abbrev pub ◌>>◌ : {B : Type 0} → Api S (Unit {0}) → Api S B → Api S B
  ◌>>◌ m k = try_or m (λ _. k) raise

  -- An error of `m` is returned under a prefix.
  abbrev pub within : {A : Type 0} → String → Api S A → Api S A
  within p m = try_or m pure (λ e. raise (wrap p e))

-- The calls for objects of one type `V` with keys `K`. `patch old new` is
-- `Patch(ctx, new, client.MergeFrom(old))`, and `update` is `Update(ctx, new)`.
pub record ObjectClient (S K V : Type 0) : Type 0 where
  pub fetch : K → Api S V
  pub create : V → Api S (Unit {0})
  pub patch : V → V → Api S (Unit {0})
  pub update : V → Api S (Unit {0})
