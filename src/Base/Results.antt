-- ===== src/Base/Results.antt =====
-- The outcome of a Go call: a value, a returned `error`, or a panic (a nil pointer, say).
use mathlib.Core.Path.{◌≡◌, refl}
use mathlib.Core.Logic.{◌⊎◌, inl, inr}

-- The errors that the modelled functions return, named after their messages.
pub data Error : Type 0 where
  has_snapshot not_exist_account not_exist_snapshot_point not_equals_start : Error
  point_check_fail state_error : Error
  fork_chain rollback_fail longest_error current_error pending_something verify_fail fork_version :
      Error
  network_error genesis_diff hash_empty not_exist_block get_by_hash_error rollback_cmd : Error
  modify_error : Error

pub data Result {ℓ} (A : Type ℓ) : Type ℓ where
  ok : A → Result A
  err : Error → Result A
  panic : Result A

infixl 5 ◌>>=◌
abbrev pub ◌>>=◌ {ℓ κ} : {A : Type ℓ} {B : Type κ} → Result A → (A → Result B) → Result B
ok a >>= f = f a
err e >>= f = err e
panic >>= f = panic

pub Result-cases {ℓ} :
    {A : Type ℓ} (r : Result A)
    → ((a : A) × (r ≡ ok a)) ⊎ (((e : Error) × (r ≡ err e)) ⊎ (r ≡ panic))
Result-cases (ok a) = inl (a, refl)
Result-cases (err e) = inr (inl (e, refl))
Result-cases panic = inr (inr refl)
