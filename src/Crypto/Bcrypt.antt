-- ===== src/Crypto/Bcrypt.antt =====
-- crypto/bcrypt.go: bcrypt hashes. The library golang.org/x/crypto/bcrypt is the argument `Bcrypt`.
use api_security_sdk.Common.{suc, String, Bool, true, false, Option, none, some, Result, ok, err}
use api_security_sdk.Common.Int.{ℤ, pos}
use api_security_sdk.Common.Bytes.{Bytes, utf8}

pub data LibraryError : Type 0 where
  mismatched_hash_and_password : LibraryError
  other_error : String → LibraryError

pub record Bcrypt : Type 0 where
  pub default_cost : ℤ
  pub generate_from_password : Bytes → ℤ → Result LibraryError String
  pub compare_hash_and_password : Bytes → Bytes → Option LibraryError
  pub cost : Bytes → Result LibraryError ℤ

pub data Error : Type 0 where
  hash_failed verify_failed cost_failed : LibraryError → Error

module _ (lib : Bcrypt) where
  -- A cost that is not positive is the default.
  unfoldable pub cost_or_default : ℤ → ℤ
  cost_or_default (pos (suc n)) = pos (suc n)
  cost_or_default _ = lib.default_cost

  unfoldable pub hash_password_bcrypt : String → ℤ → Result Error String
  unfolding cost_or_default
  hash_password_bcrypt password cost =
      elim (lib.generate_from_password (utf8 password) (cost_or_default cost)) [
        | err e ↦ err (hash_failed e)
        | ok hash ↦ ok hash
      ]

  unfoldable pub verify_password_bcrypt : (password hash : String) → Result Error Bool
  verify_password_bcrypt password hash =
      elim (lib.compare_hash_and_password (utf8 hash) (utf8 password)) [
        | none ↦ ok true
        | some mismatched_hash_and_password ↦ ok false
        | some (other_error e) ↦ err (verify_failed (other_error e))
      ]

  unfoldable pub bcrypt_cost : String → Result Error ℤ
  bcrypt_cost hash = elim (lib.cost (utf8 hash)) [ err e ↦ err (cost_failed e) | ok c ↦ ok c ]
