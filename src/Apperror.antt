-- ===== src/Apperror.antt =====
-- backend/internal/apperror/apperror.go, and the error values that the backend passes around.
use sociomile.Prelude.{ℕ, String}

-- `AppError`
pub record AppError : Type 0 where
  pub status : ℕ
  pub code : String
  pub message : String

-- `New`
unfoldable pub new : ℕ → String → String → AppError
new status code message = record { status = status; code = code; message = message }

-- `(*AppError).Error`
pub error_text : AppError → String
error_text e = e.message

-- What an `error` can be: an application error, gorm.ErrRecordNotFound, or any other.
pub data Error : Type 0 where
  app : AppError → Error
  record_not_found : Error
  other : String → Error

-- An error made by `New`, as it is returned.
abbrev pub fails : ℕ → String → String → Error
unfolding new
fails status code message = app (new status code message)
