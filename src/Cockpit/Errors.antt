-- ===== src/Cockpit/Errors.antt =====
-- apps/backend/app/cockpit/errors.py.
use supersonic.Prelude.{ℕ, String}

pub record CommandRejected : Type 0 where
  pub code : String
  pub message : String
  pub status_code : ℕ

-- `CommandRejected(code, message)`, with the default status.
abbrev pub rejected : String → String → CommandRejected
rejected code message = record { code = code; message = message; status_code = 400 }

abbrev pub rejected_with : ℕ → String → String → CommandRejected
rejected_with status code message = record { code = code; message = message; status_code = status }
