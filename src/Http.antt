-- ===== src/Http.antt =====
-- What a handler answers through gin: a status, a redirect, a JSON body or raw bytes.
pub mod Router
use filestore_hsz.Prelude.{ℕ, Text, ℤ, Option}

-- `B` is the type of the `data` field of the JSON bodies.
pub data Response (B : Type 0) : Type 0 where
  -- `c.Status`
  status : ℕ → Response B
  -- `c.Redirect`
  redirect : ℕ → Text → Response B
  -- `c.JSON` of code, msg and data, with its status
  json : ℕ → ℤ → Text → Option B → Response B
  -- `c.Data`: the status, the content type and the bytes
  raw : ℕ → Text → Text → Response B
  -- the bytes, with a content-disposition header that names the file
  named : ℕ → Text → Text → Text → Response B
  -- `c.FileAttachment` or `c.File`: the path, and the file name shown
  attachment : Text → Text → Response B
