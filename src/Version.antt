-- ===== src/Version.antt =====
-- src/core/version.c: the version. mgStatusString is in `Types`.
use metal_graph.Base.{ℕ, String}

-- mg_version_t.
pub record Version : Type 0 where
  pub major : ℕ
  pub minor : ℕ
  pub patch : ℕ

-- mgVersion.
unfoldable pub version : Version
version = record { major = 0; minor = 1; patch = 0 }

-- mgVersionString.
unfoldable pub version_string : String
version_string = "0.1.0"
