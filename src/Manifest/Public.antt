-- ===== src/Manifest/Public.antt =====
-- The projection of a manifest that is shown without a login: packages/go/manifest/public.go. The
-- copies of the tags, files and metrics are the values themselves here.
use lab_kit.Manifest.{Manifest}

-- Manifest.Public
unfoldable pub public : Manifest → Manifest
public m = record m { eval = record { image = ""; timeout = m.eval.timeout } }
