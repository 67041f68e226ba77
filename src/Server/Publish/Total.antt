-- ===== src/Server/Publish/Total.antt =====
-- backend/server.js, POST /publish-validation-ens: when rows are chosen.
use sealed_sky_verification.Common.Text.{Text}
use sealed_sky_verification.Codec.{Codec}
use sealed_sky_verification.Json.{Json}
