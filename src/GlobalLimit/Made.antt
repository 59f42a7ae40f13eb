-- ===== src/GlobalLimit/Made.antt =====
-- The patch that inserts the filter of the rate limit server.
use limiter.Prelude.{some, ◌≡◌, refl}
use limiter.Text.{Text}
use limiter.Envoy.{Message, Fields, ConfigObjectPatch}
use limiter.Envoy
use limiter.Framework.{Framework}
use limiter.GlobalLimit.{
  http_filter_global_patch, generate_rate_limit_service,
  generate_envoy_http_filter_global_rate_limit_patch,
}

pub global_filter_made :
    (fw : Framework) (encode : Message → Fields)
    → ((m : Message) → fw.message_to_struct m ≡ some (encode m))
    → (server : Text)
    → (p : ConfigObjectPatch) × (generate_envoy_http_filter_global_rate_limit_patch fw server
        ≡ some p)
      × (p.apply_to ≡ Envoy.http_filter)
unfolding generate_envoy_http_filter_global_rate_limit_patch
global_filter_made fw encode converts server = (
  http_filter_global_patch fw (encode (generate_rate_limit_service server)),
  rw (converts, generate_envoy_http_filter_global_rate_limit_patch),
  refl,
)
