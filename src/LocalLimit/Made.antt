-- ===== src/LocalLimit/Made.antt =====
-- The patch that inserts the local filter.
use limiter.Prelude.{some, ◌≡◌, refl}
use limiter.Envoy.{Message, Fields, ConfigObjectPatch}
use limiter.Envoy
use limiter.Framework.{Framework}
use limiter.LocalLimit.{
  http_filter_local_patch, listener_limit, generate_http_filter_local_rate_limit_patch,
}

pub local_filter_made :
    (fw : Framework) (encode : Message → Fields)
    → ((m : Message) → fw.message_to_struct m ≡ some (encode m))
    → (p : ConfigObjectPatch) × (generate_http_filter_local_rate_limit_patch fw ≡ some p)
      × (p.apply_to ≡ Envoy.http_filter)
unfolding generate_http_filter_local_rate_limit_patch
local_filter_made fw encode converts = (
  http_filter_local_patch fw (encode (Envoy.local_rate_limit (listener_limit fw))),
  rw (converts, generate_http_filter_local_rate_limit_patch),
  refl,
)
