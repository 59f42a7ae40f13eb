-- ===== src/Examples/Yaml.antt =====
-- A way to write and to read the rate limit server's configuration: every text stands after its
-- length, and null items are left out.
use limiter.Prelude.{
  ◌≡◌, refl, ℕ, zero, suc, List, [], ◌∷◌, ◌++◌, Option, none, some, length, map, present,
  present-map,
}
use limiter.Text.{Text}
use limiter.Model
use limiter.Process.ConfigMap.{rate_limit_config}
use limiter.Model.{RateLimit, Descriptor, RateLimitConfig}

put_text : Text → Text → Text
put_text s r = length s ∷ (s ++ r)

take_bytes : ℕ → Text → Text × Text
take_bytes zero t = ([], t)
take_bytes (suc n) [] = ([], [])
take_bytes (suc n) (b ∷ t) = let (s, r) = take_bytes n t in (b ∷ s, r)

read_text : Text → Text × Text
unfolding take_bytes
read_text [] = ([], [])
read_text (n ∷ t) = take_bytes n t

take_bytes-length : (s r : Text) → take_bytes (length s) (s ++ r) ≡ (s, r)
unfolding take_bytes
take_bytes-length [] r = refl
take_bytes-length (b ∷ s) r = rw (take_bytes-length s r) refl

read-put_text : (s r : Text) → read_text (put_text s r) ≡ (s, r)
unfolding read_text put_text
read-put_text s r = take_bytes-length s r

put_limit : Option RateLimit → Text → Text
unfolding put_text
put_limit none r = 0 ∷ r
put_limit (some limit) r = 1 ∷ limit.requests_per_unit ∷ put_text limit.unit r

read_limit : Text → Option RateLimit × Text
unfolding read_text
read_limit [] = (none, [])
read_limit (zero ∷ r) = (none, r)
read_limit (suc n ∷ []) = (none, [])
read_limit (suc n ∷ requests ∷ r) =
    let (unit, r') = read_text r in
    (some (record { requests_per_unit = requests; unit = unit }), r')

read-put_limit : (o : Option RateLimit) (r : Text) → read_limit (put_limit o r) ≡ (o, r)
unfolding read_limit put_limit
read-put_limit none r = refl
read-put_limit (some limit) r = rw (read-put_text limit.unit r) refl

put_items : List Descriptor → Text → Text
unfolding put_text put_limit
put_items [] r = r
put_items (d ∷ ds) r = put_text d.key (put_text d.value (put_limit d.rate_limit (put_items ds r)))

read_items : ℕ → Text → List Descriptor
unfolding read_text read_limit
read_items zero t = []
read_items (suc n) t =
    let (key, t1) = read_text t in
    let (value, t2) = read_text t1 in
    let (limit, t3) = read_limit t2 in
    record { key = key; value = value; rate_limit = limit } ∷ read_items n t3

read-put_items : (ds : List Descriptor) (r : Text) → read_items (length ds) (put_items ds r) ≡ ds
unfolding read_items put_items
read-put_items [] r = refl
read-put_items (d ∷ ds) r =
    rw (read-put_text d.key (put_text d.value (put_limit d.rate_limit (put_items ds r)))) (
      rw (read-put_text d.value (put_limit d.rate_limit (put_items ds r)))
        (rw (read-put_limit d.rate_limit (put_items ds r)) (rw (read-put_items ds r) refl)))

unfoldable pub marshal : RateLimitConfig → Text
unfolding put_text put_items
marshal rc =
    put_text rc.domain (length (present rc.descriptors) ∷ put_items (present rc.descriptors) [])

unmarshal_items : Text → Text → Option (Option RateLimitConfig)
unfolding read_items
unmarshal_items domain [] = none
unmarshal_items domain (n ∷ t) =
    some (some (record { domain = domain; descriptors = map some (read_items n t) }))

unfoldable pub unmarshal : Text → Option (Option RateLimitConfig)
unfolding read_text unmarshal_items
unmarshal t = let (domain, r) = read_text t in unmarshal_items domain r

pub unmarshal-marshal :
    (items : List Descriptor)
    → unmarshal (marshal (rate_limit_config items)) ≡ some (some (rate_limit_config items))
unfolding unmarshal marshal unmarshal_items
unmarshal-marshal items = rw (present-map items) (
    rw (read-put_text Model.domain (length items ∷ put_items items []))
      (rw (read-put_items items []) refl))

-- What is read is never null, and has no null item.
pub unmarshal-map :
    (config : Text) (read : Option RateLimitConfig)
    → unmarshal config ≡ some read
    → (domain : Text) × (items : List Descriptor) × (read
        ≡ some (record { domain = domain; descriptors = map some items }))
unfolding unmarshal unmarshal_items
unmarshal-map config read h = by_text (read_text config) h
  where
    by_text :
        (r : Text × Text)
        → unmarshal_items r.0 r.1 ≡ some read
        → (domain : Text) × (items : List Descriptor) × (read
            ≡ some (record { domain = domain; descriptors = map some items }))
    by_text (domain, []) e = absurd (cc)
    by_text (domain, n ∷ t) e = (domain, read_items n t, cc)
