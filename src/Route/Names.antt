-- ===== src/Route/Names.antt =====
-- The names of the routes that a target gives.
use limiter.Prelude.{
  List, [], ◌∷◌, ◌++◌, map, Bool, none, some, keep_if, keep_if-append, ◌≡◌, ◌≢◌, refl, ap, ◌∙◌, sym,
  arith, eqb, length, All,
}
use mathlib.Core.Path.{ap₂}
use mathlib.Core.List.{map-append}
use limiter.Text.{Text}
use limiter.Text.Split.{split, count, length-split, join, join-split}
use limiter.Api.{elements, Target}
use limiter.Route.{gen_vhost_route_name, config_of_parts, configs_of_routes, generate_route_configs}

-- A route of the form vhost/route: one slash.
abbrev pub is_vhost_route : Text → Bool
is_vhost_route route = eqb (count route b'/') 1

two_parts : (route v r : Text) → split route b'/' ≡ v ∷ r ∷ [] → v ++ (b'/' ∷ r) ≡ route
unfolding join
two_parts route v r e = ap (λ ps. join ps (b'/' ∷ [])) (sym e) ∙ join-split route b'/'

names-config_of_parts :
    (direction route : Text) (parts : List Text)
    → split route b'/' ≡ parts
    → map gen_vhost_route_name (config_of_parts direction parts)
      ≡ keep_if is_vhost_route (route ∷ [])
unfolding config_of_parts gen_vhost_route_name
names-config_of_parts direction route [] e =
    absurd (ground (arith, length-split route b'/', ap length e))
names-config_of_parts direction route (v ∷ []) e =
    ground (arith, length-split route b'/', ap length e)
names-config_of_parts direction route (v ∷ r ∷ []) e =
    ground (arith, length-split route b'/', ap length e, two_parts route v r e)
names-config_of_parts direction route (v ∷ r ∷ x ∷ xs) e =
    ground (arith, length-split route b'/', ap length e)

names-configs_of_routes :
    (direction : Text) (routes : List Text)
    → map gen_vhost_route_name (configs_of_routes direction routes) ≡ keep_if is_vhost_route routes
unfolding configs_of_routes
names-configs_of_routes direction [] = refl
names-configs_of_routes direction (route ∷ routes) =
    map-append gen_vhost_route_name (config_of_parts direction (split route b'/')) _
    ∙ ap₂ (◌++◌) (names-config_of_parts direction route (split route b'/') refl)
        (names-configs_of_routes direction routes)
    ∙ sym (keep_if-append is_vhost_route (route ∷ []) routes)

-- A target with routes limits exactly its routes of the form vhost/route, under their own names and
-- in their order; any other route is left out.
pub names-generate_route_configs :
    (target : Target)
    → elements target.route ≢ []
    → map gen_vhost_route_name (generate_route_configs (some target))
      ≡ keep_if is_vhost_route (elements target.route)
unfolding generate_route_configs
names-generate_route_configs target h =
    ground (arith, names-configs_of_routes target.direction (elements target.route))

-- Every route of a target with routes carries the target's direction.
directions-config_of_parts :
    (direction : Text) (parts : List Text)
    → All (λ rc. (rc.direction ≡ direction) × (rc.action ≡ none)) (config_of_parts direction parts)
unfolding config_of_parts
directions-config_of_parts direction [] = tt
directions-config_of_parts direction (v ∷ []) = tt
directions-config_of_parts direction (v ∷ r ∷ []) = ((refl, refl), tt)
directions-config_of_parts direction (v ∷ r ∷ x ∷ xs) = tt
