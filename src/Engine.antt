-- ===== src/Engine.antt =====
-- `Engine` of internal/cache/cache.go: the ports, the images and the names of the fleet.
use regcachectl.Base.{
  ◌≡◌, ℕ, ◌+◌, ◌-◌, ◌<◌, Bool, true, not, ◌&&◌, List, [], ◌∷◌, ◌++◌, Option, none, some, arith,
  if◌then◌else◌, ltb, ◌==◌,
}
use regcachectl.Text.{Text, codes, is_empty, itoa}
use regcachectl.Dict.{Dict, get}
use regcachectl.Upstream.{Upstream, indexed}

-- `ports`: what `DiscoverPorts` found. `proxy_ttl` is the printed duration.
pub record Engine : Type 0 where
  pub image : Text
  pub port_base : ℕ
  pub port_base_set : Bool
  pub ports : Dict ℕ
  pub proxy_ttl : Text

unfoldable pub registry_image : Text
registry_image = codes "registry:3.1.2"

unfoldable pub blobcache_image : Text
blobcache_image = codes "regcache-blobcache:latest"

unfoldable pub image_name : Engine → Text
image_name e = if is_empty e.image then registry_image else e.image

abbrev pub default_port_base : ℕ
default_port_base = 5000

unfoldable pub base_port : Engine → ℕ
base_port e = if e.port_base == 0 then default_port_base else e.port_base

found_port : ℕ → Option ℕ → ℕ
found_port p none = p
found_port p (some q) = if ltb 0 q then q else p

-- `Port`, at an index `i` of the table and its upstream `u`
unfoldable pub port : Engine → ℕ → Upstream → ℕ
unfolding found_port base_port
port e i u =
    if e.port_base_set then base_port e + i else found_port (base_port e + i) (get u.name e.ports)

unfoldable pub container : Upstream → Text
container u = codes "regcache-" ++ u.name

unfoldable pub volume : Upstream → Text
volume u = codes "tmm-regcache-" ++ u.name

-- a cache that runs on another port than the one asked for: its name, that port, and the other
pub record Mismatch : Type 0 where
  pub name : Text
  pub runs_on : ℕ
  pub asked : ℕ

mismatch : Engine → ℕ → Upstream → Option ℕ → List Mismatch
mismatch e i u none = []
mismatch e i u (some p) =
    if ltb 0 p && not (p == base_port e + i)
    then record { name = u.name; runs_on = p; asked = base_port e + i } ∷ []
    else []

mismatches : Engine → List (ℕ × Upstream) → List Mismatch
unfolding mismatch base_port
mismatches e [] = []
mismatches e ((i, u) ∷ us) = mismatch e i u (get u.name e.ports) ++ mismatches e us

-- `PortMismatch`, before its lines are printed
unfoldable pub port_mismatch : Engine → List Mismatch
unfolding mismatches
port_mismatch e = mismatches e indexed

pub mismatch_line : Mismatch → Text
mismatch_line m =
    m.name ++ (codes " runs on :" ++ (itoa m.runs_on ++ (codes ", not :" ++ itoa m.asked)))

-- With an explicit base the ports of two caches differ, and follow their indices.
pub port_explicit :
    (e : Engine) (i j : ℕ) (u v : Upstream)
    → e.port_base_set ≡ true
    → i < j
    → (port e j v ≡ port e i u + (j - i)) × (port e i u < port e j v)
unfolding port
port_explicit e i j u v h lt = ground arith
