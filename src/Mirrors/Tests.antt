-- ===== src/Mirrors/Tests.antt =====
-- The configuration of internal/cache/registries.go for one format.
use regcachectl.Base.{◌≡◌, refl, true, false, [], some, get_elem?}
use regcachectl.Base.Results.{ok}
use regcachectl.Text.{codes, eq, is_empty, contains}
use regcachectl.Upstream.{indexed, index_from, upstreams, quay}
use regcachectl.Engine.{Engine, port}
use regcachectl.Mirrors.{host_or_default, render_okd, okd, format_of, render_as, render}
use regcachectl.Mirrors.Endpoints.{stanza, render-names_mirrors}

abbrev engine : Engine
engine = record { image = []; port_base = 0; port_base_set = false; ports = []; proxy_ttl = [] }

okd_known : format_of (codes "okd") ≡ some okd
unfolding format_of eq is_empty
okd_known = refl

okd_rendered :
    render engine (codes "10.0.0.1") (codes "okd") false
    ≡ ok (render_okd engine (codes "10.0.0.1") false)
unfolding render render_as format_of eq is_empty
okd_rendered = refl

quay_third : get_elem? indexed 2 ≡ some (2, quay)
unfolding indexed index_from upstreams
quay_third = refl

render-names_mirrors_example :
    contains
      (render_okd engine (codes "10.0.0.1") false)
      (stanza okd (host_or_default (codes "10.0.0.1")) (port engine 2 quay) quay)
    ≡ true
render-names_mirrors_example =
    render-names_mirrors engine (codes "10.0.0.1") (codes "okd") false okd
      (render_okd engine (codes "10.0.0.1") false) 2 2 quay okd_known okd_rendered quay_third
