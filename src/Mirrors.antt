-- ===== src/Mirrors.antt =====
-- `Render`, `RenderRegistries`, `RenderCRIO` and `RenderOKD` of internal/cache/registries.go.
pub mod Endpoints
mod Tests
use regcachectl.Base.{
  ℕ, Bool, true, false, not, List, [], ◌∷◌, ◌++◌, Option, none, some, if◌then◌else◌, ◌||◌,
}
use regcachectl.Base.Results.{Result, ok, err}
use regcachectl.Text.{Text, codes, utf8, eq, is_empty, itoa, join}
use regcachectl.Text.Quote.{quoted}
use regcachectl.Upstream.{Upstream, indexed}
use regcachectl.Engine.{Engine, port}

abbrev pub default_host : Text
default_host = codes "host.docker.internal"

abbrev pub host_or_default : Text → Text
host_or_default host = if is_empty host then default_host else host

-- `mirrorHost`
unfoldable pub mirror_host : Engine → Text → ℕ → Upstream → Text
mirror_host e host i u = host ++ codes ":" ++ itoa (port e i u)

-- the text of a loop over `Upstreams`
unfoldable pub entries : (ℕ → Upstream → Text) → List (ℕ × Upstream) → Text
entries f [] = []
entries f ((i, u) ∷ us) = f i u ++ entries f us

module _ (e : Engine) (host : Text) where
  unfoldable pub k3s_endpoint : ℕ → Upstream → Text
  k3s_endpoint i u = quoted (codes "http://" ++ mirror_host e host i u)

  unfoldable pub k3s_entry : Bool → ℕ → Upstream → Text
  k3s_entry fallback i u =
      (codes "  " ++ quoted u.host ++ codes ":\n    endpoint:\n      - ")
      ++ (k3s_endpoint i u
          ++ (codes "\n"
              ++ (if fallback then codes "      - " ++ quoted u.remote ++ codes "\n" else [])))

  unfoldable pub crio_entry : ℕ → Upstream → Text
  crio_entry i u =
      (codes "\n[[registry]]\n  location = "
        ++ quoted u.host
        ++ codes "\n\n  [[registry.mirror]]\n    location = ")
      ++ (quoted (mirror_host e host i u) ++ codes "\n    insecure = true\n")

  unfoldable pub set_entry : Text → ℕ → Upstream → Text
  set_entry policy i u =
      (codes "  - source: " ++ u.host ++ codes "\n    mirrors:\n    - ")
      ++ (mirror_host e host i u ++ (codes "\n" ++ policy))

  unfoldable pub insecure_entry : ℕ → Upstream → Text
  insecure_entry i u = codes "    - " ++ (quoted (mirror_host e host i u) ++ codes "\n")

  -- `mirrors`
  unfoldable pub mirror_set : Text → Text → Text
  mirror_set field policy =
      (codes "  " ++ field ++ codes ":\n") ++ entries (set_entry policy) indexed

module _ (e : Engine) where
  unfoldable pub render_registries : Text → Bool → Text
  render_registries host fallback =
      (utf8 "# generated by regcachectl — k3s pull-through cache mirrors\n" ++ codes "mirrors:\n")
      ++ entries (k3s_entry e (host_or_default host) fallback) indexed

  unfoldable pub render_crio : Text → Text
  render_crio host =
      utf8 "# generated by regcachectl — containers-registries.conf(5) pull-through cache mirrors\n"
      ++ entries (crio_entry e (host_or_default host)) indexed

  abbrev pub policy_of : Bool → Text
  policy_of fallback = if fallback then [] else codes "    mirrorSourcePolicy: NeverContactSource\n"

  unfoldable pub render_okd : Text → Bool → Text
  render_okd host fallback =
      (utf8 "# generated by regcachectl — OKD/OpenShift pull-through cache mirrors\n"
        ++ codes
            "apiVersion: config.openshift.io/v1\nkind: ImageDigestMirrorSet\nmetadata:\n  name: regcache\nspec:\n")
      ++ (mirror_set e (host_or_default host) (codes "imageDigestMirrors") (policy_of fallback)
          ++ (codes
                "---\napiVersion: config.openshift.io/v1\nkind: ImageTagMirrorSet\nmetadata:\n  name: regcache\nspec:\n"
              ++ (mirror_set e (host_or_default host) (codes "imageTagMirrors") (policy_of fallback)
                  ++ (codes
                        "---\napiVersion: config.openshift.io/v1\nkind: Image\nmetadata:\n  name: cluster\nspec:\n  registrySources:\n    insecureRegistries:\n"
                      ++ entries (insecure_entry e (host_or_default host)) indexed))))

-- `FormatK3s`, `FormatCRIO` and `FormatOKD`
pub data Format : Type 0 where
  k3s : Format
  crio : Format
  okd : Format

-- the cases of the switch in `Render`
unfoldable pub format_of : Text → Option Format
format_of f =
    if is_empty f || eq f (codes "k3s")
    then some k3s
    else (if eq f (codes "crio")
        then some crio
        else (if eq f (codes "okd") then some okd else none))

module _ (e : Engine) (host : Text) where
  unfoldable pub render_as : Option Format → Text → Bool → Result Text
  render_as (some k3s) f fallback = ok (render_registries e host fallback)
  render_as (some crio) f fallback =
      if not fallback
      then err (
          codes
            "--no-fallback is not expressible in registries.conf (CRI-O always falls back to the upstream)")
      else ok (render_crio e host)
  render_as (some okd) f fallback = ok (render_okd e host fallback)
  render_as none f fallback = err (
      codes "unknown --format "
      ++ quoted f
      ++ codes " (want one of: "
      ++ join (codes ", ") (codes "k3s" ∷ codes "crio" ∷ codes "okd" ∷ [])
      ++ codes ")")

  -- `Render`
  unfoldable pub render : Text → Bool → Result Text
  render f fallback = render_as (format_of f) f fallback
