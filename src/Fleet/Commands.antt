-- ===== src/Fleet/Commands.antt =====
-- The arguments of the commands that internal/cache/cache.go gives the container runtime.
use regcachectl.Base.{ℕ, Bool, List, [], ◌∷◌, ◌++◌, if◌then◌else◌}
use regcachectl.Text.{Text, codes, itoa}
use regcachectl.Upstream.{Upstream}
use regcachectl.Engine.{Engine, image_name, blobcache_image, container, volume}

pub anchored : Text → Text
anchored name = codes "name=^" ++ (name ++ codes "$")

unfoldable pub ps_args : Text → List Text
ps_args name =
    codes "ps"
    ∷ codes "-a"
    ∷ codes "--filter"
    ∷ anchored name
    ∷ codes "--format"
    ∷ codes "{{.State}}"
    ∷ []

unfoldable pub images_args : Text → List Text
images_args ref = codes "images" ∷ codes "-q" ∷ ref ∷ []

unfoldable pub volume_ls_args : Text → List Text
volume_ls_args name = codes "volume" ∷ codes "ls" ∷ codes "-q" ∷ codes "-f" ∷ anchored name ∷ []

unfoldable pub volume_create_args : Text → List Text
volume_create_args name = codes "volume" ∷ codes "create" ∷ name ∷ []

unfoldable pub volume_rm_args : Text → List Text
volume_rm_args name = codes "volume" ∷ codes "rm" ∷ name ∷ []

unfoldable pub start_args : Text → List Text
start_args name = codes "start" ∷ name ∷ []

unfoldable pub stop_args : Text → List Text
stop_args name = codes "stop" ∷ name ∷ []

unfoldable pub rm_args : Text → List Text
rm_args name = codes "rm" ∷ codes "-f" ∷ name ∷ []

unfoldable pub image_of_args : Text → List Text
image_of_args name = codes "inspect" ∷ codes "--format" ∷ codes "{{.Config.Image}}" ∷ name ∷ []

pub port_format : Text
port_format =
    codes "{{index .Config.Labels \"tmm-regcache.port\"}}|"
    ++ codes "{{range $b := index .HostConfig.PortBindings \"5000/tcp\"}}{{$b.HostPort}}{{end}}"

unfoldable pub port_args : Text → List Text
port_args name = codes "inspect" ∷ codes "--format" ∷ port_format ∷ name ∷ []

pub common_args : Upstream → ℕ → List Text
common_args u port =
    codes "run"
    ∷ codes "-d"
    ∷ codes "--name"
    ∷ container u
    ∷ codes "--label"
    ∷ codes "tmm-regcache=1"
    ∷ codes "--label"
    ∷ (codes "tmm-regcache.host=" ++ u.host)
    ∷ codes "--label"
    ∷ (codes "tmm-regcache.port=" ++ itoa port)
    ∷ codes "--restart=always"
    ∷ codes "-p"
    ∷ (itoa port ++ codes ":5000")
    ∷ []

pub blobcache_args : Upstream → List Text
blobcache_args u =
    codes "-v"
    ∷ (volume u ++ codes ":/var/lib/blobcache")
    ∷ blobcache_image
    ∷ codes "serve-blobcache"
    ∷ codes "--upstream"
    ∷ u.remote
    ∷ codes "--listen"
    ∷ codes ":5000"
    ∷ codes "--cache-dir"
    ∷ codes "/var/lib/blobcache"
    ∷ []

pub proxy_args : Engine → Upstream → List Text
proxy_args e u =
    codes "-v"
    ∷ (volume u ++ codes ":/var/lib/registry")
    ∷ codes "-e"
    ∷ (codes "REGISTRY_PROXY_REMOTEURL=" ++ u.remote)
    ∷ codes "-e"
    ∷ (codes "REGISTRY_PROXY_TTL=" ++ e.proxy_ttl)
    ∷ codes "-e"
    ∷ codes "REGISTRY_PROXY_CACHEWRITETIMEOUT=1h"
    ∷ codes "-e"
    ∷ codes "REGISTRY_STORAGE_DELETE_ENABLED=true"
    ∷ codes "-e"
    ∷ codes "REGISTRY_LOG_LEVEL=info"
    ∷ image_name e
    ∷ []

-- `runArgs`
unfoldable pub run_args : Engine → Upstream → ℕ → List Text
unfolding common_args blobcache_args proxy_args
run_args e u port = common_args u port ++ (if u.blobcache then blobcache_args u else proxy_args e u)

pub gc_script : Text
gc_script =
    codes
      "cfg=/etc/distribution/config.yml; [ -f \"$cfg\" ] || cfg=/etc/docker/registry/config.yml; "
    ++ codes "exec registry garbage-collect \"$cfg\" \"$@\""

abbrev pub delete_untagged_flag : Text
delete_untagged_flag = codes "--delete-untagged"

unfoldable pub gc_args : Upstream → Text → Bool → List Text
unfolding gc_script
gc_args u image delete_untagged =
    codes "run"
    ∷ codes "--rm"
    ∷ codes "-v"
    ∷ (volume u ++ codes ":/var/lib/registry")
    ∷ codes "--entrypoint"
    ∷ codes "sh"
    ∷ image
    ∷ codes "-c"
    ∷ gc_script
    ∷ codes "gc"
    ∷ (if delete_untagged then delete_untagged_flag ∷ [] else [])
