-- ===== src/Fleet/Tests.antt =====
-- The theorems about the fleet at concrete runtimes.
use regcachectl.Base.{
  ℕ, subst, ◌≡◌, ◌⊎◌, some, refl, true, false, [], ◌∷◌, All, none, List, if◌then◌else◌,
}
use regcachectl.Base.Stateful
use regcachectl.Text.Paths.{fields}
use regcachectl.Fleet.Status.{
  status, status_loop, status_of_cache, running_status, du_args, detect_runtime, try_runtimes,
}
use regcachectl.Base.Results.{ok}
use regcachectl.Text
use regcachectl.Text.{Text, codes, eq}
use regcachectl.Dict.{Dict}
use regcachectl.Upstream.{ghcr, f5, nvcr, indexed, upstreams, dockerhub, quay, upstream_for_host}
use regcachectl.Engine.{Engine, container, volume, image_name, registry_image, blobcache_image}
use regcachectl.Io.{run, log, pure, attempt, ◌>>=◌, ran, ran_detached, logged, History, Runtime}
use regcachectl.Fleet.Commands.{image_of_args, ps_args}
use regcachectl.Fleet.Query.{
  container_state, image_exists, ensure_volume, container_image, note_image_drift, container_answer,
  running_text,
}
use regcachectl.Fleet.Up.{up, up_loop, up_one, bring_up, reuse}
use regcachectl.Fleet.Discover.{discover_ports}
use regcachectl.Fleet.Found.{before_bar, after_bar, told_port, IsAddressed, discover_ports_found}
use regcachectl.Fleet.Gc.{gc_one}
use regcachectl.Fleet.Docker.{Docker, reported}
use regcachectl.Fleet.Removal.{IsHarmless, up-IsHarmless}
use regcachectl.Fleet.Restart.{EndsStarted, StopFailed, gc_one-EndsStarted}
use regcachectl.Fleet.AllRunning.{Running, up-Running}

-- A runtime in which every container runs and every command succeeds.
abbrev healthy : Runtime
healthy es ev = ok running_text

abbrev engine : Engine
engine = record {
  image = [];
  port_base = 5000;
  port_base_set = true;
  ports = [];
  proxy_ttl = codes "0s";
}

answer_running :
    container_answer (Text.trim_space running_text) ≡ record { exists = true; running = true }
unfolding container_answer running_text Text.trim_space eq Text.is_empty
answer_running = refl

healthy_observed :
    (es : History) (n out : Text)
    → healthy es (ran (ps_args n)) ≡ ok out
    → container_answer (Text.trim_space out) ≡ reported (some true)
healthy_observed es n out h =
    let p : running_text ≡ out = cc in
    subst (λ (o : Text). container_answer (Text.trim_space o) ≡ reported (some true)) p
      answer_running

abbrev healthy_docker : Docker healthy
healthy_docker = record {
  state = λ es n. some true;
  observed = healthy_observed;
  starts = λ es n out h. refl;
  creates = λ es e u p out h. refl;
  settled = λ es n ev h. refl;
}

up-IsHarmless_example : All IsHarmless (up healthy engine []).1
up-IsHarmless_example = up-IsHarmless healthy engine

gc_one-EndsStarted_example :
    EndsStarted quay (gc_one healthy quay false []).1
    ⊎ StopFailed healthy quay (gc_one healthy quay false []).1
    ⊎ ((gc_one healthy quay false []).1 ≡ ran (image_of_args (container quay)) ∷ [])
gc_one-EndsStarted_example = gc_one-EndsStarted healthy quay false []

up_succeeds : (up healthy engine []).0 ≡ ok tt
unfolding up up_loop up_one bring_up ensure_volume container_state image_exists reuse
    note_image_drift container_image run log pure attempt ◌>>=◌ container_answer running_text
    Text.trim_space eq Text.is_empty indexed registry_image blobcache_image image_name volume
    container
up_succeeds = refl

up-Running_example : Running healthy healthy_docker engine (up healthy engine []).1 indexed
up-Running_example = up-Running healthy healthy_docker engine [] tt up_succeeds

quay_found : upstream_for_host (codes "quay.io") ≡ some (2, quay)
unfolding upstream_for_host indexed upstreams eq dockerhub ghcr quay f5 nvcr
quay_found = refl

-- containers that publish a port that a label names too
abbrev publishing : Runtime
publishing es ev = ok (codes "5001|5001\n")

told_5001 : told_port (ok (codes "5001|5001\n")) ≡ some 5001
unfolding told_port before_bar after_bar Text.atoi_positive Text.trim_space Text.last_line
    Text.is_empty
told_5001 = refl

abbrev default_engine : Engine
default_engine = record engine { port_base = 0; port_base_set = false }

discover_ports_found_example :
    (m : Dict ℕ) × ((discover_ports publishing default_engine []).0
      ≡ ok (record default_engine { ports = m }))
    × All (IsAddressed publishing default_engine m) upstreams
discover_ports_found_example = discover_ports_found publishing default_engine [] (λ es u. refl)

-- Without docker on the PATH, podman is chosen.
podman_detected :
    detect_runtime (record { on_path = eq (codes "podman"); version_error = λ c. none }) []
    ≡ ok (codes "podman")
unfolding detect_runtime try_runtimes Text.is_empty eq
podman_detected = refl

-- containers that run, in which `du` prints nothing
abbrev silent_answer : List Text → Text
silent_answer [] = []
silent_answer (command ∷ args) = if eq command (codes "ps") then codes "running" else []

abbrev silent : Runtime
silent es (ran args) = ok (silent_answer args)
silent es (ran_detached args) = ok []
silent es (logged line) = ok []

status_panics : (status silent (λ es p. none) engine []).0 ≡ ok none
unfolding status status_loop status_of_cache running_status du_args container_state container_answer
    running_text ps_args run pure attempt ◌>>=◌ Stateful.pure Stateful.attempt Stateful.◌>>=◌ fields
    Text.is_space Text.trim_space eq Text.is_empty indexed container dockerhub
status_panics = refl
