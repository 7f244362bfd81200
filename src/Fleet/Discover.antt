-- ===== src/Fleet/Discover.antt =====
-- `DiscoverPorts` of internal/cache/cache.go.
use regcachectl.Base.{ℕ, List, [], ◌∷◌, Option, none, some}
use regcachectl.Base.Results.{Result, ok, err}
use regcachectl.Text.{Text, cut, trim_space, last_line, atoi_positive}
use regcachectl.Dict.{Dict, put}
use regcachectl.Upstream.{Upstream, upstreams}
use regcachectl.Engine.{Engine, container}
use regcachectl.Io.{Runtime, Io, pure, attempt, ◌>>=◌, run}
use regcachectl.Fleet.Commands.{port_args}

abbrev pub first_some : Option ℕ → Option ℕ → Option ℕ
first_some (some p) o = some p
first_some none o = o

abbrev pub halves : Text → Option (Text × Text) → Text × Text
halves s none = (s, [])
halves s (some (a, b)) = (a, b)

-- the first of the label and the binding that is a positive number
unfoldable pub candidate : Text × Text → Option ℕ
candidate (labelled, bound) =
    first_some (atoi_positive (trim_space labelled)) (atoi_positive (trim_space bound))

unfoldable pub port_in : Text → Option ℕ
port_in out = let line = last_line out in candidate (halves line (cut b'|' line))

unfoldable pub note_port : Text → Option ℕ → Dict ℕ → Dict ℕ
note_port name none found = found
note_port name (some p) found = put name p found

-- an absent container is passed over
unfoldable pub note_answer : Text → Result Text → Dict ℕ → Dict ℕ
note_answer name (err e) found = found
note_answer name (ok out) found = note_port name (port_in out) found

module _ (rt : Runtime) where
  unfoldable pub discover_loop : Dict ℕ → List Upstream → Io (Dict ℕ)
  discover_loop found [] = pure found
  discover_loop found (u ∷ us) = do
    answer ← attempt (run rt (port_args (container u)))
    discover_loop (note_answer u.name answer found) us

  -- `DiscoverPorts`, where the engine has a runtime
  unfoldable pub discover_ports : Engine → Io Engine
  discover_ports e = do found ← discover_loop [] upstreams; pure (record e { ports = found })
