-- ===== src/Transfer/Tests.antt =====
-- A host whose caches all have volumes, and the theorems about `Export` and `Import` of
-- internal/cache/transfer.go at it.
use regcachectl.Base.{false, List, [], ◌∷◌, none, some}
use regcachectl.Base.Results.{ok}
use regcachectl.Text.{Text, codes}
use regcachectl.Engine.{Engine}
use regcachectl.Io.{ran, ran_detached, logged, Runtime}
use regcachectl.Transfer.{Host, Os, export, import_from}
use regcachectl.Transfer.Bundle.{Outcome, export-Outcome}
use regcachectl.Transfer.Unpack.{Imported, import_from-Imported}

-- a volume that is listed has the name that was asked for
abbrev listing : List Text → Text
listing (a ∷ b ∷ c ∷ d ∷ name ∷ rest) = codes "tmm-regcache-quay"
listing args = codes "found"

abbrev runtime : Runtime
runtime es (ran args) = ok (listing args)
runtime es (ran_detached args) = ok []
runtime es (logged line) = ok []

-- tar breaks off behind three bytes
abbrev os : Os
os = record {
  create_error = λ w p. none;
  open_error = λ w p. codes "no such file";
  refuses = λ w p. false;
  stat_fails = λ w p. false;
  stream = λ w args input. record { written = codes "tgz"; failure = some (codes "killed") };
}

abbrev engine : Engine
engine = record { image = []; port_base = 0; port_base_set = false; ports = []; proxy_ttl = [] }

abbrev host : Host
host = record { history = []; files = (codes "in.tgz", codes "tgz") ∷ [] }

export-Outcome_example :
    Outcome os engine
      (codes "out.tgz")
      []
      host.files
      (export runtime engine os (codes "out.tgz") [] host).0
      (export runtime engine os (codes "out.tgz") [] host).1
export-Outcome_example = export-Outcome runtime engine os (codes "out.tgz") [] host

import_from-Imported_example :
    Imported runtime engine os
      (codes "in.tgz")
      host.files
      (import_from runtime engine os (codes "in.tgz") host).0
      (import_from runtime engine os (codes "in.tgz") host).1
import_from-Imported_example = import_from-Imported runtime engine os (codes "in.tgz") host
