-- ===== src/Coverage/Layer.antt =====
-- `fileInLayer` of internal/cache/release.go.
use regcachectl.Base.{
  Bool, true, false, ◌&&◌, List, [], ◌∷◌, Option, none, some, if◌then◌else◌, ◌==◌,
}
use regcachectl.Base.Results.{Result, ok, err, ◌>>=◌}
use regcachectl.Text.{Text, codes, eq, trim_prefix}
use regcachectl.Coverage.{Member, Codec}

-- the two bytes of `br.Peek(2)`
unfoldable pub is_gzip : Text → Bool
is_gzip [] = false
is_gzip (x ∷ []) = false
is_gzip (x ∷ y ∷ s) = x == 0x1f && y == 0x8b

-- behind the last member: a plain layer that cannot be read does not hold the file
unfoldable pub at_end : Bool → Option Text → Result (Option Text)
at_end gzipped none = ok none
at_end gzipped (some e) = if gzipped then err e else ok none

abbrev pub found : Result Text → Result (Option Text)
found (ok b) = ok (some b)
found (err e) = err e

unfoldable pub scan_members : Bool → Text → Option Text → List Member → Result (Option Text)
unfolding at_end
scan_members gzipped path failure [] = at_end gzipped failure
scan_members gzipped path failure (h ∷ hs) =
    let rest = scan_members gzipped path failure hs in
    if eq (trim_prefix h.name (codes "./")) path && h.regular then found h.content else rest

-- `fileInLayer`, of a body whose reading breaks off with `broken`
unfoldable pub file_in_layer : Codec → Text → Option Text → Text → Result (Option Text)
unfolding scan_members is_gzip
file_in_layer c body broken path =
    let plain = c.plain_tar body broken in
    if is_gzip body
    then (c.gzip_tar body broken >>= λ a. scan_members true path a.failure a.members)
    else scan_members false path plain.failure plain.members
