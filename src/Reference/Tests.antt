-- ===== src/Reference/Tests.antt =====
-- The theorems about references at concrete inputs.
use regcachectl.Base.{◌≡◌, refl, ◌∷◌, ◌++◌}
use regcachectl.Base.Results.{ok}
use regcachectl.Text.{codes, slash, colon, at_sign, eq, has_byte, is_empty}
use regcachectl.Reference.{parse_ref, is_registry, docker_io}
use regcachectl.Reference.RoundTrip.{IsQualified, IsTag, parse_ref-digest, parse_ref-tag}

quay_okd : IsQualified (codes "quay.io") (codes "okd/scos")
unfolding has_byte is_registry eq docker_io is_empty
quay_okd = record {
  no_slash = refl;
  registry = refl;
  no_at = refl;
  namespaced = λ h. refl;
  present = refl;
}

version-IsTag : IsTag (codes "4.22")
unfolding has_byte
version-IsTag = record { no_colon = refl; no_at = refl }

parse_ref-digest_example :
    parse_ref (codes "quay.io" ++ slash ∷ (codes "okd/scos" ++ at_sign ∷ codes "sha256:00"))
    ≡ ok (record { host = codes "quay.io"; repo = codes "okd/scos"; ref = codes "sha256:00" })
parse_ref-digest_example =
    parse_ref-digest (codes "quay.io") (codes "okd/scos") (codes "sha256:00") quay_okd

parse_ref-tag_example :
    parse_ref (codes "quay.io" ++ slash ∷ (codes "okd/scos" ++ colon ∷ codes "4.22"))
    ≡ ok (record { host = codes "quay.io"; repo = codes "okd/scos"; ref = codes "4.22" })
parse_ref-tag_example =
    parse_ref-tag (codes "quay.io") (codes "okd/scos") (codes "4.22") quay_okd version-IsTag
