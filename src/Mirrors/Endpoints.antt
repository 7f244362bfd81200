-- ===== src/Mirrors/Endpoints.antt =====
-- Which mirrors the configurations of internal/cache/registries.go name.
use regcachectl.Base.{
  ◌≡◌, refl, sym, subst, ℕ, zero, suc, Bool, true, false, List, [], ◌∷◌, ◌++◌, some, arith,
  get_elem?, append_assoc, if◌then◌else◌,
}
use regcachectl.Base.Results.{Result, ok}
use regcachectl.Text.{Text, codes, itoa, contains, has_prefix, strip}
use regcachectl.Text.Quote.{quoted}
use regcachectl.Upstream.{Upstream, indexed}
use regcachectl.Engine.{Engine, port}
use regcachectl.Mirrors.{
  host_or_default, mirror_host, entries, k3s_endpoint, k3s_entry, crio_entry, set_entry, mirror_set,
  render_registries, render_crio, render_okd, policy_of, Format, k3s, crio, okd, format_of,
  render_as, render,
}

has_prefix-append : (p t : Text) → has_prefix (p ++ t) p ≡ true
unfolding has_prefix strip
has_prefix-append [] t = refl
has_prefix-append (x ∷ p) t = ground (arith, has_prefix-append p t)

contains-first : (p t : Text) → contains (p ++ t) p ≡ true
unfolding contains has_prefix strip
contains-first [] [] = refl
contains-first [] (x ∷ t) = refl
contains-first (x ∷ p) t = ground (arith, has_prefix-append (x ∷ p) t)

contains-after : (a t p : Text) → contains t p ≡ true → contains (a ++ t) p ≡ true
unfolding contains
contains-after [] t p h = h
contains-after (x ∷ a) t p h = ground (arith, contains-after a t p h)

has_prefix-longer : (s t p : Text) → has_prefix s p ≡ true → has_prefix (s ++ t) p ≡ true
unfolding has_prefix strip
has_prefix-longer s t [] h = refl
has_prefix-longer [] t (y ∷ p) h = cc
has_prefix-longer (x ∷ s) t (y ∷ p) h = ground (arith, has_prefix-longer s t p)

contains-nil : (t : Text) → contains t [] ≡ true
unfolding contains has_prefix strip
contains-nil [] = refl
contains-nil (x ∷ t) = refl

contains-before : (a t p : Text) → contains a p ≡ true → contains (a ++ t) p ≡ true
unfolding contains has_prefix strip
contains-before [] t [] h = contains-nil t
contains-before [] t (y ∷ p) h = cc
contains-before (x ∷ a) t p h = ground (arith, has_prefix-longer (x ∷ a) t p, contains-before a t p)

contains-entries :
    (f : ℕ → Upstream → Text) (us : List (ℕ × Upstream)) (j i : ℕ) (u : Upstream) (p : Text)
    → get_elem? us j ≡ some (i, u)
    → contains (f i u) p ≡ true
    → contains (entries f us) p ≡ true
unfolding entries
contains-entries f [] j i u p h c = cc
contains-entries f ((k, v) ∷ us) zero i u p h c =
    let e : ◌≡◌ {A = ℕ × Upstream} (k, v) (i, u) = cc in
    contains-before (f k v) (entries f us) p
      (subst (λ (x : ℕ × Upstream). contains (f x.0 x.1) p ≡ true) (sym e) c)
contains-entries f ((k, v) ∷ us) (suc j) i u p h c =
    contains-after (f k v) (entries f us) p (contains-entries f us j i u p h c)

-- what a format writes in front of the mirror of the registry `u.host`
pub source_of : Format → Upstream → Text
source_of k3s u = codes "  " ++ quoted u.host ++ codes ":\n    endpoint:\n      - "
source_of crio u =
    codes "\n[[registry]]\n  location = "
    ++ quoted u.host
    ++ codes "\n\n  [[registry.mirror]]\n    location = "
source_of okd u = codes "  - source: " ++ u.host ++ codes "\n    mirrors:\n    - "

-- how it writes the mirror that listens on port `p` of `host`
pub mirror_at : Format → Text → ℕ → Text
mirror_at k3s host p = quoted (codes "http://" ++ host ++ codes ":" ++ itoa p)
mirror_at crio host p = quoted (host ++ codes ":" ++ itoa p)
mirror_at okd host p = host ++ codes ":" ++ itoa p

pub stanza : Format → Text → ℕ → Upstream → Text
stanza format host p u = source_of format u ++ mirror_at format host p

contains-first_two : (a b t : Text) → contains (a ++ (b ++ t)) (a ++ b) ≡ true
contains-first_two a b t =
    subst (λ (x : Text). contains x (a ++ b) ≡ true) (append_assoc a b t)
      (contains-first (a ++ b) t)

ok_value : {s t : Text} → ◌≡◌ {A = Result Text} (ok s) (ok t) → s ≡ t
ok_value q = cc

same : {s t : Text} (p : Text) → s ≡ t → contains s p ≡ true → contains t p ≡ true
same p q h = subst (λ x. contains x p ≡ true) q h

module _ (e : Engine) (host : Text) (j i : ℕ) (u : Upstream)
    (at : get_elem? indexed j ≡ some (i, u)) where
  abbrev named : Format → Text
  named format = stanza format (host_or_default host) (port e i u) u

  named_in_k3s : (fallback : Bool) → contains (render_registries e host fallback) (named k3s) ≡ true
  unfolding render_registries k3s_entry k3s_endpoint mirror_host stanza source_of mirror_at
  named_in_k3s fallback =
      let entry =
        contains-entries (k3s_entry e (host_or_default host) fallback) indexed j i u (named k3s) at
          (contains-first_two (source_of k3s u) (mirror_at k3s (host_or_default host) (port e i u))
            (codes "\n"
              ++ (if fallback then codes "      - " ++ quoted u.remote ++ codes "\n" else []))) in
      search (contains-after, entry)

  named_in_crio : contains (render_crio e host) (named crio) ≡ true
  unfolding render_crio crio_entry mirror_host stanza source_of mirror_at
  named_in_crio =
      let entry =
        contains-entries (crio_entry e (host_or_default host)) indexed j i u (named crio) at (
          contains-first_two (source_of crio u) (mirror_at crio (host_or_default host) (port e i u))
            (codes "\n    insecure = true\n")) in
      search (contains-after, entry)

  named_in_set :
      (field policy : Text)
      → contains (mirror_set e (host_or_default host) field policy) (named okd) ≡ true
  unfolding mirror_set set_entry mirror_host stanza source_of mirror_at
  named_in_set field policy =
      let entry =
        contains-entries (set_entry e (host_or_default host) policy) indexed j i u (named okd) at (
          contains-first_two (source_of okd u) (mirror_at okd (host_or_default host) (port e i u))
            (codes "\n" ++ policy)) in
      search (contains-after, entry)

  named_in_okd : (fallback : Bool) → contains (render_okd e host fallback) (named okd) ≡ true
  unfolding render_okd
  named_in_okd fallback =
      let set = named_in_set (codes "imageDigestMirrors") (policy_of e fallback) in
      search (contains-after, contains-before, set)

  named_as :
      (format : Format) (f : Text) (fallback : Bool) (text : Text)
      → render_as e host (some format) f fallback ≡ ok text
      → contains text (named format) ≡ true
  unfolding render_as
  named_as k3s f fallback text h = same _ (ok_value h) (named_in_k3s fallback)
  named_as crio f true text h = same _ (ok_value h) named_in_crio
  named_as crio f false text h = cc
  named_as okd f fallback text h = same _ (ok_value h) (named_in_okd fallback)

-- Whichever of its formats is asked for, and with the fallback or without it: if `Render` gives a
-- configuration, then for each upstream it has the entry of the format that directs pulls from the
-- upstream's host to the given host, or the default one, at the port of the upstream's cache.
pub render-names_mirrors :
    (e : Engine) (host f : Text) (fallback : Bool) (format : Format) (text : Text) (j i : ℕ)
    (u : Upstream)
    → format_of f ≡ some format
    → render e host f fallback ≡ ok text
    → get_elem? indexed j ≡ some (i, u)
    → contains text (stanza format (host_or_default host) (port e i u) u) ≡ true
unfolding render
render-names_mirrors e host f fallback format text j i u known h at =
    named_as e host j i u at format f fallback text (rw known at h)
