-- ===== src/Coverage/Views.antt =====
-- What the view of a cache answers, for internal/cache/coverage.go: the directories that it lists are
-- remembered, and the answers are those of the listings.
use regcachectl.Base.{
  ◌≡◌, refl, sym, ap, ◌∙◌, Bool, true, false, ◌&&◌, List, [], Option, none, some, arith,
  if◌then◌else◌, map, Bool-cases, inl, inr,
}
use regcachectl.Base.Results.{Result, ok}
use regcachectl.Base.Stateful.{Stateful, pure, attempt, ◌>>=◌, Ends, Ends-bind, Ends-pure}
use regcachectl.Text.{Text, eq, mem}
use regcachectl.Text.Equality.{eq_iff}
use regcachectl.Text.Paths.{fields}
use regcachectl.Dict.{Dict, get, put, get-put}
use regcachectl.Upstream.{Upstream}
use regcachectl.Engine.{container}
use regcachectl.Io.{Event, ran, History, Runtime, run, or_empty, trimmed}
use regcachectl.Coverage.Disk.{
  View, layer_links, revision_links, links_args, tag_args, link_of, io, list_links, keep_layers,
  keep_revs, or_list, layers_of, revs_of, has_blob, has_manifest, tag_digest, tag_answer,
}

-- What the runtime answers does not depend on what was done before: the cache is not written meanwhile.
pub record IsSteady (rt : Runtime) : Type 0 where
  pub same : (es : History) (ev : Event) → rt es ev ≡ rt [] ev

module _ (rt : Runtime) (u : Upstream) where
  -- the digests that a directory of a repository links
  pub linked : Text → Text → List Text
  linked repo sub =
      map link_of (fields (or_empty (trimmed (rt [] (ran (links_args (container u) repo sub))))))

  -- The lists that are remembered are those of the runtime.
  pub record IsCurrent (blobs : List Text) (v : View) : Type 0 where
    pub stored : v.blobs ≡ blobs
    pub layer_lists :
        (repo : Text) (l : List Text) → get repo v.layers ≡ some l → l ≡ linked repo layer_links
    pub rev_lists :
        (repo : Text) (l : List Text) → get repo v.revs ≡ some l → l ≡ linked repo revision_links

  module _ (steady : IsSteady rt) (blobs : List Text) where
    abbrev pub Answers {ℓ} : {A : Type ℓ} → A → Result A → View → Type ℓ
    Answers a r v = (r ≡ ok a) × IsCurrent blobs v

    list_links-Answers :
        (repo sub : Text)
        → Ends (IsCurrent blobs) (Answers (linked repo sub)) (io (list_links rt u repo sub))
    unfolding io list_links attempt pure ◌>>=◌ run linked
    list_links-Answers repo sub = record {
      at = λ v h. (
        ap (λ r. ok (map link_of (fields (or_empty (trimmed r))))) (steady.same v.history _),
        record { stored = h.stored; layer_lists = h.layer_lists; rev_lists = h.rev_lists },
      );
    }

    put_list :
        (repo sub : Text) (m : Dict (List Text))
        → ((r : Text) (l : List Text) → get r m ≡ some l → l ≡ linked r sub)
        → (r : Text) (l : List Text) → get r (put repo (linked repo sub) m) ≡ some l
        → l ≡ linked r sub
    put_list repo sub m h r l q = elim (Bool-cases (eq repo r)) [
      | inl same ↦
          let e : repo ≡ r = (eq_iff repo r).0 same in
          let k : l ≡ linked repo sub = ground (arith, get-put repo r (linked repo sub) m) in
          k ∙ ap (λ x. linked x sub) e
      | inr other ↦ h r l (ground (arith, get-put repo r (linked repo sub) m))
    ]

    keep_layers-Answers :
        (repo : Text) (l : List Text)
        → l ≡ linked repo layer_links
        → Ends (IsCurrent blobs) (Answers (linked repo layer_links)) (keep_layers repo l)
    unfolding keep_layers
    keep_layers-Answers repo l e = record {
      at = λ v h. (
        ap ok e,
        record {
          stored = h.stored;
          layer_lists = λ r k q.
              put_list repo layer_links v.layers h.layer_lists r k
                (ap (λ x. get r (put repo x v.layers)) (sym e) ∙ q);
          rev_lists = h.rev_lists;
        },
      );
    }

    keep_revs-Answers :
        (repo : Text) (l : List Text)
        → l ≡ linked repo revision_links
        → Ends (IsCurrent blobs) (Answers (linked repo revision_links)) (keep_revs repo l)
    unfolding keep_revs
    keep_revs-Answers repo l e = record {
      at = λ v h. (
        ap ok e,
        record {
          stored = h.stored;
          layer_lists = h.layer_lists;
          rev_lists = λ r k q.
              put_list repo revision_links v.revs h.rev_lists r k
                (ap (λ x. get r (put repo x v.revs)) (sym e) ∙ q);
        },
      );
    }

    -- listing a directory and keeping the list
    listed-Answers :
        (repo sub : Text) (keep : List Text → Stateful View (List Text))
        → ((l : List Text)
            → l ≡ linked repo sub
            → Ends (IsCurrent blobs) (Answers (linked repo sub)) (keep l))
        → Ends
            (IsCurrent blobs)
            (Answers (linked repo sub))
            (io (list_links rt u repo sub) >>= keep)
    listed-Answers repo sub keep k =
        Ends-bind _ keep (list_links-Answers repo sub)
          (λ l. record { at = λ v h. (k l (ok_value h.0)).at v h.1 }) (λ x v h. cc)
      where
        ok_value : {l l' : List Text} → ◌≡◌ {A = Result (List Text)} (ok l) (ok l') → l ≡ l'
        ok_value q = cc

    layers_of-Answers :
        (repo : Text)
        → Ends (IsCurrent blobs) (Answers (linked repo layer_links)) (layers_of rt u repo)
    unfolding layers_of pure
    layers_of-Answers repo = record { at = λ v h. recalled v h (get repo v.layers) refl }
      where
        recalled :
            (v : View)
            → IsCurrent blobs v
            → (o : Option (List Text)) → get repo v.layers ≡ o
            → Answers
                (linked repo layer_links)
                (or_list (io (list_links rt u repo layer_links) >>= keep_layers repo) o v).0
                (or_list (io (list_links rt u repo layer_links) >>= keep_layers repo) o v).1
        recalled v h none q =
            (listed-Answers repo layer_links (keep_layers repo) (keep_layers-Answers repo)).at v h
        recalled v h (some l) q = (ap ok (h.layer_lists repo l q), h)

    revs_of-Answers :
        (repo : Text)
        → Ends (IsCurrent blobs) (Answers (linked repo revision_links)) (revs_of rt u repo)
    unfolding revs_of pure
    revs_of-Answers repo = record { at = λ v h. recalled v h (get repo v.revs) refl }
      where
        recalled :
            (v : View)
            → IsCurrent blobs v
            → (o : Option (List Text)) → get repo v.revs ≡ o
            → Answers
                (linked repo revision_links)
                (or_list (io (list_links rt u repo revision_links) >>= keep_revs repo) o v).0
                (or_list (io (list_links rt u repo revision_links) >>= keep_revs repo) o v).1
        recalled v h none q =
            (listed-Answers repo revision_links (keep_revs repo) (keep_revs-Answers repo)).at v h
        recalled v h (some l) q = (ap ok (h.rev_lists repo l q), h)

    answer :
        (repo sub digest : Text) (m : Stateful View (List Text))
        → Ends (IsCurrent blobs) (Answers (linked repo sub)) m
        → Ends
            (IsCurrent blobs)
            (Answers (mem digest blobs && mem digest (linked repo sub)))
            (λ v. if mem digest v.blobs then (m >>= λ l. pure (mem digest l)) v else (ok false, v))
    answer repo sub digest m k = record {
      at = λ v h. decided v h (mem digest v.blobs) (ap (mem digest) (sym h.stored));
    }
      where
        looked_up :
            Ends
              (IsCurrent blobs)
              (Answers (mem digest (linked repo sub)))
              (m >>= λ l. pure (mem digest l))
        looked_up =
            Ends-bind m _ k (λ l. Ends-pure _ (λ v h. (looked (ok_value h.0), h.1))) (λ x v h. cc)
          where
            ok_value : {l l' : List Text} → ◌≡◌ {A = Result (List Text)} (ok l) (ok l') → l ≡ l'
            ok_value q = cc

            looked :
                {l l' : List Text}
                → l ≡ l'
                → ◌≡◌ {A = Result Bool} (ok (mem digest l)) (ok (mem digest l'))
            looked q = ap (λ x. ok (mem digest x)) q

        decided :
            (v : View)
            → IsCurrent blobs v
            → (b : Bool) → mem digest blobs ≡ b
            → Answers
                (mem digest blobs && mem digest (linked repo sub))
                (if b then (m >>= λ l. pure (mem digest l)) v else (ok false, v)).0
                (if b then (m >>= λ l. pure (mem digest l)) v else (ok false, v)).1
        decided v h true q =
            let (r, c) = looked_up.at v h in
            (r ∙ ap ok (sym (ap (λ b. b && mem digest (linked repo sub)) q)), c)
        decided v h false q = (ap ok (sym (ap (λ b. b && mem digest (linked repo sub)) q)), h)

    tag_digest-Answers :
        (repo tag : Text)
        → Ends
            (IsCurrent blobs)
            (Answers (tag_answer (trimmed (rt [] (ran (tag_args (container u) repo tag))))))
            (tag_digest rt u repo tag)
    unfolding tag_digest io attempt pure ◌>>=◌ run
    tag_digest-Answers repo tag = record {
      at = λ v h. (
        ap (λ r. ok (tag_answer (trimmed r))) (steady.same v.history _),
        record { stored = h.stored; layer_lists = h.layer_lists; rev_lists = h.rev_lists },
      );
    }

-- While the runtime's answers do not change, a view whose remembered lists are current stays so, and
-- answers what the listings say: it has a blob if its data is stored and its repository links it, it
-- has a manifest if its data is stored and its repository has the revision, and a tag's digest is what
-- the tag's link file holds.
pub view_answers :
    (rt : Runtime) (u : Upstream) (steady : IsSteady rt) (blobs : List Text)
    (repo digest tag : Text) (v : View)
    → IsCurrent rt u blobs v
    → Answers rt u steady blobs
        (mem digest blobs && mem digest (linked rt u repo layer_links))
        (has_blob rt u repo digest v).0
        (has_blob rt u repo digest v).1
      × Answers rt u steady blobs
          (mem digest blobs && mem digest (linked rt u repo revision_links))
          (has_manifest rt u repo digest v).0
          (has_manifest rt u repo digest v).1
      × Answers rt u steady blobs
          (tag_answer (trimmed (rt [] (ran (tag_args (container u) repo tag)))))
          (tag_digest rt u repo tag v).0
          (tag_digest rt u repo tag v).1
unfolding has_blob has_manifest
view_answers rt u steady blobs repo digest tag v h = (
  (answer rt u steady blobs repo layer_links digest (layers_of rt u repo)
        (layers_of-Answers rt u steady blobs repo)).at
      v h,
  (answer rt u steady blobs repo revision_links digest (revs_of rt u repo)
        (revs_of-Answers rt u steady blobs repo)).at
      v h,
  (tag_digest-Answers rt u steady blobs repo tag).at v h,
)
