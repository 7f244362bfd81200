-- ===== src/Blobcache/Recorded.antt =====
-- What `readRepos` reads back after `recordRepo` and `recordTag` of internal/blobcache/blobcache.go.
use regcachectl.Base.{
  ◌≡◌, true, false, ◌&&◌, ◌||◌, [], ◌∷◌, ◌++◌, arith, if◌then◌else◌, Bool-cases, inl, inr, Bool,
  List, subst, sym,
}
use regcachectl.Text.{Text, newline, eq, mem}
use regcachectl.Text.Equality.{eq_iff}
use regcachectl.Dict.{Dict, get, put, get-put, get-put_self}
use regcachectl.Blobcache.Types.{SidecarIo}
use regcachectl.Blobcache.Sidecar.{IsEntry, IsSidecar, read_lines, mem-appended, appended-IsSidecar}
use regcachectl.Blobcache.Record.{content_of, record_entry}

-- the entries of a file of a directory
abbrev pub entries_in : Text → Dict Text → Text → Bool
entries_in n dir k = mem k (read_lines (content_of (get n dir)))

appended-reads :
    (name entry : Text) (dir : Dict Text) (n k : Text)
    → IsEntry entry
    → IsSidecar (content_of (get name dir))
    → entries_in n (put name (content_of (get name dir) ++ (entry ++ newline ∷ [])) dir) k
      ≡ ((eq name n && eq entry k) || entries_in n dir k)
appended-reads name entry dir n k v s = elim (Bool-cases (eq name n)) [
  | inl here ↦
      let e : name ≡ n = (eq_iff name n).0 here in
      ground (
        arith,
        get-put name n (content_of (get name dir) ++ (entry ++ newline ∷ [])) dir,
        mem-appended k entry (content_of (get name dir)) v s,
        e,
        here,
      )
  | inr there ↦
      ground
        (arith, get-put name n (content_of (get name dir) ++ (entry ++ newline ∷ [])) dir, there)
]

known_entry :
    (entry : Text) (readable : Bool) (lines : List Text)
    → mem entry (if readable then lines else []) ≡ true
    → mem entry lines ≡ true
unfolding mem
known_entry entry true lines h = h
known_entry entry false lines h = cc

-- An entry that is there already
known_reads :
    (name entry : Text) (dir : Dict Text) (n k : Text) (works : Bool)
    → entries_in name dir entry ≡ true
    → entries_in n dir k ≡ ((eq name n && eq entry k && works) || entries_in n dir k)
known_reads name entry dir n k works h = elim (Bool-cases (eq name n && eq entry k)) [
  | inl here ↦
      let a : name ≡ n = (eq_iff name n).0 (ground arith) in
      let b : entry ≡ k = (eq_iff entry k).0 (ground arith) in
      let there : entries_in n dir k ≡ true =
        subst (λ x. entries_in x dir k ≡ true) a (subst (λ x. entries_in name dir x ≡ true) b h) in
      ground arith
  | inr other ↦ ground arith
]

-- After an entry is recorded in a file of a directory, exactly this entry is added to what is read
-- from that file, if the directory and the file could be made or the entry was there already, and
-- what is read from every other file is as before. The file was written by the proxy, which a new
-- file is too, and is so again; the entry is one line without white space at its ends.
pub mem-record_entry :
    (io : SidecarIo) (name entry : Text) (dir : Dict Text)
    → IsEntry entry
    → IsSidecar (content_of (get name dir))
    → ((n k : Text)
        → entries_in n (record_entry io name entry dir) k
          ≡ ((eq name n && eq entry k && (io.mkdir && io.open_file)) || entries_in n dir k))
      × IsSidecar (content_of (get name (record_entry io name entry dir)))
unfolding record_entry
mem-record_entry io name entry dir v s =
    let old = content_of (get name dir) in
    elim (Bool-cases (mem entry (if io.readable then read_lines old else []))) [
      | inl known ↦ rw known (
        λ n k.
            known_reads name entry dir n k (io.mkdir && io.open_file)
              (known_entry entry io.readable (read_lines old) known),
        s,
      )
      | inr new ↦ elim (Bool-cases (io.mkdir && io.open_file)) [
        | inl works ↦
            rw (new, works)
              (
                λ n k. ground (arith, appended-reads name entry dir n k v s),
                subst (λ o. IsSidecar (content_of o)) (sym (get-put_self name _ dir))
                    (appended-IsSidecar entry old v s),
              )
        | inr fails ↦ rw (new, fails) (λ n k. ground arith, s)
      ]
    ]
