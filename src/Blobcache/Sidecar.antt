-- ===== src/Blobcache/Sidecar.antt =====
-- The sidecar files of the blob cache: `readRepos`, and what the line that `recordRepo` and
-- `recordTag` append changes of it. A sidecar holds one entry per line.
use regcachectl.Base.{
  ◌≡◌, refl, false, not, ◌&&◌, ◌||◌, List, [], ◌∷◌, ◌++◌, arith, if◌then◌else◌, map, map-append,
  append_assoc, All, All-append, ap,
}
use regcachectl.Text.{Text, newline, eq, is_empty, split, trim_space, mem, sort, has_byte}
use regcachectl.Text.Search.{mem-append, mem-sort}
use regcachectl.Text.Equality.{eq_iff}

-- `seen[ln]` and `ln == ""` skip a line.
distinct : List Text → List Text → List Text
distinct seen [] = []
distinct seen (l ∷ ls) =
    let skip = distinct seen ls in
    let keep = l ∷ distinct (l ∷ seen) ls in if is_empty l || mem l seen then skip else keep

-- `readRepos` on the content of the file
unfoldable pub read_lines : Text → List Text
unfolding distinct
read_lines content = sort (distinct [] (map trim_space (split newline content)))

-- A sidecar as the proxy writes it: entries, each ended by a newline.
pub unlines : List Text → Text
unlines [] = []
unlines (l ∷ ls) = l ++ (newline ∷ unlines ls)

-- An entry that is read back as it was written: no white space at its ends, not empty, one line.
pub record IsEntry (e : Text) : Type 0 where
  pub trimmed : trim_space e ≡ e
  pub present : is_empty e ≡ false
  pub one_line : has_byte newline e ≡ false

mem-distinct :
    (k : Text) (seen ls : List Text)
    → mem k (distinct seen ls) ≡ (mem k ls && (not (is_empty k) && not (mem k seen)))
unfolding mem distinct
mem-distinct k seen [] = refl
mem-distinct k seen (l ∷ ls) =
    ground (arith, mem-distinct k seen ls, mem-distinct k (l ∷ seen) ls, eq_iff l k)

mem-nil : (k : Text) → mem k [] ≡ false
unfolding mem
mem-nil k = refl

-- What is read from a sidecar: its trimmed lines, without the empty ones.
pub mem-read_lines :
    (k content : Text)
    → mem k (read_lines content)
      ≡ (mem k (map trim_space (split newline content)) && not (is_empty k))
unfolding read_lines
mem-read_lines k content = ground (
  arith,
  mem-sort k (distinct [] (map trim_space (split newline content))),
  mem-distinct k [] (map trim_space (split newline content)),
  mem-nil k,
)

split-line :
    (l s : Text)
    → has_byte newline l ≡ false
    → split newline (l ++ (newline ∷ s)) ≡ l ∷ split newline s
unfolding split has_byte
split-line [] s h = ground arith
split-line (x ∷ l) s h = ground (arith, split-line l s)

split-unlines :
    (ls : List Text)
    → All (λ l. has_byte newline l ≡ false) ls
    → split newline (unlines ls) ≡ ls ++ ([] ∷ [])
unfolding unlines
split-unlines [] h = unfold split in refl
split-unlines (l ∷ ls) (p, h) = rw (split-line l (unlines ls) p, split-unlines ls h)

unlines-append :
    (ls : List Text) (e : Text) → unlines ls ++ (e ++ newline ∷ []) ≡ unlines (ls ++ e ∷ [])
unfolding unlines
unlines-append [] e = refl
unlines-append (l ∷ ls) e = rw append_assoc (ap (λ t. l ++ (newline ∷ t)) (unlines-append ls e))

pub record IsSidecar (content : Text) : Type 0 where
  pub lines : List Text
  pub written : content ≡ unlines lines
  pub single : All (λ l. has_byte newline l ≡ false) lines

pub IsSidecar-nil : IsSidecar []
unfolding unlines
IsSidecar-nil = record { lines = []; written = refl; single = tt }

-- An entry that is appended as a line
pub appended-IsSidecar :
    (e content : Text) → IsEntry e → IsSidecar content → IsSidecar (content ++ (e ++ newline ∷ []))
appended-IsSidecar e content v s = record {
  lines = s.lines ++ e ∷ [];
  written = rw s.written (unlines-append s.lines e);
  single = All-append (λ l. has_byte newline l ≡ false) s.lines (e ∷ []) s.single (v.one_line, tt);
}

trim_space-nil : trim_space [] ≡ []
unfolding trim_space
trim_space-nil = refl

mem_last : (k : Text) → (mem k ([] ∷ []) && not (is_empty k)) ≡ false
unfolding mem eq is_empty
mem_last [] = refl
mem_last (x ∷ k) = refl

-- The entries that are read from a sidecar are its trimmed lines.
mem-read_lines-unlines :
    (k : Text) (ls : List Text)
    → All (λ l. has_byte newline l ≡ false) ls
    → mem k (read_lines (unlines ls)) ≡ (mem k (map trim_space ls) && not (is_empty k))
mem-read_lines-unlines k ls h =
    rw
      (
        mem-read_lines,
        split-unlines ls h,
        map-append,
        mem-append k (map trim_space ls),
        trim_space-nil,
      )
      (ground (arith, mem_last k))

mem_entry : (k e : Text) → IsEntry e → ((eq e k || mem k []) && not (is_empty k)) ≡ eq e k
mem_entry k e v = ground (arith, mem-nil k, eq_iff e k, v.present)

mem_one : (k e : Text) → mem k (e ∷ []) ≡ eq e k
unfolding mem
mem_one k e = ground arith

-- Behind the appended line, the entries that are read are those before and the new one.
pub mem-appended :
    (k e content : Text)
    → IsEntry e
    → IsSidecar content
    → mem k (read_lines (content ++ (e ++ newline ∷ []))) ≡ (eq e k || mem k (read_lines content))
mem-appended k e content v s =
    rw (s.written, unlines-append s.lines e)
      (ground (
        arith,
        mem-read_lines-unlines k s.lines s.single,
        mem-read_lines-unlines k (s.lines ++ e ∷ []) (
            All-append (λ l. has_byte newline l ≡ false) s.lines (e ∷ []) s.single
              (v.one_line, tt)),
        map-append trim_space s.lines (e ∷ []),
        mem-append k (map trim_space s.lines) (map trim_space (e ∷ [])),
        mem_one k e,
        v.trimmed,
        v.present,
        eq_iff e k,
      ))
