-- ===== src/Text/Paths.antt =====
-- strings.Fields, path.Base and path.Dir, which internal/cache/coverage.go uses.
use regcachectl.Base.{
  ℕ, Bool, false, not, ◌&&◌, ◌||◌, List, [], ◌∷◌, ◌++◌, Option, none, some, if◌then◌else◌, reverse,
}
use regcachectl.Text.{Text, slash, codes, eq, is_empty, is_space, split, join, cut_last}

abbrev first_field : ℕ → List Text → List Text
first_field x [] = (x ∷ []) ∷ []
first_field x (w ∷ ws) = (x ∷ w) ∷ ws

-- the words of a text whose first byte may go on with a word: an empty word first means that it does not
words : Text → List Text
unfolding is_space
words [] = [] ∷ []
words (x ∷ s) = let rest = words s in if is_space x then [] ∷ rest else first_field x rest

nonempty : List Text → List Text
nonempty [] = []
nonempty (w ∷ ws) = let rest = nonempty ws in if is_empty w then rest else w ∷ rest

-- strings.Fields on a listing whose white space is ASCII
unfoldable pub fields : Text → List Text
unfolding words nonempty
fields s = nonempty (words s)

abbrev pop : Bool → List Text → List Text
pop rooted [] = if rooted then [] else codes ".." ∷ []
pop rooted (p ∷ kept) = if not rooted && eq p (codes "..") then codes ".." ∷ p ∷ kept else kept

-- the elements of a path, with `.` and `..` taken away, the last one first
cleaned : Bool → List Text → List Text → List Text
cleaned rooted kept [] = kept
cleaned rooted kept (p ∷ ps) =
    cleaned rooted
      (if is_empty p || eq p (codes ".")
        then kept
        else (if eq p (codes "..") then pop rooted kept else p ∷ kept))
      ps

abbrev is_rooted : Text → Bool
is_rooted [] = false
is_rooted (x ∷ s) = eq (x ∷ []) (codes "/")

abbrev dot_if_empty : Text → Text
dot_if_empty s = if is_empty s then codes "." else s

-- path.Clean
unfoldable pub clean : Text → Text
unfolding cleaned
clean s =
    let rooted = is_rooted s in
    let names = join (codes "/") (reverse (cleaned rooted [] (split slash s))) in
    if rooted then slash ∷ names else dot_if_empty names

abbrev up_to_slash : Option (Text × Text) → Text
up_to_slash none = []
up_to_slash (some (a, b)) = a ++ (slash ∷ [])

-- path.Dir
unfoldable pub dir : Text → Text
unfolding clean
dir s = clean (up_to_slash (cut_last slash s))

abbrev last_name : List Text → Text
last_name [] = []
last_name (p ∷ ps) = p

-- path.Base
unfoldable pub base_name : Text → Text
unfolding nonempty
base_name s =
    if is_empty s
    then codes "."
    else (let name = last_name (reverse (nonempty (split slash s))) in
        if is_empty name then codes "/" else name)
