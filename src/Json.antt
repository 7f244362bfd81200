-- ===== src/Json.antt =====
-- Values of JSON, and what package encoding/json makes of them where the blob cache writes its inventory
-- and `list` reads it. The text of a value is not modelled.
use regcachectl.Base.{◌≡◌, refl, ℕ, List, [], ◌∷◌, Option, none, some, if◌then◌else◌, map}
use regcachectl.Text.{Text, eq}

mutual
  pub data Json : Type 0 where
    null : Json
    number : ℕ → Json
    string : Text → Json
    array : Items → Json
    object : Members → Json

  pub data Items : Type 0 where
    no_items : Items
    item : Json → Items → Items

  pub data Members : Type 0 where
    no_members : Members
    member : Text → Json → Members → Members

-- what is decoded into a field: the last member of that name. (Go also takes a name that differs in
-- case only.)
unfoldable pub field : Text → Members → Option Json
field k no_members = none
field k (member j v ms) = later (field k ms) (if eq j k then some v else none)
  where
    later : Option Json → Option Json → Option Json
    later (some w) here = some w
    later none here = here

-- `number`, `string`, a slice: absent where the value has another kind. A null leaves the zero value.
unfoldable pub as_number : Option Json → Option ℕ
as_number none = some 0
as_number (some null) = some 0
as_number (some (number n)) = some n
as_number (some v) = none

unfoldable pub as_string : Option Json → Option Text
as_string none = some []
as_string (some null) = some []
as_string (some (string s)) = some s
as_string (some v) = none

infixl 5 ◌>>=◌
abbrev pub ◌>>=◌ {ℓ κ} : {A : Type ℓ} {B : Type κ} → Option A → (A → Option B) → Option B
none >>= f = none
some a >>= f = f a

module _ {ℓ} {A : Type ℓ} where
  unfoldable pub as_items : (Option Json → Option A) → Items → Option (List A)
  as_items f no_items = some []
  as_items f (item v vs) = do a ← f (some v); rest ← as_items f vs; some (a ∷ rest)

  unfoldable pub as_list : (Option Json → Option A) → Option Json → Option (List A)
  unfolding as_items
  as_list f none = some []
  as_list f (some null) = some []
  as_list f (some (array vs)) = as_items f vs
  as_list f (some v) = none

  -- a map with the members, whose names differ, as keys
  unfoldable pub as_members : (Option Json → Option A) → Members → Option (List (Text × A))
  as_members f no_members = some []
  as_members f (member k v ms) = do a ← f (some v); rest ← as_members f ms; some ((k, a) ∷ rest)

  unfoldable pub as_map : (Option Json → Option A) → Option Json → Option (List (Text × A))
  unfolding as_members
  as_map f none = some []
  as_map f (some null) = some []
  as_map f (some (object ms)) = as_members f ms
  as_map f (some v) = none

  -- a slice that is not nil, and a map, whose keys are given in order
  unfoldable pub items_of : (A → Json) → List A → Items
  items_of f [] = no_items
  items_of f (a ∷ rest) = item (f a) (items_of f rest)

  unfoldable pub members_of : (A → Json) → List (Text × A) → Members
  members_of f [] = no_members
  members_of f ((k, a) ∷ m) = member k (f a) (members_of f m)

  -- What is written is read back.
  pub as_items-items_of :
      (f : A → Json) (g : Option Json → Option A) (l : List A)
      → ((a : A) → g (some (f a)) ≡ some a)
      → as_items g (items_of f l) ≡ some l
  unfolding as_items items_of
  as_items-items_of f g [] h = refl
  as_items-items_of f g (a ∷ rest) h = rw (h a, as_items-items_of f g rest h)

  pub as_members-members_of :
      (f : A → Json) (g : Option Json → Option A) (m : List (Text × A))
      → ((a : A) → g (some (f a)) ≡ some a)
      → as_members g (members_of f m) ≡ some m
  unfolding as_members members_of
  as_members-members_of f g [] h = refl
  as_members-members_of f g ((k, a) ∷ m) h = rw (h a, as_members-members_of f g m h)

module _ {ℓ κ} {A : Type ℓ} {B : Type κ} where
  -- The same where it is read as values of another type.
  pub as_items-map :
      (f : A → Json) (g : Option Json → Option B) (r : A → B) (l : List A)
      → ((a : A) → g (some (f a)) ≡ some (r a))
      → as_items g (items_of f l) ≡ some (map r l)
  unfolding as_items items_of
  as_items-map f g r [] h = refl
  as_items-map f g r (a ∷ rest) h = rw (h a, as_items-map f g r rest h)
