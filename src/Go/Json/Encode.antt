-- ===== src/Go/Json/Encode.antt =====
-- The encoder of `encoding/json` on maps, slices, strings, small numbers and Booleans: the keys of a
-- map are sorted; `SetIndent("", "  ")` and `MarshalIndent` put each member on a line of its own.
use eip.Prelude.{
  ℕ, suc, ◌*◌, Bool, true, false, [], ◌∷◌, ◌++◌, Bytes, codes, ltb, ◌==◌, if◌then◌else◌, replicate,
}
use eip.Go.Big.{digits}
use eip.Go.Json.Quote.{quote}

-- A value of type `any`, as far as the program builds one.
mutual
  pub data Json : Type 0 where
    text : Bytes → Json
    number : ℕ → Json
    truth : Bool → Json
    array : Items → Json
    object : Fields → Json

  pub data Items : Type 0 where
    nil : Items
    item : Json → Items → Items

  pub data Fields : Type 0 where
    end : Fields
    field : Bytes → Json → Fields → Fields

-- The order of two keys.
unfoldable pub before : Bytes → Bytes → Bool
before [] s = true
before (c ∷ s) [] = false
before (c ∷ s) (d ∷ t) = if ltb c d then true else if c == d then before s t else false

unfoldable pub insert : Bytes → Json → Fields → Fields
unfolding before
insert k v end = field k v end
insert k v (field k' v' fs) =
    if before k k' then field k v (field k' v' fs) else field k' v' (insert k v fs)

unfoldable mutual
  unfolding insert

  pub sort : Json → Json
  sort (text s) = text s
  sort (number n) = number n
  sort (truth b) = truth b
  sort (array vs) = array (sort_items vs)
  sort (object fs) = object (sort_fields fs)

  pub sort_items : Items → Items
  sort_items nil = nil
  sort_items (item v vs) = item (sort v) (sort_items vs)

  pub sort_fields : Fields → Fields
  sort_fields end = end
  sort_fields (field k v fs) = insert k (sort v) (sort_fields fs)

pub data Layout : Type 0 where
  compact indented : Layout

-- What stands between the members of a depth, and behind a key.
unfoldable pub line : Layout → ℕ → Bytes
line compact d = []
line indented d = b'\n' ∷ replicate (2 * d) b' '

unfoldable pub colon_text : Layout → Bytes
colon_text compact = b':' ∷ []
colon_text indented = b':' ∷ b' ' ∷ []

unfoldable pub truth_text : Bool → Bytes
truth_text true = codes "true"
truth_text false = codes "false"

-- A member of an object, with the text of its value and what follows it.
abbrev pub member_text : Layout → ℕ → Bytes → Bytes → Bytes → Bytes
member_text layout d k value rest =
    line layout d ++ (quote k ++ (colon_text layout ++ (value ++ rest)))

module _ (layout : Layout) where
  unfoldable mutual
    pub print : ℕ → Json → Bytes
    print d (text s) = quote s
    print d (number n) = digits n
    print d (truth b) = truth_text b
    print d (array nil) = codes "[]"
    print d (array (item v vs)) =
        b'[' ∷ (line layout (suc d) ++ (print (suc d) v ++ print_items d vs))
    print d (object end) = codes "{}"
    print d (object (field k v fs)) =
        b'{' ∷ member_text layout (suc d) k (print (suc d) v) (print_fields d fs)

    pub print_items : ℕ → Items → Bytes
    print_items d nil = line layout d ++ b']' ∷ []
    print_items d (item v vs) =
        b',' ∷ (line layout (suc d) ++ (print (suc d) v ++ print_items d vs))

    pub print_fields : ℕ → Fields → Bytes
    print_fields d end = line layout d ++ b'}' ∷ []
    print_fields d (field k v fs) =
        b',' ∷ member_text layout (suc d) k (print (suc d) v) (print_fields d fs)

  -- encoder.Encode(v), and json.Marshal or json.MarshalIndent with a line feed behind it
  unfoldable pub encode : Json → Bytes
  encode v = print 0 (sort v) ++ b'\n' ∷ []
