-- ===== src/Config/Toml.antt =====
-- src/config/resolve.rs: `toml::Value` and `toml::Table`, the latter as a list of keys and values that is
-- read and written by its keys only; and the two walks over it, `flatten` and `set_path`.
use automated_flywheel_setup.Base.{
  String, ◌≡◌, refl, sym, ap, ◌∙◌, eq_iff, arith, Bool, true, false, Option, none, some, List, [],
  ◌∷◌, ◌++◌, ◌==ₛ◌, is_empty, Bool-cases, inl, inr, concat, if◌then◌else◌,
}
use automated_flywheel_setup.Base.Int.{ℤ}

-- What is no table; a float and a date are their texts.
pub data Scalar : Type 0 where
  string : String → Scalar
  integer : ℤ → Scalar
  float : String → Scalar
  boolean : Bool → Scalar
  datetime : String → Scalar
  array : List String → Scalar

mutual
  pub data Value : Type 0 where
    scalar : Scalar → Value
    table : Table → Value

  pub data Table : Type 0 where
    empty : Table
    entry : String → Value → Table → Table

-- `get`
unfoldable pub get : String → Table → Option Value
get key empty = none
get key (entry k v t) = let later = get key t in if k ==ₛ key then some v else later

-- `insert`
unfoldable pub insert : String → Value → Table → Table
insert key value empty = entry key value empty
insert key value (entry k v t) =
    let later = insert key value t in if k ==ₛ key then entry k value t else entry k v later

-- A key behind a prefix.
abbrev pub join_key : String → String → String
join_key prefix k = if is_empty prefix then k else concat (prefix ∷ "." ∷ k ∷ [])

-- `flatten`: the dotted keys and what stands there.
unfoldable mutual
  pub flatten : String → Value → List (String × Value)
  flatten prefix (scalar s) = (prefix, scalar s) ∷ []
  flatten prefix (table t) = flatten_table prefix t

  pub flatten_table : String → Table → List (String × Value)
  flatten_table prefix empty = []
  flatten_table prefix (entry k v t) = flatten (join_key prefix k) v ++ flatten_table prefix t

-- The table at a key, made anew where something else stands.
abbrev pub as_table : Option Value → Table
as_table none = empty
as_table (some (scalar _)) = empty
as_table (some (table t)) = t

-- `set_path` by the parts of the key, of which there is one at least.
unfoldable pub set_parts : List String → Value → Table → Table
unfolding get insert
set_parts [] value t = t
set_parts (p ∷ []) value t = insert p value t
set_parts (p ∷ q ∷ parts) value t =
    insert p (table (set_parts (q ∷ parts) value (as_table (get p t)))) t

-- What stands at the parts of a key.
unfoldable pub get_parts : List String → Table → Option Value
unfolding get
get_parts [] t = none
get_parts (p ∷ []) t = get p t
get_parts (p ∷ q ∷ parts) t = get_parts (q ∷ parts) (as_table (get p t))

-- Two keys of which neither is in front of the other.
abbrev pub IsApart : List String → List String → Type 0
IsApart [] _ = ⊥
IsApart (p ∷ ps) [] = ⊥
IsApart (p ∷ ps) (q ∷ qs) = if p ==ₛ q then IsApart ps qs else Unit {0}

get-insert :
    (key other : String) (value : Value) (t : Table)
    → get other (insert key value t) ≡ (if key ==ₛ other then some value else get other t)
unfolding get insert
get-insert key other value empty = refl
get-insert key other value (entry k v t) =
    ground (arith, get-insert key other value t, eq_iff k key, eq_iff k other, eq_iff key other)

get-insert_self :
    (key : String) (value : Value) (t : Table) → get key (insert key value t) ≡ some value
get-insert_self key value t =
    get-insert key key value t
    ∙ (let same : (key ==ₛ key) ≡ true = (eq_iff key key).1 refl in simp same refl)

get-insert_other :
    (key other : String) (value : Value) (t : Table)
    → (key ==ₛ other) ≡ false
    → get other (insert key value t) ≡ get other t
get-insert_other key other value t differs = get-insert key other value t ∙ simp differs refl

pub get_parts-set_parts :
    (parts : List String) (p : String) (value : Value) (t : Table)
    → get_parts (p ∷ parts) (set_parts (p ∷ parts) value t) ≡ some value
unfolding get_parts set_parts
get_parts-set_parts [] p value t = get-insert_self p value t
get_parts-set_parts (q ∷ parts) p value t =
    ap (λ (o : Option Value). get_parts (q ∷ parts) (as_table o))
      (get-insert_self p (table (set_parts (q ∷ parts) value (as_table (get p t)))) t)
    ∙ get_parts-set_parts parts q value (as_table (get p t))

-- A key whose first part is another.
first_apart :
    (p q : String) (ps qs : List String) (value : Value) (t : Table)
    → (p ==ₛ q) ≡ false
    → get_parts (q ∷ qs) (set_parts (p ∷ ps) value t) ≡ get_parts (q ∷ qs) t
unfolding get_parts set_parts
first_apart p q [] [] value t d = get-insert_other p q value t d
first_apart p q [] (r ∷ qs) value t d =
    ap (λ (o : Option Value). get_parts (r ∷ qs) (as_table o)) (get-insert_other p q value t d)
first_apart p q (r ∷ ps) [] value t d = get-insert_other p q _ t d
first_apart p q (r ∷ ps) (s ∷ qs) value t d =
    ap (λ (o : Option Value). get_parts (s ∷ qs) (as_table o)) (get-insert_other p q _ t d)

pub get_parts-set_parts_apart :
    (ps qs : List String) (value : Value) (t : Table)
    → IsApart ps qs
    → get_parts qs (set_parts ps value t) ≡ get_parts qs t
unfolding get_parts set_parts
get_parts-set_parts_apart [] qs value t h = absurd h
get_parts-set_parts_apart (p ∷ ps) [] value t h = absurd h
get_parts-set_parts_apart (p ∷ []) (q ∷ qs) value t h = elim (Bool-cases (p ==ₛ q)) [
  | inl same ↦ absurd (simp same at h)
  | inr differs ↦ first_apart p q [] qs value t differs
]
get_parts-set_parts_apart (p ∷ r ∷ ps) (q ∷ []) value t h = elim (Bool-cases (p ==ₛ q)) [
  | inl same ↦ absurd (simp same at h)
  | inr differs ↦ first_apart p q (r ∷ ps) [] value t differs
]
get_parts-set_parts_apart (p ∷ r ∷ ps) (q ∷ s ∷ qs) value t h = elim (Bool-cases (p ==ₛ q)) [
  | inr differs ↦ first_apart p q (r ∷ ps) (s ∷ qs) value t differs
  | inl same ↦
      let e : p ≡ q = (eq_iff p q).0 same in
      let inner = set_parts (r ∷ ps) value (as_table (get p t)) in
      ap (λ (k : String). get_parts (s ∷ qs) (as_table (get k (insert p (table inner) t)))) (sym e)
      ∙ ap (λ (o : Option Value). get_parts (s ∷ qs) (as_table o))
          (get-insert_self p (table inner) t)
      ∙ get_parts-set_parts_apart (r ∷ ps) (s ∷ qs) value (as_table (get p t)) (simp same at h)
      ∙ ap (λ (k : String). get_parts (s ∷ qs) (as_table (get k t))) e
]
