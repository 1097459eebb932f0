-- ===== src/Config/Resolve/Precedence.antt =====
-- src/config/resolve.rs: which value of a key wins.
use automated_flywheel_setup.Base.{
  String, ◌≡◌, refl, sym, ap, ◌∙◌, eq_iff, arith, Bool-cases, true, Option, none, some, List, [],
  ◌∷◌, ◌==ₛ◌, pieces, pieces-cons, All, unwrap_or, if◌then◌else◌, ◌⊎◌, inl, inr,
}
use automated_flywheel_setup.Config.Toml.{
  Value, Table, table, flatten, get_parts, IsApart, get_parts-set_parts, get_parts-set_parts_apart,
}
use automated_flywheel_setup.Config.Resolve.{
  Source, CliOverrides, Assignments, entries, set_path, known_keys, unknown_keys, Merged, assign,
  assign_all, find_source, env_entries, Outside, Settings, source_of, load_raw, merge, settled,
  from_raw, resolve,
}

-- What stands at a dotted key.
unfoldable pub get_path : Table → String → Option Value
unfolding pieces get_parts
get_path root key = get_parts (pieces 46 key) root

abbrev or_later : Option Value → Option Value → Option Value
or_later none own = own
or_later (some later) own = some later

-- The last value that a list gives a key.
unfoldable pub last_of : String → Assignments → Option Value
last_of key [] = none
last_of key ((k, value) ∷ rest) =
    let later = last_of key rest in or_later later (if k ==ₛ key then some value else none)

-- An assignment that sets the key itself or keeps clear of it.
abbrev pub Fits : String → String × Value → Type 0
Fits key a = ((a.0 ==ₛ key) ≡ true) ⊎ IsApart (pieces 46 a.0) (pieces 46 key)

-- What a key has: its value and its source.
abbrev pub At : Type 0
At = Option Value × Source

abbrev pub over : Option Value → Source → At → At
over none source below = below
over (some value) source below = (some value, source)

abbrev at : String → Merged → At
at key m = (get_path m.root key, unwrap_or (find_source key m.sources) Source.default)

-- A key that was set has the value.
get_path-set_path :
    (root : Table) (key : String) (value : Value)
    → get_path (set_path root key value) key ≡ some value
unfolding get_path set_path
get_path-set_path root key value =
    let (p, ps, e) = pieces-cons 46 key in rw e (get_parts-set_parts ps p value root)

get_path-set_path_apart :
    (root : Table) (k key : String) (value : Value)
    → IsApart (pieces 46 k) (pieces 46 key)
    → get_path (set_path root k value) key ≡ get_path root key
unfolding get_path set_path
get_path-set_path_apart root k key value apart =
    get_parts-set_parts_apart (pieces 46 k) (pieces 46 key) value root apart

at-assign :
    (source : Source) (m : Merged) (key k : String) (value : Value)
    → Fits key (k, value)
    → at key (assign source m (k, value))
      ≡ over (if k ==ₛ key then some value else none) source (at key m)
unfolding assign find_source
at-assign source m key k value fits = elim (Bool-cases (k ==ₛ key)) [
  | inl same ↦
      let e : k ≡ key = (eq_iff k key).0 same in
      simp same (
        ap (λ (o : Option Value). (o, source))
          (ap (λ (x : String). get_path (set_path m.root x value) key) e
            ∙ get_path-set_path m.root key value))
  | inr other ↦ elim fits [
    | inl same ↦ ground arith
    | inr apart ↦ simp other (
        ap (λ (o : Option Value). (o, unwrap_or (find_source key m.sources) Source.default))
          (get_path-set_path_apart m.root k key value apart))
  ]
]

over-or_later :
    (later own : Option Value) (source : Source) (below : At)
    → over later source (over own source below) ≡ over (or_later later own) source below
over-or_later none own source below = refl
over-or_later (some v) own source below = refl

at-assign_all :
    (source : Source) (l : Assignments) (m : Merged) (key : String)
    → All (Fits key) l
    → at key (assign_all source l m) ≡ over (last_of key l) source (at key m)
unfolding assign_all last_of
at-assign_all source [] m key fit = refl
at-assign_all source ((k, value) ∷ rest) m key (fits, fit) =
    at-assign_all source rest (assign source m (k, value)) key fit
    ∙ ap (over (last_of key rest) source) (at-assign source m key k value fits)
    ∙ over-or_later (last_of key rest) (if k ==ₛ key then some value else none) source (at key m)

-- What each source gives a key, the strongest first.
pub record Given : Type 0 where
  pub by_cli : Option Value
  pub by_env : Option Value
  pub by_file : Option Value
  pub by_default : Option Value

-- The first source that gives the key a value.
abbrev pub strongest : Given → At
strongest g =
    over g.by_cli Source.cli
      (over g.by_env Source.env (over g.by_file Source.file (g.by_default, Source.default)))

module _ {ℓ} {C : Type ℓ} where
  -- What the sources of one resolution give a key.
  abbrev pub given :
      Outside C → Table → Table → (String → Option String) → CliOverrides → String → Given
  given o defaults raw variables c key = record {
    by_cli = last_of key (entries o.is_float c);
    by_env = last_of key (env_entries o.is_float variables (known_keys defaults));
    by_file = last_of key (flatten "" (table raw));
    by_default = get_path defaults key;
  }

  -- Every assignment of the resolution fits the key.
  abbrev pub AllFit :
      Outside C → Table → Table → (String → Option String) → CliOverrides → String → Type 0
  AllFit o defaults raw variables c key =
      All (Fits key) (flatten "" (table raw))
      × All (Fits key) (env_entries o.is_float variables (known_keys defaults))
      × All (Fits key) (entries o.is_float c)

  at-merge :
      (o : Outside C) (defaults raw : Table) (variables : String → Option String) (c : CliOverrides)
      (key : String)
      → AllFit o defaults raw variables c key
      → at key (merge o defaults raw variables c) ≡ strongest (given o defaults raw variables c key)
  unfolding merge find_source
  at-merge o defaults raw variables c key (in_file, in_env, in_cli) =
      at-assign_all Source.cli (entries o.is_float c) _ key in_cli
      ∙ ap (over (last_of key (entries o.is_float c)) Source.cli) (
          at-assign_all Source.env (env_entries o.is_float variables (known_keys defaults)) _ key
            in_env
          ∙ ap
              (over (last_of key (env_entries o.is_float variables (known_keys defaults)))
                Source.env)
              (at-assign_all Source.file (flatten "" (table raw)) _ key in_file))

  settled-inr :
      (path : Option String) (unknown : List String) (m : Merged) (read : Option C) (s : Settings C)
      → settled path unknown m read ≡ inr s
      → (read ≡ some s.config) × (s.sources ≡ m.sources)
  settled-inr path unknown m none s e = ground arith
  settled-inr path unknown m (some config) s e =
      let same : record {
        config = config;
        sources = m.sources;
        unknown_keys = unknown;
        config_path = path;
      }
          ≡ s =
        cc in
      (ap (λ (x : Settings C). some x.config) same, sym (ap (λ (x : Settings C). x.sources) same))

  -- For a run of `resolve` that gives settings from a file whose table is `raw` (the empty one without a
  -- file), and a dotted key such that every key that the file, a variable or a flag sets is that key or
  -- neither lies within the other: the configuration is the typed reading of a table in which the key has
  -- the value of the last flag for it, else that of its variable, else that of the file, else the
  -- default, and the source that is shown for the key is that very source.
  pub resolve-strongest :
      (o : Outside C) (defaults raw : Table) (path : Option String)
      (variables : String → Option String) (c : CliOverrides) (s : Settings C) (key : String)
      → load_raw o path ≡ inr raw
      → resolve o defaults path variables c ≡ inr s
      → AllFit o defaults raw variables c key
      → (root : Table) × (o.try_into root ≡ some s.config)
        × ((get_path root key, source_of s key) ≡ strongest (given o defaults raw variables c key))
  unfolding resolve source_of
  resolve-strongest o defaults raw path variables c s key loaded e fit =
      let m = merge o defaults raw variables c in
      let e' : from_raw o defaults path variables c (inr raw) ≡ inr s =
        ap (from_raw o defaults path variables c) (sym loaded) ∙ e in
      let (read, same) = settled-inr path (unknown_keys defaults raw) m (o.try_into m.root) s e' in
      (
        m.root,
        read,
        ap
              (λ (l : List (String × Source)).
                (get_path m.root key, unwrap_or (find_source key l) Source.default))
              same
            ∙ at-merge o defaults raw variables c key fit,
      )
