-- ===== src/Reporting/Loaded/Timeline.antt =====
-- src/reporting/history.rs: which outcomes of a timeline `assess` looks at.
use mathlib.Core.Path.{subst}
use mathlib.Core.List.{append_assoc, append-nil}
use automated_flywheel_setup.Base.{
  ℕ, suc, String, ◌≡◌, ◌⊎◌, refl, sym, ap, ◌∙◌, eq_iff, Bool-cases, false, Option, none, some, List,
  [], ◌∷◌, ◌++◌, length, length-append, drop, All, All-append, arith, ◌==ₛ◌, inl, inr,
}
use automated_flywheel_setup.Reporting.Loaded.{
  HistoryEntry, Segment, segment_round, segment_from, segment,
}

abbrev or_hash : Option String → Option String → Option String
or_hash none earlier = earlier
or_hash (some h) earlier = some h

-- The hash that was seen last.
abbrev pub last_hash : List HistoryEntry → Option String
last_hash [] = none
last_hash (e ∷ es) = or_hash (last_hash es) e.script_sha256

-- The entry has no hash, or the given one.
abbrev pub Matches : Option String → HistoryEntry → Type 0
Matches h e = (e.script_sha256 ≡ none) ⊎ (e.script_sha256 ≡ h)

-- The entries begin with a hash that differs from the one that was last before them.
abbrev pub BeginsAnew : List HistoryEntry → List HistoryEntry → Type 0
BeginsAnew before [] = ⊥
BeginsAnew before (e ∷ es) =
    (prev : String) × (h : String) × (last_hash before ≡ some prev)
    × (e.script_sha256 ≡ some h)
    × ((prev ==ₛ h) ≡ false)

-- Two parts of a timeline: all that the second has of hashes is one, and it begins where that hash came.
pub record IsSegment (es stretch : List HistoryEntry) : Type 0 where
  pub before : List HistoryEntry
  pub whole : before ++ stretch ≡ es
  pub one_hash : All (Matches (last_hash es)) stretch
  pub begins : (before ≡ []) ⊎ BeginsAnew before stretch

drop-length : (xs ys : List HistoryEntry) → drop (length xs) (xs ++ ys) ≡ ys
drop-length [] ys = refl
drop-length (x ∷ xs) ys = drop-length xs ys

or_hash_assoc : (a b c : Option String) → or_hash (or_hash a b) c ≡ or_hash a (or_hash b c)
or_hash_assoc none b c = refl
or_hash_assoc (some h) b c = refl

or_hash-none : (a : Option String) → a ≡ or_hash a none
or_hash-none none = refl
or_hash-none (some h) = refl

last_hash-snoc :
    (es : List HistoryEntry) (e : HistoryEntry)
    → last_hash (es ++ e ∷ []) ≡ or_hash e.script_sha256 (last_hash es)
last_hash-snoc [] e = or_hash-none e.script_sha256
last_hash-snoc (x ∷ es) e =
    ap (λ (o : Option String). or_hash o x.script_sha256) (last_hash-snoc es e)
    ∙ or_hash_assoc e.script_sha256 (last_hash es) x.script_sha256

BeginsAnew-snoc :
    (before stretch : List HistoryEntry) (e : HistoryEntry)
    → BeginsAnew before stretch
    → BeginsAnew before (stretch ++ e ∷ [])
BeginsAnew-snoc before [] e h = absurd h
BeginsAnew-snoc before (x ∷ xs) e h = h

Matches-none :
    (h : Option String) (es : List HistoryEntry) → All (Matches none) es → All (Matches h) es
Matches-none h [] m = tt
Matches-none h (e ∷ es) (inl m, ms) = (inl m, Matches-none h es ms)
Matches-none h (e ∷ es) (inr m, ms) = (inl m, Matches-none h es ms)

-- What the walk knows behind the entries `es`.
abbrev IsAt : List HistoryEntry → Segment → Type 0
IsAt es (start, last) =
    (stretch : List HistoryEntry) × (s : IsSegment es stretch) × (start ≡ length s.before)
    × (last ≡ last_hash es)

-- An entry that matches goes to the stretch.
extend :
    (es stretch : List HistoryEntry) (e : HistoryEntry) (s : IsSegment es stretch)
    → All (Matches (last_hash (es ++ e ∷ []))) stretch
    → Matches (last_hash (es ++ e ∷ [])) e
    → IsSegment (es ++ e ∷ []) (stretch ++ e ∷ [])
extend es stretch e s ms m = record {
  before = s.before;
  whole =
      sym (append_assoc s.before stretch (e ∷ []))
      ∙ ap (λ (l : List HistoryEntry). l ++ e ∷ []) s.whole;
  one_hash = All-append (Matches (last_hash (es ++ e ∷ []))) stretch (e ∷ []) ms (m, tt);
  begins = elim s.begins [
    | inl first ↦ inl first
    | inr anew ↦ inr (BeginsAnew-snoc s.before stretch e anew)
  ];
}

round-IsAt :
    (es : List HistoryEntry) (e : HistoryEntry) (idx start : ℕ) (last o : Option String)
    → e.script_sha256 ≡ o
    → idx ≡ length es
    → IsAt es (start, last)
    → IsAt (es ++ e ∷ []) (segment_round idx o (start, last))
unfolding extend
round-IsAt es e idx start last none eq at (stretch, s, st, l) =
    let same : last_hash (es ++ e ∷ []) ≡ last_hash es =
      last_hash-snoc es e ∙ ap (λ (o : Option String). or_hash o (last_hash es)) eq in
    (
      stretch ++ e ∷ [],
      extend es stretch e s
          (subst (λ (h : Option String). All (Matches h) stretch) (sym same) s.one_hash) (inl eq),
      st,
      l ∙ sym same,
    )
round-IsAt es e idx start none (some h) eq at (stretch, s, st, l) =
    let now : last_hash (es ++ e ∷ []) ≡ some h =
      last_hash-snoc es e ∙ ap (λ (o : Option String). or_hash o (last_hash es)) eq in
    (
      stretch ++ e ∷ [],
      extend es stretch e s
          (Matches-none (last_hash (es ++ e ∷ [])) stretch
            (subst (λ (h : Option String). All (Matches h) stretch) (sym l) s.one_hash))
          (inr (eq ∙ sym now)),
      st,
      sym now,
    )
round-IsAt es e idx start (some prev) (some h) eq at (stretch, s, st, l) =
    let now : last_hash (es ++ e ∷ []) ≡ some h =
      last_hash-snoc es e ∙ ap (λ (o : Option String). or_hash o (last_hash es)) eq in
    elim (Bool-cases (prev ==ₛ h)) [
      | inl same ↦
          let as_before : last_hash es ≡ last_hash (es ++ e ∷ []) =
            sym l ∙ ap (λ (p : String). some p) ((eq_iff prev h).0 same) ∙ sym now in
          simp same (
            stretch ++ e ∷ [],
            extend es stretch e s
                (subst (λ (h : Option String). All (Matches h) stretch) as_before s.one_hash)
                (inr (eq ∙ sym now)),
            st,
            sym now,
          )
      | inr differs ↦ simp differs (
        e ∷ [],
        record {
          before = es;
          whole = refl;
          one_hash = (inr (eq ∙ sym now), tt);
          begins = inr (prev, h, sym l, eq, differs);
        },
        at,
        sym now,
      )
    ]

walk-IsAt :
    (es before : List HistoryEntry) (idx : ℕ) (s : Segment)
    → idx ≡ length before
    → IsAt before s
    → IsAt (before ++ es) (segment_from idx es s)
unfolding segment_from
walk-IsAt [] before idx s at h =
    subst (λ (l : List HistoryEntry). IsAt l s) (sym (append-nil before)) h
walk-IsAt (e ∷ es) before idx (start, last) at h =
    subst
      (λ (l : List HistoryEntry).
        IsAt l (segment_from (suc idx) es (segment_round idx e.script_sha256 (start, last))))
      (append_assoc before (e ∷ []) es)
      (walk-IsAt es (before ++ e ∷ []) (suc idx) (segment_round idx e.script_sha256 (start, last))
        (omega (arith, at, length-append before (e ∷ [])))
        (round-IsAt before e idx start last e.script_sha256 refl at h))

-- The outcomes that are assessed are the end of those that were considered: each of them has either no
-- script hash or the last one of all, and they begin either with the first outcome or with one whose
-- hash differs from the last hash before it.
pub segment-IsSegment : (es : List HistoryEntry) → IsSegment es (segment es)
unfolding segment
segment-IsSegment es = ends es (segment_from 0 es (0, none)) (
    walk-IsAt es [] 0 (0, none) refl
      ([], record { before = []; whole = refl; one_hash = tt; begins = inl refl }, refl, refl))
  where
    ends : (es : List HistoryEntry) (s : Segment) → IsAt es s → IsSegment es (drop s.0 es)
    ends es (start, last) (stretch, s, st, l) =
        subst (IsSegment es)
          (sym (
            ap (λ (l : List HistoryEntry). drop start l) (sym s.whole)
            ∙ ap (λ (n : ℕ). drop n (s.before ++ stretch)) st
            ∙ drop-length s.before stretch))
          s
