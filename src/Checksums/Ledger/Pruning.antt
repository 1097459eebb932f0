-- ===== src/Checksums/Ledger/Pruning.antt =====
-- src/checksums/ledger.rs: what pruning takes from a full ledger.
use mathlib.Core.Path.{subst}
use automated_flywheel_setup.Base.{
  ℕ, suc, String, ◌≡◌, refl, sym, ap, ◌∙◌, true, false, Option, none, List, [], ◌∷◌, ◌++◌, length,
  arith, All, Bool-cases, inl, inr, ◌==ₛ◌, as_bytes,
}
use automated_flywheel_setup.Reporting.Diff.{bytes_ltb}
use automated_flywheel_setup.Checksums.Ledger.{
  LedgerEntry, is_verified, is_older, insert_by_age, sort_by_age, remove_all, prune_index, upsert,
  seen, mark_verified, fresh_entry, record_script, keep_per_installer,
}

abbrev pub AllVerified : List LedgerEntry → Type 0
AllVerified = All (λ e. is_verified e ≡ true)

-- The list begins with an entry.
abbrev BeginsWith : LedgerEntry → List LedgerEntry → Type 0
BeginsWith n xs = (rest : List LedgerEntry) × (xs ≡ n ∷ rest)

is_older-unverified :
    (n e : LedgerEntry) → is_verified n ≡ false → is_verified e ≡ true → is_older n e ≡ true
unfolding is_older
is_older-unverified n e h k = ground arith

is_older-verified :
    (e n : LedgerEntry) → is_verified e ≡ true → is_verified n ≡ false → is_older e n ≡ false
unfolding is_older
is_older-verified e n h k = ground arith

insert_by_age-AllVerified :
    (e : LedgerEntry) (xs : List LedgerEntry)
    → is_verified e ≡ true
    → AllVerified xs
    → AllVerified (insert_by_age e xs)
unfolding insert_by_age
insert_by_age-AllVerified e [] h later = (h, tt)
insert_by_age-AllVerified e (x ∷ xs) h (here, later) = elim (Bool-cases (is_older x e)) [
  | inl older ↦ simp older (here, insert_by_age-AllVerified e xs h later)
  | inr other ↦ simp other (h, (here, later))
]

sort_by_age-AllVerified : (xs : List LedgerEntry) → AllVerified xs → AllVerified (sort_by_age xs)
unfolding sort_by_age
sort_by_age-AllVerified [] h = tt
sort_by_age-AllVerified (x ∷ xs) (here, later) =
    insert_by_age-AllVerified x (sort_by_age xs) here (sort_by_age-AllVerified xs later)

insert_by_age-first :
    (n : LedgerEntry) (xs : List LedgerEntry)
    → is_verified n ≡ false
    → AllVerified xs
    → BeginsWith n (insert_by_age n xs)
unfolding insert_by_age
insert_by_age-first n [] h later = ([], refl)
insert_by_age-first n (x ∷ xs) h (here, later) = (x ∷ xs, simp (is_older-verified x n here h) refl)

sort_by_age-first :
    (n : LedgerEntry) (before behind : List LedgerEntry)
    → is_verified n ≡ false
    → AllVerified before
    → AllVerified behind
    → BeginsWith n (sort_by_age (before ++ n ∷ behind))
unfolding sort_by_age
sort_by_age-first n [] behind h hb hd =
    insert_by_age-first n (sort_by_age behind) h (sort_by_age-AllVerified behind hd)
sort_by_age-first n (e ∷ before) behind h (here, hb) hd =
    let (rest, found) = sort_by_age-first n before behind h hb hd in
    (insert_by_age e rest, ap (insert_by_age e) found ∙ skip rest)
  where
    skip : (rest : List LedgerEntry) → insert_by_age e (n ∷ rest) ≡ n ∷ insert_by_age e rest
    skip rest = unfold insert_by_age in simp (is_older-unverified n e h here) refl

-- An entry that is new to the list is put between two parts of it.
upsert-new :
    (fresh : LedgerEntry) (change : LedgerEntry → LedgerEntry) (entries : List LedgerEntry)
    → All (λ e. (e.sha256 ==ₛ fresh.sha256) ≡ false) entries
    → (before behind : List LedgerEntry) × (entries ≡ before ++ behind)
      × (upsert fresh change entries ≡ before ++ change fresh ∷ behind)
unfolding upsert
upsert-new fresh change [] h = ([], [], refl, refl)
upsert-new fresh change (e ∷ entries) (other, later) =
    elim (Bool-cases (bytes_ltb (as_bytes fresh.sha256) (as_bytes e.sha256))) [
      | inl less ↦ ([], e ∷ entries, refl, simp (other, less) refl)
      | inr greater ↦
          let (before, behind, whole, put) = upsert-new fresh change entries later in
          (e ∷ before, behind, ap (◌∷◌ e) whole, simp (other, greater) (ap (◌∷◌ e) put))
    ]

-- No entry has the key.
abbrev pub IsForgotten : String → List LedgerEntry → Type 0
IsForgotten sha = All (λ e. (e.sha256 ==ₛ sha) ≡ false)

remove_all-IsForgotten :
    (n : LedgerEntry) (entries : List LedgerEntry)
    → IsForgotten n.sha256 (remove_all (n ∷ []) entries)
unfolding remove_all
remove_all-IsForgotten n [] = tt
remove_all-IsForgotten n (e ∷ entries) = elim (Bool-cases (e.sha256 ==ₛ n.sha256)) [
  | inl same ↦ simp same (remove_all-IsForgotten n entries)
  | inr other ↦ simp other (refl, remove_all-IsForgotten n entries)
]

split_verified :
    (before behind : List LedgerEntry)
    → AllVerified (before ++ behind)
    → AllVerified before × AllVerified behind
split_verified [] behind h = (tt, h)
split_verified (e ∷ before) behind (here, later) =
    let (hb, hd) = split_verified before behind later in ((here, hb), hd)

-- One entry too many: the oldest in the order of `by_age` goes.
prune_index-IsForgotten :
    (n : LedgerEntry) (entries : List LedgerEntry)
    → length entries ≡ 6
    → BeginsWith n (sort_by_age entries)
    → IsForgotten n.sha256 (prune_index entries)
unfolding prune_index
prune_index-IsForgotten n entries six (rest, first) =
    simp (six, first) (remove_all-IsForgotten n entries)

length-between :
    (n : LedgerEntry) (before behind : List LedgerEntry)
    → length (before ++ n ∷ behind) ≡ suc (length (before ++ behind))
length-between n [] behind = refl
length-between n (e ∷ before) behind = ap suc (length-between n before behind)

mark_verified-forgotten :
    (sha run_id : String) (now : ℕ) (entries : List LedgerEntry)
    → All (λ e. (e.sha256 ==ₛ sha) ≡ false) entries
    → mark_verified sha run_id now entries ≡ (false, entries)
unfolding mark_verified
mark_verified-forgotten sha run_id now [] h = refl
mark_verified-forgotten sha run_id now (e ∷ entries) (other, later) =
    simp (other, mark_verified-forgotten sha run_id now entries later) refl

record_script-IsForgotten :
    (sha : String) (now size : ℕ) (url : Option String) (entries : List LedgerEntry)
    → length entries ≡ keep_per_installer
    → AllVerified entries
    → IsForgotten sha entries
    → IsForgotten sha (record_script sha now size url none entries)
unfolding record_script
record_script-IsForgotten sha now size url entries five verified fresh =
    let n = seen now size url none (fresh_entry sha now size url) in
    let (before, behind, whole, put) =
      upsert-new (fresh_entry sha now size url) (seen now size url none) entries fresh in
    let (hb, hd) = split_verified before behind (subst AllVerified whole verified) in
    rw put (
      prune_index-IsForgotten n (before ++ n ∷ behind)
        (length-between n before behind ∙ ap suc (sym (ap length whole) ∙ five))
        (sort_by_age-first n before behind refl hb hd))

-- When a ledger holds as many scripts as it keeps, all of them verified, and a script that is not among
-- them is recorded without a passing run, the ledger does not hold that script afterwards, and to mark it
-- as verified finds nothing and changes nothing.
pub record_script-mark_verified :
    (sha run_id : String) (now later size : ℕ) (url : Option String) (entries : List LedgerEntry)
    → length entries ≡ keep_per_installer
    → AllVerified entries
    → IsForgotten sha entries
    → IsForgotten sha (record_script sha now size url none entries)
      × (mark_verified sha run_id later (record_script sha now size url none entries)
          ≡ (false, record_script sha now size url none entries))
record_script-mark_verified sha run_id now later size url entries five verified fresh =
    let gone = record_script-IsForgotten sha now size url entries five verified fresh in
    (
      gone,
      mark_verified-forgotten sha run_id later (record_script sha now size url none entries) gone,
    )
